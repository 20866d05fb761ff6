-- ===== src/ChannelSlots/Scan.antt =====
-- The loop of `insert_unused_channel_id`: it ends, at the first vacant id from the next one on.
use amiquip.Prelude.{
  ℕ, zero, suc, ◌+◌, ◌-◌, ◌%◌, ◌≤◌, ◌<◌, ◌≡◌, ◌⊎◌, inl, inr, refl, ap, true, Option, none, some,
  arith, Bool-cases, Option-cases, leb, ℕ_discrete,
}
use amiquip.IndexSet.{IndexSet}
use amiquip.Errors.{Result, ok}
use amiquip.ChannelSlots.{ChannelSlots, u16_mod, is_some, get, taken, scan}

module _ (I : IndexSet) (T : Type 0) where
  -- All ids from `a` to below `b` are in use.
  abbrev pub Occupied : ChannelSlots I T → ℕ → ℕ → Type 0
  Occupied s a b = (k : ℕ) → a ≤ k → k < b → is_some (get I T s k) ≡ true

  -- The loop ran out of ids, or it found the first vacant one.
  pub data Found (s : ChannelSlots I T) : Result (Option ℕ) → ℕ → Type 0 where
    exhausted :
        {next : ℕ}
        → s.channel_max < next
        → (next ≡ s.next_channel_id) ⊎ (next ≡ s.channel_max + 1)
        → Occupied s s.next_channel_id (suc s.channel_max)
        → Found s (ok none) next
    vacant :
        {next : ℕ} (k : ℕ)
        → s.next_channel_id ≤ k
        → k ≤ s.channel_max
        → get I T s k ≡ none
        → Occupied s s.next_channel_id k
        → next ≡ k + 1
        → Found s (ok (some k)) next

  record Scans (s : ChannelSlots I T) (r : Result (Option ℕ)) (s' : ChannelSlots I T) : Type 0 where
    found : Found s r s'.next_channel_id
    rest : s' ≡ record s { next_channel_id = s'.next_channel_id }

  Occupied-cons :
      (s : ChannelSlots I T) (b : ℕ)
      → is_some (get I T s s.next_channel_id) ≡ true
      → Occupied s (s.next_channel_id + 1) b
      → Occupied s s.next_channel_id b
  Occupied-cons s b here later k from below = elim (ℕ_discrete s.next_channel_id k) [
    | yes p ↦ rw (← p) here
    | no p ↦ later k (omega arith) below
  ]

  Found-taken :
      (s : ChannelSlots I T) {r : Result (Option ℕ)} {next : ℕ}
      → is_some (get I T s s.next_channel_id) ≡ true
      → s.next_channel_id ≤ s.channel_max
      → (s.next_channel_id + 1) % u16_mod ≡ s.next_channel_id + 1
      → Found (taken I T s) r next
      → Found s r next
  unfolding get
  Found-taken s here within e (exhausted past at occupied) =
      exhausted past (inr (omega arith))
        (Occupied-cons s (suc s.channel_max) here λ k from below. occupied k (omega arith) below)
  Found-taken s here within e (vacant k from to free occupied next) =
      vacant k (omega arith) to free
        (Occupied-cons s k here λ j from' below. occupied j (omega arith) below) next

  scan-Scans :
      (fuel : ℕ) (s : ChannelSlots I T)
      → s.channel_max + 1 < u16_mod
      → s.channel_max + 1 - s.next_channel_id < fuel
      → Scans s (scan I T fuel s).0 (scan I T fuel s).1
  unfolding scan
  scan-Scans zero s small room = absurd (omega arith)
  scan-Scans (suc fuel) s small room = elim (Bool-cases (leb s.next_channel_id s.channel_max)) [
    | inr past ↦ rw past (record {
      found = exhausted (ground arith) (inl refl) (λ k from below. absurd (ground arith));
      rest = refl;
    })
    | inl within ↦ elim (Option-cases (get I T s s.next_channel_id)) [
      | inl free ↦
          rw (within, free)
            (record {
              found =
                  vacant s.next_channel_id (omega arith) (ground arith) free
                    (λ k from below. absurd (omega arith)) (ground arith);
              rest = refl;
            })
      | inr (t, used) ↦
          let e : (s.next_channel_id + 1) % u16_mod ≡ s.next_channel_id + 1 = ground arith in
          let r = scan-Scans fuel (taken I T s) small (ground arith) in
          rw (within, used)
            (record { found = Found-taken s (rw used) (ground arith) e r.found; rest = r.rest })
    ]
  ]

  -- With enough fuel the loop ends: it leaves all but the next id as it was, and it has found the
  -- first vacant id from the next one on, if there is one.
  pub scan-Found :
      (fuel : ℕ) (s : ChannelSlots I T)
      → s.channel_max + 1 < u16_mod
      → s.channel_max + 1 - s.next_channel_id < fuel
      → (r : Result (Option ℕ)) × (next : ℕ) × (scan I T fuel s
          ≡ (r, record s { next_channel_id = next }))
        × Found s r next
  scan-Found fuel s small room =
      let h = scan-Scans fuel s small room in
      (
        (scan I T fuel s).0,
        (scan I T fuel s).1.next_channel_id,
        ap (λ (x : ChannelSlots I T). ((scan I T fuel s).0, x)) h.rest,
        h.found,
      )
