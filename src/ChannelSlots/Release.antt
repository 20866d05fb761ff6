-- ===== src/ChannelSlots/Release.antt =====
-- Sequential slots from their start, and through `remove`.
use amiquip.Prelude.{
  ℕ, ◌≡◌, inl, inr, refl, ap, false, ◌∷◌, none, some, arith, ite, Option-cases, Bool-cases,
  ℕ_discrete,
}
use amiquip.HashMap
use amiquip.IndexSet.{IndexSet, contains}
use amiquip.Errors.{ok}
use amiquip.ChannelSlots.{ChannelSlots, new, set_channel_max, get, remove}
use amiquip.ChannelSlots.Allocation.{freed}
use amiquip.ChannelSlots.Sequential.{IsSequential}

module _ (I : IndexSet) (T : Type 0) where
  -- The slots of a new connection, after the handshake has set `channel_max`.
  pub set_channel_max-new :
      (m : ℕ)
      → (s : ChannelSlots I T) × (set_channel_max I T (new I T) m ≡ ok s)
        × (s.channel_max ≡ m)
        × IsSequential I T s
  unfolding set_channel_max new HashMap.is_empty HashMap.empty get HashMap.get
  set_channel_max-new m = (
    record (new I T) { channel_max = m },
    rw I.items-empty,
    refl,
    record {
      start = omega arith;
      end = omega arith;
      used = λ k e. absurd (cc e);
      vacant = λ k e. absurd (cc (ap (contains k) I.items-empty, e));
      distinct = rw I.items-empty tt;
      covered = λ k from below. absurd (omega arith);
    },
  )

  module _ (s : ChannelSlots I T) (k : ℕ) (t : T) (h : IsSequential I T s)
      (used : get I T s k ≡ some t) where
    abbrev removed : ChannelSlots I T
    removed = record s {
      slots = HashMap.remove ℕ_discrete s.slots k;
      freed_channel_ids = I.insert s.freed_channel_ids k;
    }

    get-removed : (j : ℕ) → get I T removed j ≡ ite (ℕ_discrete k j) none (get I T s j)
    unfolding get
    get-removed j = HashMap.get-remove ℕ_discrete s.slots k j

    not_freed : contains k (freed I T s) ≡ false
    not_freed = elim (Bool-cases (contains k (freed I T s))) [
      | inl e ↦ let v = h.vacant k e in absurd (cc)
      | inr e ↦ e
    ]

    freed-removed : freed I T removed ≡ k ∷ freed I T s
    freed-removed = ground (arith, I.items-insert s.freed_channel_ids k, not_freed)

    removed-IsSequential : IsSequential I T removed
    removed-IsSequential = record {
      start = h.start;
      end = h.end;
      used = λ j e. let b = h.used j in let g = get-removed j in ground arith;
      vacant = λ j e.
          let b = h.vacant j in
          let u = h.used k (rw used) in
          let g = get-removed j in ground (arith, ap (contains j) freed-removed);
      distinct = rw freed-removed (not_freed, h.distinct);
      covered = λ j from below.
          let b = h.covered j from below in
          let g = get-removed j in ground (arith, ap (contains j) freed-removed);
    }

  -- `remove` returns the entry and makes its id vacant; no other id changes, and the slots stay
  -- sequential.
  pub remove-IsSequential :
      (s : ChannelSlots I T) (k : ℕ)
      → IsSequential I T s
      → ((remove I T s k).0 ≡ get I T s k)
        × ((j : ℕ) → get I T (remove I T s k).1 j ≡ ite (ℕ_discrete k j) none (get I T s j))
        × IsSequential I T (remove I T s k).1
  unfolding remove
  remove-IsSequential s k h = elim (Option-cases (get I T s k)) [
    | inl e ↦ rw (e, remove) (refl, λ j. ground arith, h)
    | inr (t, e) ↦ rw (e, remove) (refl, get-removed s k t h e, removed-IsSequential s k t h e)
  ]
