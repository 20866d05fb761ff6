-- ===== src/ChannelSlots/Allocation.antt =====
-- `insert` on all its branches.
use amiquip.Prelude.{
  ℕ, suc, ◌+◌, ◌-◌, ◌≤◌, ◌<◌, ◌≡◌, ◌⊎◌, inl, inr, refl, sym, ap, ◌∙◌, true, List, [], ◌∷◌, Option,
  none, some, arith, Bool-cases, Option-cases, ltb, ℕ_discrete,
}
use mathlib.Core.Path.{subst}
use amiquip.HashMap
use amiquip.IndexSet.{IndexSet}
use amiquip.Errors.{
  Result, Error, ok, err, panicked, out_of_fuel, unavailable_channel_id, exhausted_channel_ids,
}
use amiquip.ChannelSlots.{
  ChannelSlots, u16_mod, is_some, get, put, scan, fill, reuse_freed, insert_unused_channel_id,
  insert,
}
use amiquip.ChannelSlots.Scan.{Occupied, Found, exhausted, vacant, scan-Found}

-- A closure that makes an entry returns or fails; it neither panics nor hangs.
abbrev pub Returns {ℓ} : {A : Type ℓ} → Result A → Type 0
Returns (ok a) = Unit {0}
Returns (err e) = Unit {0}
Returns panicked = ⊥
Returns out_of_fuel = ⊥

module _ (I : IndexSet) (T : Type 0) where
  open I use {items}

  abbrev pub freed : ChannelSlots I T → List ℕ
  freed s = items s.freed_channel_ids

  -- Where a new id comes from.
  pub data Chosen (s : ChannelSlots I T) (asked : Option ℕ) (k : ℕ) (left : List ℕ) (next : ℕ)
      : Type 0 where
    explicit :
        asked ≡ some k
        → k ≤ s.channel_max
        → left ≡ freed s
        → next ≡ s.next_channel_id
        → Chosen s asked k left next
    next_id :
        asked ≡ none
        → s.next_channel_id ≤ k
        → k ≤ s.channel_max
        → Occupied I T s s.next_channel_id k
        → left ≡ freed s
        → next ≡ k + 1
        → Chosen s asked k left next
    recycled :
        asked ≡ none
        → Occupied I T s s.next_channel_id (suc s.channel_max)
        → freed s ≡ k ∷ left
        → s.channel_max < next
        → (next ≡ s.next_channel_id) ⊎ (next ≡ s.channel_max + 1)
        → Chosen s asked k left next

module _ (I : IndexSet) (T U : Type 0) where
  -- The branches of `insert`: a vacant id gets the new entry, or nothing is entered.
  pub data Outcome (s : ChannelSlots I T) (asked : Option ℕ) (make_entry : ℕ → Result (T × U))
      (r : Result U) (s' : ChannelSlots I T) : Type 0 where
    placed :
        (k : ℕ) (t : T) (u : U)
        → make_entry k ≡ ok (t, u)
        → r ≡ ok u
        → get I T s k ≡ none
        → Chosen I T s asked k (freed I T s') s'.next_channel_id
        → s'.slots ≡ HashMap.insert ℕ_discrete s.slots k t
        → s'.channel_max ≡ s.channel_max
        → Outcome s asked make_entry r s'
    failed :
        (k : ℕ) (e : Error)
        → make_entry k ≡ err e
        → r ≡ err e
        → get I T s k ≡ none
        → Chosen I T s asked k (freed I T s') s'.next_channel_id
        → s'.slots ≡ s.slots
        → s'.channel_max ≡ s.channel_max
        → Outcome s asked make_entry r s'
    refused :
        (k : ℕ)
        → asked ≡ some k
        → (s.channel_max < k) ⊎ (is_some (get I T s k) ≡ true)
        → r ≡ err (unavailable_channel_id k)
        → s' ≡ s
        → Outcome s asked make_entry r s'
    none_left :
        asked ≡ none
        → Occupied I T s s.next_channel_id (suc s.channel_max)
        → freed I T s ≡ []
        → r ≡ err exhausted_channel_ids
        → s'.slots ≡ s.slots
        → freed I T s' ≡ []
        → s.channel_max < s'.next_channel_id
        → (s'.next_channel_id ≡ s.next_channel_id) ⊎ (s'.next_channel_id ≡ s.channel_max + 1)
        → s'.channel_max ≡ s.channel_max
        → Outcome s asked make_entry r s'
    taken_again :
        (k : ℕ) (l : List ℕ)
        → asked ≡ none
        → Occupied I T s s.next_channel_id (suc s.channel_max)
        → freed I T s ≡ k ∷ l
        → is_some (get I T s k) ≡ true
        → r ≡ panicked
        → Outcome s asked make_entry r s'

  module _ (make_entry : ℕ → Result (T × U)) (returns : (k : ℕ) → Returns (make_entry k)) where
    -- `fill` at a vacant id, reached from `s` over `s'` with the same slots.
    fill-Outcome :
        (s s' : ChannelSlots I T) (asked : Option ℕ) (k : ℕ) (e : Result (T × U))
        → make_entry k ≡ e
        → get I T s k ≡ none
        → s'.slots ≡ s.slots
        → s'.channel_max ≡ s.channel_max
        → Chosen I T s asked k (freed I T s') s'.next_channel_id
        → Outcome s asked make_entry (fill I T s' k make_entry).0 (fill I T s' k make_entry).1
    unfolding fill put
    fill-Outcome s s' asked k (ok (t, u)) made free same same_max chosen =
        rw (made, fill)
          (placed k t u made refl free chosen (ap (λ m. HashMap.insert ℕ_discrete m k t) same)
            same_max)
    fill-Outcome s s' asked k (err e) made free same same_max chosen =
        rw (made, fill) (failed k e made refl free chosen same same_max)
    fill-Outcome s s' asked k panicked made free same same_max chosen =
        absurd (subst Returns made (returns k))
    fill-Outcome s s' asked k out_of_fuel made free same same_max chosen =
        absurd (subst Returns made (returns k))

    reuse-Outcome :
        (s : ChannelSlots I T) (next : ℕ)
        → s.channel_max < next
        → (next ≡ s.next_channel_id) ⊎ (next ≡ s.channel_max + 1)
        → Occupied I T s s.next_channel_id (suc s.channel_max)
        → Outcome s none make_entry
            (reuse_freed I T (record s { next_channel_id = next }) make_entry).0
            (reuse_freed I T (record s { next_channel_id = next }) make_entry).1
    unfolding reuse_freed get
    reuse-Outcome s next past at occupied = go (freed I T s) refl
      where
        go :
            (l : List ℕ)
            → freed I T s ≡ l
            → Outcome s none make_entry
                (reuse_freed I T (record s { next_channel_id = next }) make_entry).0
                (reuse_freed I T (record s { next_channel_id = next }) make_entry).1
        go [] e =
            let p = I.pop_none s.freed_channel_ids e in
            rw (p, reuse_freed) (none_left refl occupied e refl refl e past at refl)
        go (k ∷ l) e =
            let (left, p, q) = I.pop_some s.freed_channel_ids k l e in
            elim (Option-cases (get I T s k)) [
              | inl free ↦
                  rw (p, reuse_freed, free)
                    (fill-Outcome s (record s { next_channel_id = next; freed_channel_ids = left })
                      none k (make_entry k) refl free refl refl
                      (recycled refl occupied (e ∙ ap (◌∷◌ k) (sym q)) past at))
              | inr (t, used) ↦
                  rw (p, reuse_freed, used) (taken_again k l refl occupied e (rw used) refl)
            ]

    Found-Outcome :
        (fuel : ℕ) (s : ChannelSlots I T) (r : Result (Option ℕ)) (next : ℕ)
        → scan I T fuel s ≡ (r, record s { next_channel_id = next })
        → Found I T s r next
        → Outcome s none make_entry
            (insert_unused_channel_id I T fuel s make_entry).0
            (insert_unused_channel_id I T fuel s make_entry).1
    unfolding insert_unused_channel_id
    Found-Outcome fuel s r next e (exhausted past at occupied) =
        rw e (reuse-Outcome s next past at occupied)
    Found-Outcome fuel s r next e (vacant k from to free occupied at) = rw e (
        fill-Outcome s (record s { next_channel_id = next }) none k (make_entry k) refl free refl
          refl (next_id refl from to occupied refl at))

    -- `insert` ends, on one of the branches of `Outcome`.
    pub insert-Outcome :
        (fuel : ℕ) (s : ChannelSlots I T) (asked : Option ℕ)
        → s.channel_max + 1 < u16_mod
        → s.channel_max + 1 - s.next_channel_id < fuel
        → Outcome s asked make_entry
            (insert I T fuel s asked make_entry).0
            (insert I T fuel s asked make_entry).1
    unfolding insert
    insert-Outcome fuel s none small room =
        let (r, next, e, found) = scan-Found I T fuel s small room in
        Found-Outcome fuel s r next e found
    insert-Outcome fuel s (some k) small room = elim (Bool-cases (ltb s.channel_max k)) [
      | inl above ↦ rw above (refused k refl (inl (ground arith)) refl refl)
      | inr within ↦ elim (Option-cases (get I T s k)) [
        | inr (t, used) ↦ rw (within, used) (refused k refl (inr (rw used)) refl refl)
        | inl free ↦
            rw (within, free)
              (fill-Outcome s s (some k) k (make_entry k) refl free refl refl
                (explicit refl (ground arith) refl refl))
      ]
    ]
