-- ===== src/ChannelSlots/Sequential.antt =====
-- Clients that let the slots choose the ids: no id is lost and none is handed out twice.
use amiquip.Prelude.{
  ℕ, suc, ◌+◌, ◌-◌, ◌≤◌, ◌<◌, ◌≡◌, ◌⊎◌, sym, ap, ◌∙◌, true, false, List, [], ◌∷◌, none, some, arith,
  ite, ℕ_discrete,
}
use amiquip.HashMap
use amiquip.IndexSet.{IndexSet, contains}
use amiquip.Errors.{Result, ok, err, exhausted_channel_ids}
use amiquip.ChannelSlots.{ChannelSlots, u16_mod, is_some, get, insert}
use amiquip.ChannelSlots.Scan.{Occupied}
use amiquip.ChannelSlots.Allocation.{
  Returns, freed, explicit, next_id, recycled, Outcome, placed, failed, refused, none_left,
  taken_again, insert-Outcome,
}

abbrev pub Distinct : List ℕ → Type 0
Distinct [] = Unit {0}
Distinct (k ∷ l) = (contains k l ≡ false) × Distinct l

module _ (I : IndexSet) (T : Type 0) where
  -- Ids below the next one are in use or freed, and no others are; a freed id is vacant.
  pub record IsSequential (s : ChannelSlots I T) : Type 0 where
    pub start : 1 ≤ s.next_channel_id
    pub end : s.next_channel_id ≤ s.channel_max + 1
    pub used : (k : ℕ) → is_some (get I T s k) ≡ true → (1 ≤ k) × (k < s.next_channel_id)
    pub vacant :
        (k : ℕ)
        → contains k (freed I T s) ≡ true
        → (1 ≤ k) × (k < s.next_channel_id) × (get I T s k ≡ none)
    pub distinct : Distinct (freed I T s)
    pub covered :
        (k : ℕ)
        → 1 ≤ k
        → k < s.next_channel_id
        → (is_some (get I T s k) ≡ true) ⊎ (contains k (freed I T s) ≡ true)

  get-placed :
      (s s' : ChannelSlots I T) (k j : ℕ) (t : T)
      → s'.slots ≡ HashMap.insert ℕ_discrete s.slots k t
      → get I T s' j ≡ ite (ℕ_discrete k j) (some t) (get I T s j)
  unfolding get
  get-placed s s' k j t e = rw e (HashMap.get-insert ℕ_discrete s.slots k j t)

  -- The first vacant id is the next one.
  next_vacant :
      (s : ChannelSlots I T) (k : ℕ)
      → IsSequential s
      → s.next_channel_id ≤ k
      → Occupied I T s s.next_channel_id k
      → k ≡ s.next_channel_id
  next_vacant s k h from occupied = elim (ℕ_discrete k s.next_channel_id) [
    | yes p ↦ p
    | no p ↦ absurd (
        omega (
          arith,
          h.used s.next_channel_id (occupied s.next_channel_id (omega arith) (omega arith)),
        ))
  ]

  next_of_Occupied :
      (s : ChannelSlots I T)
      → IsSequential s
      → Occupied I T s s.next_channel_id (suc s.channel_max)
      → s.next_channel_id ≡ s.channel_max + 1
  next_of_Occupied s h occupied =
      let e = h.end in
      elim (ℕ_discrete s.next_channel_id (s.channel_max + 1)) [
        | yes p ↦ p
        | no p ↦ absurd (
            omega (
              arith,
              h.used s.next_channel_id (occupied s.next_channel_id (omega arith) (omega arith)),
            ))
      ]

  module _ (s s' : ChannelSlots I T) (k : ℕ) (t : T) (h : IsSequential s)
      (slots : s'.slots ≡ HashMap.insert ℕ_discrete s.slots k t)
      (max : s'.channel_max ≡ s.channel_max) where
    placed_next :
        k ≡ s.next_channel_id
        → k ≤ s.channel_max
        → freed I T s' ≡ freed I T s
        → s'.next_channel_id ≡ k + 1
        → IsSequential s'
    placed_next at within same next = record {
      start = omega arith;
      end = omega arith;
      used = λ j e. let b = h.used j in let g = get-placed s s' k j t slots in ground arith;
      vacant = λ j e.
          let b = h.vacant j (rw same at e) in let g = get-placed s s' k j t slots in ground arith;
      distinct = rw same h.distinct;
      covered = λ j from below.
          let b = h.covered j from in
          let g = get-placed s s' k j t slots in ground (arith, ap (contains j) same);
    }

    placed_recycled :
        freed I T s ≡ k ∷ freed I T s' → s'.next_channel_id ≡ s.next_channel_id → IsSequential s'
    placed_recycled old next =
        let d : Distinct (k ∷ freed I T s') = rw old at h.distinct in
        record {
          start = let b = h.start in omega arith;
          end = let b = h.end in omega arith;
          used = λ j e.
              let b = h.used j in
              let v = h.vacant k (ground (arith, ap (contains k) old)) in
              let g = get-placed s s' k j t slots in ground arith;
          vacant = λ j e.
              let b = h.vacant j (ground (arith, ap (contains j) old)) in
              let g = get-placed s s' k j t slots in ground (arith, d.0);
          distinct = d.1;
          covered = λ j from below.
              let b = h.covered j from in
              let g = get-placed s s' k j t slots in ground (arith, ap (contains j) old);
        }

  same_slots :
      (s s' : ChannelSlots I T)
      → s'.slots ≡ s.slots
      → s'.channel_max ≡ s.channel_max
      → freed I T s' ≡ freed I T s
      → s'.next_channel_id ≡ s.next_channel_id
      → IsSequential s
      → IsSequential s'
  unfolding get
  same_slots s s' slots max same next h = record {
    start = let b = h.start in omega arith;
    end = let b = h.end in omega arith;
    used = λ j e. let b = h.used j (rw slots at e) in omega arith;
    vacant = λ j e. let b = h.vacant j (rw same at e) in (omega arith, omega arith, rw slots b.2);
    distinct = rw same h.distinct;
    covered = λ j from below.
        let b = h.covered j from (omega arith) in
        ground (arith, ap (λ m. HashMap.get ℕ_discrete m j) slots, ap (contains j) same);
  }

module _ (I : IndexSet) (T U : Type 0) where
  -- What `insert(None, _)` comes to, on sequential slots: an id that was vacant, or none is left.
  pub data Allocates (s : ChannelSlots I T) (make_entry : ℕ → Result (T × U)) (r : Result U)
      (s' : ChannelSlots I T) : Type 0 where
    allocated :
        (k : ℕ) (t : T) (u : U)
        → make_entry k ≡ ok (t, u)
        → r ≡ ok u
        → 1 ≤ k
        → k ≤ s.channel_max
        → get I T s k ≡ none
        → s'.slots ≡ HashMap.insert ℕ_discrete s.slots k t
        → Allocates s make_entry r s'
    full :
        r ≡ err exhausted_channel_ids
        → ((k : ℕ) → 1 ≤ k → k ≤ s.channel_max → is_some (get I T s k) ≡ true)
        → s'.slots ≡ s.slots
        → Allocates s make_entry r s'

  module _ (make_entry : ℕ → Result (T × U))
      (succeeds : (k : ℕ) → (t : T) × (u : U) × (make_entry k ≡ ok (t, u))) where
    returns : (k : ℕ) → Returns (make_entry k)
    returns k = let (t, u, e) = succeeds k in rw e tt

    allocation :
        (s s' : ChannelSlots I T) (r : Result U)
        → IsSequential I T s
        → Outcome I T U s none make_entry r s'
        → IsSequential I T s' × Allocates s make_entry r s'
    allocation s s' r h (placed k t u made e free (explicit no_id _ _ _) slots max) = absurd (cc)
    allocation s s' r h
          (placed k t u made e free (next_id _ from to occupied same next) slots max) =
        let here = next_vacant I T s k h from occupied in
        let b = h.start in
        (
          placed_next I T s s' k t h slots max here to same next,
          allocated k t u made e (omega arith) to free slots,
        )
    allocation s s' r h (placed k t u made e free (recycled _ occupied old past at) slots max) =
        let v = h.vacant k (ground (arith, ap (contains k) old)) in
        let n = next_of_Occupied I T s h occupied in
        let b = h.end in
        (
          placed_recycled I T s s' k t h slots max old (omega arith),
          allocated k t u made e v.0 (omega arith) free slots,
        )
    allocation s s' r h (failed k x made e free chosen slots max) =
        let (t, u, made') = succeeds k in absurd (cc)
    allocation s s' r h (refused k asked why e same) = absurd (cc)
    allocation s s' r h (none_left _ occupied old e slots empty past at max) =
        let n = next_of_Occupied I T s h occupied in
        (
          same_slots I T s s' slots max (empty ∙ sym old) (omega arith) h,
          full e
              (λ k from to.
                let c = h.covered k from (omega arith) in ground (arith, ap (contains k) old))
              slots,
        )
    allocation s s' r h (taken_again k l _ _ old used e) =
        let v = h.vacant k (ground (arith, ap (contains k) old)) in absurd (ground arith)

    -- Slots whose ids were all chosen by `insert(None, _)` stay so, and the call does what the
    -- caller wants: it enters an id from 1 to `channel_max` that was vacant, or it reports that
    -- all of these are in use. It never panics, and it ends.
    pub insert_none-Allocates :
        (fuel : ℕ) (s : ChannelSlots I T)
        → s.channel_max + 1 < u16_mod
        → s.channel_max + 1 - s.next_channel_id < fuel
        → IsSequential I T s
        → IsSequential I T (insert I T fuel s none make_entry).1
          × Allocates s make_entry
              (insert I T fuel s none make_entry).0
              (insert I T fuel s none make_entry).1
    insert_none-Allocates fuel s small room h =
        allocation s (insert I T fuel s none make_entry).1 (insert I T fuel s none make_entry).0 h
          (insert-Outcome I T U make_entry returns fuel s none small room)
