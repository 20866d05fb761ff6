-- ===== src/ChannelSlots/Reuse.antt =====
-- An id that a client chose and freed stays in the set of freed ids while the id is handed out
-- again.
use amiquip.Prelude.{
  ℕ, zero, suc, ◌+◌, ◌≤◌, ◌<◌, ◌≡◌, refl, sym, ap, ◌∙◌, true, [], ◌∷◌, none, some, arith, ite,
  ℕ_discrete,
}
use amiquip.HashMap
use amiquip.IndexSet.{IndexSet, add}
use amiquip.Errors.{Result, ok, panicked}
use amiquip.ChannelSlots.{ChannelSlots, u16_mod, is_some, new, get, insert, remove, fill, put}
use amiquip.ChannelSlots.Scan.{Occupied}
use amiquip.ChannelSlots.Allocation.{
  Returns, freed, explicit, next_id, recycled, Outcome, placed, failed, refused, none_left,
  taken_again, insert-Outcome,
}

module _ (I : IndexSet) (T U : Type 0) where
  -- The ids below the next one are in use, and `k` alone counts as freed.
  record IsHaunted (m k : ℕ) (s : ChannelSlots I T) : Type 0 where
    max : s.channel_max ≡ m
    start : 1 ≤ s.next_channel_id
    end : s.next_channel_id ≤ m + 1
    in_use : (j : ℕ) → 1 ≤ j → j < s.next_channel_id → is_some (get I T s j) ≡ true
    used : (j : ℕ) → is_some (get I T s j) ≡ true → j < s.next_channel_id
    ghost : freed I T s ≡ k ∷ []

  module _ (make_entry : ℕ → Result (T × U))
      (succeeds : (k : ℕ) → (t : T) × (u : U) × (make_entry k ≡ ok (t, u))) where
    returns : (k : ℕ) → Returns (make_entry k)
    returns k = let (t, u, e) = succeeds k in rw e tt

    get-insert :
        (s s' : ChannelSlots I T) (k j : ℕ) (t : T)
        → s'.slots ≡ HashMap.insert ℕ_discrete s.slots k t
        → get I T s' j ≡ ite (ℕ_discrete k j) (some t) (get I T s j)
    unfolding get
    get-insert s s' k j t e = rw e (HashMap.get-insert ℕ_discrete s.slots k j t)

    not_full :
        (m k : ℕ) (s : ChannelSlots I T)
        → IsHaunted m k s
        → s.next_channel_id ≤ m
        → Occupied I T s s.next_channel_id (suc s.channel_max)
        → ⊥
    not_full m k s h room occupied =
        let e = h.max in
        let u = h.used s.next_channel_id (occupied s.next_channel_id (omega arith) (omega arith)) in
        omega arith

    next_here :
        (m k : ℕ) (s : ChannelSlots I T) (j : ℕ)
        → IsHaunted m k s
        → s.next_channel_id ≤ j
        → Occupied I T s s.next_channel_id j
        → j ≡ s.next_channel_id
    next_here m k s j h from occupied = elim (ℕ_discrete j s.next_channel_id) [
      | yes p ↦ p
      | no p ↦
          let u =
            h.used s.next_channel_id (occupied s.next_channel_id (omega arith) (omega arith)) in
          absurd (omega arith)
    ]

    IsHaunted-step :
        (m k : ℕ) (s s' : ChannelSlots I T) (r : Result U)
        → IsHaunted m k s
        → s.next_channel_id ≤ m
        → Outcome I T U s none make_entry r s'
        → IsHaunted m k s' × (s'.next_channel_id ≡ s.next_channel_id + 1)
    IsHaunted-step m k s s' r h room (placed j t u made e free (explicit no_id _ _ _) slots max) =
        absurd (cc)
    IsHaunted-step m k s s' r h room
          (placed j t u made e free (next_id _ from to occupied same next) slots max) =
        let n = next_here m k s j h from occupied in
        let b = h.start in
        (
          record {
            max = max ∙ h.max;
            start = omega arith;
            end = omega arith;
            in_use = λ i from' below.
                let c = h.in_use i from' in let g = get-insert s s' j i t slots in ground arith;
            used = λ i e'. let c = h.used i in let g = get-insert s s' j i t slots in ground arith;
            ghost = same ∙ h.ghost;
          },
          omega arith,
        )
    IsHaunted-step m k s s' r h room
          (placed j t u made e free (recycled _ occupied _ _ _) slots max) =
        absurd (not_full m k s h room occupied)
    IsHaunted-step m k s s' r h room (failed j x made e free chosen slots max) =
        let (t, u, made') = succeeds j in absurd (cc)
    IsHaunted-step m k s s' r h room (refused j asked why e same) = absurd (cc)
    IsHaunted-step m k s s' r h room (none_left _ occupied old e slots empty past at max) =
        absurd (not_full m k s h room occupied)
    IsHaunted-step m k s s' r h room (taken_again j l _ occupied old used e) =
        absurd (not_full m k s h room occupied)

    -- `n` calls of `insert(None, _)`.
    unfoldable pub insert_all : ℕ → ℕ → ChannelSlots I T → ChannelSlots I T
    insert_all zero fuel s = s
    insert_all (suc n) fuel s = insert_all n fuel (insert I T fuel s none make_entry).1

    IsHaunted-all :
        (n fuel m k : ℕ) (s : ChannelSlots I T)
        → m + 1 < u16_mod
        → m + 1 < fuel
        → IsHaunted m k s
        → s.next_channel_id + n ≡ m + 1
        → IsHaunted m k (insert_all n fuel s) × ((insert_all n fuel s).next_channel_id ≡ m + 1)
    unfolding insert_all
    IsHaunted-all zero fuel m k s small room h at = (h, omega arith)
    IsHaunted-all (suc n) fuel m k s small room h at =
        let e = h.max in
        let b = h.start in
        let (h', next) =
          IsHaunted-step m k s (insert I T fuel s none make_entry).1
            (insert I T fuel s none make_entry).0 h (omega arith)
            (insert-Outcome I T U make_entry returns fuel s none (omega arith) (omega arith)) in
        IsHaunted-all n fuel m k (insert I T fuel s none make_entry).1 small room h' (omega arith)

    haunted_panics :
        (m k : ℕ) (s s' : ChannelSlots I T) (r : Result U)
        → IsHaunted m k s
        → s.next_channel_id ≡ m + 1
        → 1 ≤ k
        → k ≤ m
        → Outcome I T U s none make_entry r s'
        → r ≡ panicked
    haunted_panics m k s s' r h at from to (placed j t u made e free (explicit no_id _ _ _) _ _) =
        absurd (cc)
    haunted_panics m k s s' r h at from to
          (placed j t u made e free (next_id _ from' to' _ _ _) _ _) =
        let e = h.max in absurd (omega arith)
    haunted_panics m k s s' r h at from to (placed j t u made e free (recycled _ _ old _ _) _ _) =
        let c = h.in_use k from (omega arith) in
        let same : k ∷ [] ≡ j ∷ freed I T s' = sym h.ghost ∙ old in
        let here : k ≡ j = cc in absurd (ground arith)
    haunted_panics m k s s' r h at from to (failed j x made e free chosen _ _) =
        let (t, u, made') = succeeds j in absurd (cc)
    haunted_panics m k s s' r h at from to (refused j asked why e same) = absurd (cc)
    haunted_panics m k s s' r h at from to (none_left _ _ old _ _ _ _ _ _) =
        let same : k ∷ [] ≡ [] = sym h.ghost ∙ old in absurd (cc)
    haunted_panics m k s s' r h at from to (taken_again j l _ _ old used e) = e

    -- `insert(Some(k), _)` and `remove(k)` on the slots of a new connection.
    unfoldable pub open_and_close : ℕ → ℕ → ℕ → ChannelSlots I T
    open_and_close fuel m k =
        (remove I T (insert I T fuel (record (new I T) { channel_max = m }) (some k) make_entry).1
          k).1

    opened :
        (fuel m k : ℕ) (t : T) (u : U)
        → make_entry k ≡ ok (t, u)
        → k ≤ m
        → open_and_close fuel m k ≡ record {
          slots = HashMap.remove ℕ_discrete (HashMap.insert ℕ_discrete HashMap.empty k t) k;
          freed_channel_ids = I.insert I.empty k;
          next_channel_id = 1;
          channel_max = m;
        }
    unfolding open_and_close insert fill put remove new get
    opened fuel m k t u made to = ground (
      arith,
      HashMap.get-insert ℕ_discrete (HashMap.empty {K = ℕ} {V = T}) k k t,
      HashMap.get-empty {V = T} ℕ_discrete k,
    )

    vacant_again :
        (j k : ℕ) (t : T)
        → HashMap.get ℕ_discrete
            (HashMap.remove ℕ_discrete (HashMap.insert ℕ_discrete HashMap.empty k t) k)
            j
          ≡ none
    vacant_again j k t = ground (
      arith,
      HashMap.get-remove ℕ_discrete (HashMap.insert ℕ_discrete HashMap.empty k t) k j,
      HashMap.get-insert ℕ_discrete (HashMap.empty {K = ℕ} {V = T}) k j t,
      HashMap.get-empty {V = T} ℕ_discrete j,
    )

    open_and_close-IsHaunted :
        (fuel m k : ℕ)
        → m + 1 < u16_mod
        → 1 ≤ k
        → k ≤ m
        → IsHaunted m k (open_and_close fuel m k) × ((open_and_close fuel m k).next_channel_id ≡ 1)
    unfolding get
    open_and_close-IsHaunted fuel m k small from to =
        let (t, u, made) = succeeds k in
        let e = opened fuel m k t u made to in
        rw e (
          record {
            max = refl;
            start = omega arith;
            end = omega arith;
            in_use = λ j from' below. absurd (omega arith);
            used = λ j e'. let v = vacant_again j k t in absurd (ground arith);
            ghost = I.items-insert I.empty k ∙ ap (add k) I.items-empty;
          },
          refl,
        )

    -- Let the slots of a new connection have any `channel_max` below the last of u16. A client
    -- opens a channel under an id `k` of its own and closes it, and then channels are opened
    -- without an id until all ids are in use. The next request for a channel without an id
    -- panics, at "free channel id cannot be occupied", where it should report that no id is left.
    pub insert_none_panics :
        (fuel m k : ℕ)
        → m + 1 < u16_mod
        → m + 1 < fuel
        → 1 ≤ k
        → k ≤ m
        → (insert I T fuel (insert_all m fuel (open_and_close fuel m k)) none make_entry).0
          ≡ panicked
    insert_none_panics fuel m k small room from to =
        let s = open_and_close fuel m k in
        let (h0, one) = open_and_close-IsHaunted fuel m k small from to in
        let (h, at) = IsHaunted-all m fuel m k s small room h0 (omega arith) in
        let e = h.max in
        haunted_panics m k (insert_all m fuel s)
          (insert I T fuel (insert_all m fuel s) none make_entry).1
          (insert I T fuel (insert_all m fuel s) none make_entry).0 h at from to
          (insert-Outcome I T U make_entry returns fuel (insert_all m fuel s) none (omega arith)
            (omega arith))
