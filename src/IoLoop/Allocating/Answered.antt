-- ===== src/IoLoop/Allocating/Answered.antt =====
-- What a request for a channel leaves.
use amiquip.Prelude.{
  ℕ, ◌+◌, ◌≡◌, ◌≢◌, ◌<◌, refl, ap, sym, ◌∙◌, Bool, true, false, List, [], ◌∷◌, ◌++◌, Option, none,
  some, if◌then◌else◌, ite, if_pos, if_neg, inl, inr, Option-cases, Bool-cases, ℕ_discrete, arith,
}
use mathlib.Core.Path.{subst}
use amiquip.HashMap
use amiquip.Errors.{Result, Error, ok, err, panicked, out_of_fuel, ◌>>◌}
use amiquip.IndexSet.{IndexSet}
use amiquip.Protocol.{Amqp}
use amiquip.ChannelSlots
use amiquip.ChannelSlots.{ChannelSlots, u16_mod}
use amiquip.ChannelSlots.Allocation.{
  Outcome, placed, failed, refused, none_left, taken_again, insert-Outcome, Returns,
}
use amiquip.Inner.{ChannelSlot}
use amiquip.IoLoop.{new_slot, slot_of}
use amiquip.IoLoop.Allocating.{Allocator, make_entry, reply, inserted, allocate_one, slots_of}

module _ (A : Amqp) (I : IndexSet) (register deregister : ℕ → Result (Unit {0}))
    (takes : List (Result ℕ) → Bool) where
  -- What a request leaves that did not panic.
  pub data Answered (s : Allocator A I) (after : Allocator A I) : Type 0 where
    given :
        (id : ℕ)
        → takes s.replies ≡ true
        → after.replies ≡ s.replies ++ ok id ∷ []
        → slot_of A I s.io id ≡ none
        → slot_of A I after.io id ≡ some (new_slot A I s.io.inner.next_sender id)
        → ((m : ℕ) → id ≢ m → slot_of A I after.io m ≡ slot_of A I s.io m)
        → Answered s after
    told :
        (e : Error)
        → takes s.replies ≡ true
        → after.replies ≡ s.replies ++ err e ∷ []
        → ((m : ℕ) → slot_of A I after.io m ≡ slot_of A I s.io m)
        → Answered s after
    undone :
        takes s.replies ≡ false
        → after.replies ≡ s.replies
        → ((m : ℕ) → slot_of A I after.io m ≡ slot_of A I s.io m)
        → Answered s after

  entry_is :
      {X : Type 0} (first second : Result (Unit {0})) (x y : X)
      → (first >> (second >> ok x)) ≡ ok y
      → x ≡ y
  entry_is (ok u) (ok v) x y h = cc
  entry_is (ok u) (err e) x y h = cc
  entry_is (ok u) panicked x y h = cc
  entry_is (ok u) out_of_fuel x y h = cc
  entry_is (err e) second x y h = cc
  entry_is panicked second x y h = cc
  entry_is out_of_fuel second x y h = cc

  entry-Returns :
      {X : Type 0} (first second : Result (Unit {0})) (x : X)
      → Returns first
      → Returns second
      → Returns (first >> (second >> ok x))
  entry-Returns (ok u) (ok v) x f g = tt
  entry-Returns (ok u) (err e) x f g = tt
  entry-Returns (ok u) panicked x f g = g
  entry-Returns (ok u) out_of_fuel x f g = g
  entry-Returns (err e) second x f g = tt
  entry-Returns panicked second x f g = f
  entry-Returns out_of_fuel second x f g = f

  maybe-Returns :
      (registered : Bool) (r : Result (Unit {0}))
      → Returns r
      → Returns (if registered then ok tt else r)
  maybe-Returns true r h = tt
  maybe-Returns false r h = h

  get-remove :
      (slots : ChannelSlots I (ChannelSlot A)) (k m : ℕ)
      → ChannelSlots.get I (ChannelSlot A) (ChannelSlots.remove I (ChannelSlot A) slots k).1 m
        ≡ ite (ℕ_discrete k m) none (ChannelSlots.get I (ChannelSlot A) slots m)
  unfolding ChannelSlots.remove ChannelSlots.get
  get-remove slots k m = elim (Option-cases (ChannelSlots.get I (ChannelSlot A) slots k)) [
    | inl e ↦ rw (e, ChannelSlots.remove) (ground (arith, e))
    | inr (t, e) ↦ rw (e, ChannelSlots.remove) (HashMap.get-remove ℕ_discrete slots.slots k m)
  ]

  get_same :
      (a b : ChannelSlots I (ChannelSlot A)) (m : ℕ)
      → a.slots ≡ b.slots
      → ChannelSlots.get I (ChannelSlot A) a m ≡ ChannelSlots.get I (ChannelSlot A) b m
  unfolding ChannelSlots.get
  get_same a b m h = ap (λ slots. HashMap.get ℕ_discrete slots m) h

  get_new :
      (a b : ChannelSlots I (ChannelSlot A)) (k m : ℕ) (t : ChannelSlot A)
      → a.slots ≡ HashMap.insert ℕ_discrete b.slots k t
      → ChannelSlots.get I (ChannelSlot A) a m
        ≡ ite (ℕ_discrete k m) (some t) (ChannelSlots.get I (ChannelSlot A) b m)
  unfolding ChannelSlots.get
  get_new a b k m t h =
      ap (λ slots. HashMap.get ℕ_discrete slots m) h ∙ HashMap.get-insert ℕ_discrete b.slots k m t

  module _ (s : Allocator A I) (slots : ChannelSlots I (ChannelSlot A)) where
    given_or_undone :
        (k : ℕ)
        → ChannelSlots.get I (ChannelSlot A) (slots_of A I register deregister takes s) k ≡ none
        → slots.slots
          ≡ HashMap.insert ℕ_discrete
              (slots_of A I register deregister takes s).slots
              k
              (new_slot A I s.io.inner.next_sender k)
        → Answered s ((reply A I register deregister takes (ok k, slots) s).1)
    unfolding reply
    given_or_undone k free placed_ = elim (Bool-cases (takes s.replies)) [
      | inl there ↦ rw there (
          given k there refl free
            (get_new slots (slots_of A I register deregister takes s) k k _ placed_
              ∙ if_pos (ℕ_discrete k k) refl _ _)
            (λ m other.
              get_new slots (slots_of A I register deregister takes s) k m _ placed_
              ∙ if_neg (ℕ_discrete k m) other _ _))
      | inr gone ↦ rw gone (
          undone gone refl (λ m. elim (ℕ_discrete k m) [
            | yes same ↦
                get-remove slots k m
                ∙ if_pos (ℕ_discrete k m) same _ _
                ∙ sym free
                ∙ ap
                    (λ j.
                      ChannelSlots.get I (ChannelSlot A) (slots_of A I register deregister takes s)
                        j)
                    same
            | no other ↦
                get-remove slots k m
                ∙ if_neg (ℕ_discrete k m) other _ _
                ∙ get_new slots (slots_of A I register deregister takes s) k m _ placed_
                ∙ if_neg (ℕ_discrete k m) other _ _
          ]))
    ]

    told_or_undone :
        (e : Error)
        → slots.slots ≡ (slots_of A I register deregister takes s).slots
        → Answered s ((reply A I register deregister takes (err e, slots) s).1)
    unfolding reply
    told_or_undone e same = elim (Bool-cases (takes s.replies)) [
      | inl there ↦ rw there (
          told e there refl (λ m. get_same slots (slots_of A I register deregister takes s) m same))
      | inr gone ↦
          rw gone (
            undone gone refl
              (λ m. get_same slots (slots_of A I register deregister takes s) m same))
    ]

    not_panicked :
        (r : Result ℕ)
        → r ≡ panicked
        → (reply A I register deregister takes (r, slots) s).0 ≡ ok tt
        → Answered s ((reply A I register deregister takes (r, slots) s).1)
    unfolding reply
    not_panicked (ok k) e h = absurd cc
    not_panicked (err e) e' h = absurd cc
    not_panicked panicked e h = absurd cc
    not_panicked out_of_fuel e h = absurd cc

    of_outcome :
        (request : Option ℕ) (r : Result ℕ)
        → Outcome I
            (ChannelSlot A)
            ℕ
            (slots_of A I register deregister takes s)
            request
            (make_entry A I register deregister takes s.channels_are_registered
              s.io.inner.next_sender)
            r
            slots
        → (reply A I register deregister takes (r, slots) s).0 ≡ ok tt
        → Answered s ((reply A I register deregister takes (r, slots) s).1)
    unfolding make_entry
    of_outcome request r (placed k t u made e free chosen placed_ max_) h =
        let same = entry_is (register k) _ _ _ made in
        subst (λ r. Answered s ((reply A I register deregister takes (r, slots) s).1))
          (ap ok (ap (λ (p : ChannelSlot A × ℕ). p.1) same) ∙ sym e)
          (given_or_undone k free (
            placed_
            ∙ ap
                (λ t.
                  HashMap.insert ℕ_discrete (slots_of A I register deregister takes s).slots k t)
                (sym (ap (λ (p : ChannelSlot A × ℕ). p.0) same))))
    of_outcome request r (failed k e made e' free chosen same max_) h =
        subst (λ r. Answered s ((reply A I register deregister takes (r, slots) s).1)) (sym e')
          (told_or_undone e same)
    of_outcome request r (refused k asked why e same) h =
        subst (λ r. Answered s ((reply A I register deregister takes (r, slots) s).1)) (sym e)
          (told_or_undone _ (ap (λ (c : ChannelSlots I (ChannelSlot A)). c.slots) same))
    of_outcome request r (none_left asked full none_freed e same freed_ past at max_) h =
        subst (λ r. Answered s ((reply A I register deregister takes (r, slots) s).1)) (sym e)
          (told_or_undone _ same)
    of_outcome request r (taken_again k l asked full freed_ used e) h = not_panicked r e h

  -- A request for a channel, unless it panics, either gives the client a vacant id, whose slot is
  -- then the new one for that id, or tells it the error; no other slot changes. Where the client
  -- is gone and does not take its reply, an allocation is undone: every slot is as it was. The
  -- largest id is below 65535, and the poll returns.
  pub allocate_one-Answered :
      (request : Option ℕ) (s : Allocator A I)
      → (slots_of A I register deregister takes s).channel_max + 1 < u16_mod
      → ((id : ℕ) → Returns (register id))
      → ((id : ℕ) → Returns (deregister id))
      → (allocate_one A I register deregister takes request s).0 ≡ ok tt
      → Answered s ((allocate_one A I register deregister takes request s).1)
  unfolding allocate_one inserted make_entry
  allocate_one-Answered request s small registers deregisters returned =
      of_outcome s (inserted A I register deregister takes request s).1 request
        (inserted A I register deregister takes request s).0
        (insert-Outcome I (ChannelSlot A) ℕ
          (make_entry A I register deregister takes s.channels_are_registered
            s.io.inner.next_sender)
          (λ k.
            entry-Returns (register k) _ _ (registers k)
              (maybe-Returns s.channels_are_registered (deregister k) (deregisters k)))
          u16_mod (slots_of A I register deregister takes s) request small (omega arith))
        returned
