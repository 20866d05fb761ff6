-- ===== src/ChannelSlots/Tests.antt =====
-- Runs of the channel slots, and the theorems at concrete slots.
use amiquip.Prelude.{ℕ, ◌≡◌, refl, [], ◌∷◌, none, some, arith, ite, ℕ_discrete}
use amiquip.HashMap
use amiquip.IndexSet.{list_set}
use amiquip.Errors.{Result, ok, err, panicked, unavailable_channel_id}
use amiquip.ChannelSlots.{ChannelSlots, new, set_channel_max, get, insert, remove, scan}
use amiquip.ChannelSlots.Allocation.{Outcome, insert-Outcome}
use amiquip.ChannelSlots.Sequential.{IsSequential, Allocates, insert_none-Allocates}
use amiquip.ChannelSlots.Release.{set_channel_max-new, remove-IsSequential}
use amiquip.ChannelSlots.Reuse.{insert_all, open_and_close, insert_none_panics}
use amiquip.ChannelSlots.Wrap.{wrap_allocates_zero}

-- `id` of the source's tests.
abbrev id : ℕ → Result (ℕ × ℕ)
id k = ok (k, k)

abbrev Slots : Type 0
Slots = ChannelSlots list_set ℕ

abbrev start : Slots
start = (set_channel_max-new list_set ℕ 4).0

start-IsSequential : IsSequential list_set ℕ start
start-IsSequential = (set_channel_max-new list_set ℕ 4).3

start-max : start.channel_max ≡ 4
start-max = (set_channel_max-new list_set ℕ 4).2

abbrev add : Slots → Slots
add s = (insert list_set ℕ 9 s none id).1

program : Unit {0}
unfolding new set_channel_max get insert remove scan insert_all open_and_close list_set ℕ_discrete
    HashMap.empty HashMap.get HashMap.insert HashMap.remove HashMap.is_empty
program = tt

abbrev two_taken : Slots
two_taken = record {
  slots = record { entries = (2, 2) ∷ (1, 1) ∷ [] };
  freed_channel_ids = unfold list_set in [];
  next_channel_id = 1;
  channel_max = 4;
}

insert_finds_never_used_ids : (insert list_set ℕ 9 two_taken none id).0 ≡ ok 3
unfolding program
insert_finds_never_used_ids = refl

insert_channel_above_max_fails :
    (insert list_set ℕ 9 two_taken (some 5) id).0 ≡ err (unavailable_channel_id 5)
unfolding program
insert_channel_above_max_fails = refl

insert-Outcome_example :
    Outcome list_set ℕ ℕ two_taken
      (some 2)
      id
      (insert list_set ℕ 9 two_taken (some 2) id).0
      (insert list_set ℕ 9 two_taken (some 2) id).1
insert-Outcome_example =
    insert-Outcome list_set ℕ ℕ id (λ k. tt) 9 two_taken (some 2) (omega arith) (omega arith)

insert_none-Allocates_example :
    IsSequential list_set ℕ (insert list_set ℕ 9 start none id).1
    × Allocates list_set ℕ ℕ start id
        (insert list_set ℕ 9 start none id).0
        (insert list_set ℕ 9 start none id).1
unfolding program
insert_none-Allocates_example =
    insert_none-Allocates list_set ℕ ℕ id (λ k. (k, k, refl)) 9 start (omega (arith, start-max))
      (omega (arith, start-max)) start-IsSequential

remove-IsSequential_example :
    ((remove list_set ℕ (add start) 1).0 ≡ get list_set ℕ (add start) 1)
    × ((j : ℕ)
        → get list_set ℕ (remove list_set ℕ (add start) 1).1 j
          ≡ ite (ℕ_discrete 1 j) none (get list_set ℕ (add start) j))
    × IsSequential list_set ℕ (remove list_set ℕ (add start) 1).1
remove-IsSequential_example =
    remove-IsSequential list_set ℕ (add start) 1 insert_none-Allocates_example.0

insert_none_panics_example :
    (insert list_set ℕ 9
      (insert_all list_set ℕ ℕ id
        (λ k. (k, k, refl))
        2
        9
        (open_and_close list_set ℕ ℕ id (λ k. (k, k, refl)) 9 2 1))
      none
      id).0
    ≡ panicked
insert_none_panics_example =
    insert_none_panics list_set ℕ ℕ id (λ k. (k, k, refl)) 9 2 1 (omega arith) (omega arith)
      (omega arith) (omega arith)

abbrev almost_wrapped : Slots
almost_wrapped = record two_taken { next_channel_id = 65535; channel_max = 65535 }

wrap_allocates_zero_example :
    ((insert list_set ℕ 1 almost_wrapped none id).0 ≡ ok 65535)
    × ((insert list_set ℕ 1 (insert list_set ℕ 1 almost_wrapped none id).1 none id).0 ≡ ok 0)
    × (get list_set ℕ
          (insert list_set ℕ 1 (insert list_set ℕ 1 almost_wrapped none id).1 none id).1
          0
        ≡ some 0)
unfolding get HashMap.get ℕ_discrete
wrap_allocates_zero_example =
    wrap_allocates_zero list_set ℕ ℕ id 1 almost_wrapped 65535 0 65535 0 (omega arith) refl refl
      refl refl refl refl
