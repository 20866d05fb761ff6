-- ===== src/Confirm.antt =====
-- confirm.rs: the publisher confirmations and `ConfirmSmoother`.
pub mod Spec
pub mod Smoothing
pub mod History
pub mod Dropping
pub mod Stale
mod Tests
use amiquip.Prelude.{
  ℕ, zero, suc, ◌+◌, ◌%◌, ◌^◌, Bool, true, false, List, [], ◌∷◌, Option, none, some, ltb, ◌==◌,
  if◌then◌else◌, ℕ_discrete,
}
use amiquip.HashMap
use amiquip.HashMap.{HashMap}
use amiquip.Errors.{Result, ok, out_of_fuel, ◌>>=◌}

pub record ConfirmPayload : Type 0 where
  pub delivery_tag : ℕ
  pub multiple : Bool

pub data Confirm : Type 0 where
  ack nack : ConfirmPayload → Confirm

pub record ConfirmSmoother : Type 0 where
  pub expected : ℕ
  pub out_of_order : HashMap ℕ Confirm

abbrev pub u64_mod : ℕ
u64_mod = 2 ^ 64

-- `tag += 1` on u64, as a release build computes it.
abbrev pub next_tag : ℕ → ℕ
next_tag tag = (tag + 1) % u64_mod

unfoldable pub with_expected_delivery_tag : ℕ → ConfirmSmoother
with_expected_delivery_tag expected = record { expected = expected; out_of_order = HashMap.empty }

unfoldable pub new : ConfirmSmoother
unfolding with_expected_delivery_tag
new = with_expected_delivery_tag 1

-- The iterator's borrow of its parent is a copy that `collect` and `finish` hand back.
pub record Iter : Type 0 where
  pub parent : ConfirmSmoother
  pub payload : ConfirmPayload
  pub next_confirm : Option Confirm
  pub to_confirm : ℕ → Confirm
  pub done : Bool

unfoldable pub new_iter : ConfirmSmoother → ConfirmPayload → (ConfirmPayload → Confirm) → Iter
new_iter s payload to_confirm = record {
  parent = s;
  payload = payload;
  next_confirm = none;
  to_confirm = λ tag. to_confirm (record { delivery_tag = tag; multiple = false });
  done = false;
}

unfoldable pub process : ConfirmSmoother → Confirm → Iter
unfolding new_iter
process s (ack inner) = new_iter s inner ack
process s (nack inner) = new_iter s inner nack

-- `self.parent.expected += 1; self.next = self.parent.out_of_order.remove(&self.parent.expected)`
advance : Iter → Iter
advance it = record it {
  parent = record {
    expected = e;
    out_of_order = HashMap.remove ℕ_discrete it.parent.out_of_order e;
  };
  next_confirm = HashMap.get ℕ_discrete it.parent.out_of_order e;
}
  where
    e : ℕ
    e = next_tag it.parent.expected

-- The three branches of `next` behind its guard: the tag is expected, in the future, or past.
exact : Iter → Option Confirm × Iter
unfolding advance
exact it = (some (it.to_confirm it.payload.delivery_tag), advance it)

future : Iter → Option Confirm × Iter
future it =
    if it.payload.multiple
    then (
      some (it.to_confirm it.parent.expected),
      record it { parent = record it.parent { expected = next_tag it.parent.expected } },
    )
    else (
      none,
      record it {
        parent = record it.parent {
          out_of_order =
              HashMap.insert ℕ_discrete it.parent.out_of_order it.payload.delivery_tag
                (it.to_confirm it.payload.delivery_tag);
        };
        done = true;
      },
    )

past : Option Confirm → Iter → Option Confirm × Iter
unfolding advance
past (some c) it = (some c, advance it)
past none it = (none, record it { done = true })

unfoldable pub next : Iter → Option Confirm × Iter
unfolding exact future past
next it =
    if it.done
    then (none, it)
    else if it.payload.delivery_tag == it.parent.expected
    then exact it
    else if ltb it.parent.expected it.payload.delivery_tag
    then future it
    else past it.next_confirm it

-- `for confirm in it`: the items, and the iterator as the loop leaves it.
unfoldable pub collect : ℕ → Iter → Result (List Confirm × Iter)
collect zero it = out_of_fuel
collect (suc fuel) it =
    let (item, it') = next it in
    let rest = collect fuel it' in
    elim item [ none ↦ ok ([], it') | some c ↦ do (cs, last) ← rest; ok (c ∷ cs, last) ]

-- `Drop`: `while !self.done { let _ = self.next(); }`
unfoldable pub finish : ℕ → Iter → Result Iter
finish zero it = out_of_fuel
finish (suc fuel) it = let rest = finish fuel (next it).1 in if it.done then ok it else rest
