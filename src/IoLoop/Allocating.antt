-- ===== src/IoLoop/Allocating.antt =====
-- New channels, on request of the clients.
pub mod Answered
use amiquip.Prelude.{
  ℕ, suc, ◌+◌, ◌≡◌, ◌≢◌, ◌<◌, refl, ap, sym, ◌∙◌, Bool, true, false, List, [], ◌∷◌, ◌++◌, Option,
  none, some, if◌then◌else◌, ite, if_pos, if_neg, inl, inr, Option-cases, Bool-cases, ℕ_discrete,
  arith,
}
use mathlib.Core.Path.{subst}
use amiquip.HashMap
use amiquip.Errors.{Result, Error, ok, err, panicked, out_of_fuel, ◌>>◌}
use amiquip.Exec.{Exec, then_call}
use amiquip.IndexSet.{IndexSet}
use amiquip.Protocol.{Amqp}
use amiquip.ChannelSlots
use amiquip.ChannelSlots.{ChannelSlots, u16_mod}
use amiquip.ChannelSlots.Allocation.{
  Outcome, placed, failed, refused, none_left, taken_again, insert-Outcome, Returns,
}
use amiquip.Inner.{ChannelSlot, Io, with_inner}
use amiquip.IoLoop.{new_slot, slot_of, no_more}

module _ (A : Amqp) (I : IndexSet) where
  -- The state, the replies that the clients took, last reply last, each with the id that its
  -- handle has, and whether the channels are registered.
  pub record Allocator : Type 0 where
    pub io : Io A I
    pub replies : List (Result ℕ)
    pub channels_are_registered : Bool

  -- What the poll answers for the receiver of a channel, and whether a client takes its reply.
  module _ (register deregister : ℕ → Result (Unit {0})) (takes : List (Result ℕ) → Bool) where
    -- The receiver is registered, and deregistered again while the channels are not listened to.
    unfoldable pub make_entry : Bool → ℕ → ℕ → Result (ChannelSlot A × ℕ)
    make_entry registered tx id =
        register id
        >> ((if registered then ok tt else deregister id) >> ok (new_slot A I tx id, id))

    abbrev pub with_slots : Allocator → ChannelSlots I (ChannelSlot A) → Allocator
    with_slots s slots = record s {
      io =
          with_inner A I s.io
            (record s.io.inner { chan_slots = slots; next_sender = suc s.io.inner.next_sender });
    }

    -- The reply, or what undoes the allocation where the client is gone.
    unfoldable pub reply : Result ℕ × ChannelSlots I (ChannelSlot A) → Exec Allocator (Unit {0})
    reply (ok id, slots) s =
        if takes s.replies
        then (ok tt, record (with_slots s slots) { replies = s.replies ++ ok id ∷ [] })
        else (ok tt, with_slots s (ChannelSlots.remove I (ChannelSlot A) slots id).1)
    reply (err e, slots) s =
        if takes s.replies
        then (ok tt, record (with_slots s slots) { replies = s.replies ++ err e ∷ [] })
        else (ok tt, with_slots s slots)
    reply (panicked, slots) s = (panicked, with_slots s slots)
    reply (out_of_fuel, slots) s = (out_of_fuel, with_slots s slots)

    unfoldable pub inserted : Option ℕ → Allocator → Result ℕ × ChannelSlots I (ChannelSlot A)
    unfolding make_entry
    inserted request s =
        ChannelSlots.insert I (ChannelSlot A) u16_mod s.io.inner.chan_slots request
          (make_entry s.channels_are_registered s.io.inner.next_sender)

    unfoldable pub allocate_one : Option ℕ → Exec Allocator (Unit {0})
    unfolding inserted reply
    allocate_one request s = reply (inserted request s) s

    -- The requests that wait, and whether the client is gone behind them.
    unfoldable pub allocate_channel : List (Option ℕ) → Bool → Exec Allocator (Unit {0})
    unfolding allocate_one
    allocate_channel [] hung_up s =
        let (r, io) = no_more A I hung_up s.io in (r, record s { io = io })
    allocate_channel (request ∷ requests) hung_up s =
        then_call (allocate_one request s) (λ _. allocate_channel requests hung_up)

    abbrev pub slots_of : Allocator → ChannelSlots I (ChannelSlot A)
    slots_of s = s.io.inner.chan_slots
