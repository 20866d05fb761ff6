-- ===== src/Connection/Allocated.antt =====
-- Opening a channel: the client, and the I/O thread that gives the id.
use amiquip.Prelude.{
  ℕ, ◌≡◌, refl, ap, true, false, Bool, List, [], ◌∷◌, ◌++◌, ◌∙◌, Option, none, some, ltb, leb, not,
  ◌&&◌, Bool-cases, inl, inr, arith, if◌then◌else◌,
}
use amiquip.Exec.{then_call}
use amiquip.IndexSet.{IndexSet}
use amiquip.ChannelSlots
use amiquip.ChannelSlots.{ChannelSlots, is_some}
use amiquip.Channel.{Channel}
use amiquip.IoLoop.{new_slot}
use amiquip.IoLoop.Allocating.{Allocator, make_entry, reply, inserted, allocate_one}
use amiquip.Errors.{
  Result, ok, err, event_loop_dropped, unavailable_channel_id, panicked, out_of_fuel,
}
use amiquip.Protocol.{Amqp, AmqpClass, ChannelMethod}
use amiquip.Serialize.{Codec}
use amiquip.Serialize.Append.{push_method-append}
use amiquip.Serialize.Conversions.{Value, channel_open_ok, try_from}
use amiquip.Inner.{ChannelMessage, ChannelSlot}
use amiquip.ChannelHandle
use amiquip.ChannelHandle.{
  IoLoopMessage, IoLoopHandle, Peer, make_buf, call_message, send_message, recv, received_or,
  method_reply, drained,
}
use amiquip.Channel.Calls.{waiting, behind}
use amiquip.Connection.{
  Channel0Handle, open_channel, open_class, opened, allocate_channel, handle_of, Allocating,
}

module _ (A : Amqp) (C : Codec A) (peer : Peer A) where
  abbrev pub fresh : ℕ → IoLoopHandle
  fresh n = record { channel_id = n; buf = []; sent = []; received = 0 }

  opens :
      (n frame_max : ℕ) (v : A.Payload)
      → peer.takes [] ≡ true
      → peer.reply (behind A C peer n [] 0 frame_max false (open_class A C peer)) 0
        ≡ some (ok (ChannelMessage.method (AmqpClass.channel (ChannelMethod.open_ok v))))
      → opened A C peer frame_max
          (ChannelHandle.call A C peer channel_open_ok (open_class A C peer) (fresh n))
        ≡ ok (
            waiting A C peer n
              (behind A C peer n [] 0 frame_max false (open_class A C peer))
              1
              frame_max
              false)
  unfolding opened ChannelHandle.call make_buf call_message send_message recv received_or
      method_reply try_from Value
  opens n frame_max v taken reply =
      rw (push_method-append A C [] n (open_class A C peer), taken, reply) refl

module _ (A : Amqp) (C : Codec A) (I : IndexSet) (peer : Peer A)
    (register deregister : ℕ → Result (Unit {0})) (s : Allocator A I) where
  abbrev client_there : List (Result ℕ) → Bool
  client_there replies = true

  -- The handle for the id of a reply.
  abbrev with_handle : Result ℕ → Result IoLoopHandle
  with_handle (ok id) = ok (fresh A C peer id)
  with_handle (err e) = err e
  with_handle panicked = panicked
  with_handle out_of_fuel = out_of_fuel

  unfoldable pub last_reply : List (Result ℕ) → Option (Result IoLoopHandle)
  last_reply [] = none
  last_reply (r ∷ []) = some (with_handle r)
  last_reply (r ∷ r' ∷ replies) = last_reply (r' ∷ replies)

  -- A thread that panics ends without a reply.
  unfoldable pub replied : Result (Unit {0}) × Allocator A I → Option (Result IoLoopHandle)
  unfolding last_reply
  replied (ok _, after) = last_reply after.replies
  replied (err e, after) = none
  replied (panicked, after) = none
  replied (out_of_fuel, after) = some out_of_fuel

  -- The I/O thread answers a request as `allocate_one` does in the state `s`.
  unfoldable pub io_thread : Allocating A C peer
  unfolding replied
  io_thread request = some (replied (allocate_one A I register deregister client_there request s))

  -- What opening a channel should come to, by what the slots make of the request.
  unfoldable pub opened_for : ℕ → Result ℕ → Result Channel
  opened_for frame_max (ok id) = ok (
      waiting A C peer id (behind A C peer id [] 0 frame_max false (open_class A C peer)) 1
        frame_max false)
  opened_for frame_max (err e) = err e
  opened_for frame_max panicked = err event_loop_dropped
  opened_for frame_max out_of_fuel = out_of_fuel

  abbrev pub slots : ChannelSlots I (ChannelSlot A)
  slots = s.io.inner.chan_slots

  abbrev pub is_free : ℕ → Bool
  is_free k = leb k slots.channel_max && not (is_some (ChannelSlots.get I (ChannelSlot A) slots k))

  last_reply-append :
      (replies : List (Result ℕ)) (r : Result ℕ)
      → last_reply (replies ++ r ∷ []) ≡ some (with_handle r)
  unfolding last_reply
  last_reply-append [] r = refl
  last_reply-append (r' ∷ []) r = refl
  last_reply-append (r' ∷ r'' ∷ replies) r = last_reply-append (r'' ∷ replies) r

  opens_for :
      (v : A.Payload) (r : Result ℕ) (after : ChannelSlots I (ChannelSlot A))
      (self : Channel0Handle)
      → peer.takes [] ≡ true
      → ((n : ℕ)
          → peer.reply (behind A C peer n [] 0 self.frame_max false (open_class A C peer)) 0
            ≡ some (ok (ChannelMessage.method (AmqpClass.channel (ChannelMethod.open_ok v)))))
      → then_call
          (handle_of A C peer
            (some (replied (reply A I register deregister client_there (r, after) s)))
            self)
          (λ handle self'. (
            opened A C peer self'.frame_max
                (ChannelHandle.call A C peer channel_open_ok (open_class A C peer) handle),
            self',
          ))
        ≡ (opened_for self.frame_max r, self)
  unfolding replied reply opened_for
  opens_for v (ok id) after self taken confirmed =
      rw
        (
          last_reply-append s.replies (ok id),
          opens A C peer id self.frame_max v taken (confirmed id),
        )
        refl
  opens_for v (err e) after self taken confirmed = rw (last_reply-append s.replies (err e)) refl
  opens_for v panicked after self taken confirmed = refl
  opens_for v out_of_fuel after self taken confirmed = refl

  entry_made :
      (registered : Bool) (tx k : ℕ)
      → register k ≡ ok tt
      → deregister k ≡ ok tt
      → make_entry A I register deregister client_there registered tx k ≡ ok (new_slot A I tx k, k)
  unfolding make_entry
  entry_made true tx k on off = rw on refl
  entry_made false tx k on off = rw (on, off) refl

  inserted_asked :
      (k : ℕ)
      → register k ≡ ok tt
      → deregister k ≡ ok tt
      → (inserted A I register deregister client_there (some k) s).0
        ≡ (if is_free k then ok k else err (unavailable_channel_id k))
  unfolding inserted ChannelSlots.insert
  inserted_asked k on off = elim (Bool-cases (ltb slots.channel_max k)) [
    | inl over ↦ let e : leb k slots.channel_max ≡ false = ground arith in rw (over, e) refl
    | inr in_range ↦
        let e : leb k slots.channel_max ≡ true = ground arith in
        elim (Bool-cases (is_some (ChannelSlots.get I (ChannelSlot A) slots k))) [
          | inl used ↦ rw (in_range, e, used) refl
          | inr free ↦
              rw
                (
                  in_range,
                  e,
                  free,
                  ChannelSlots.fill,
                  entry_made s.channels_are_registered s.io.inner.next_sender k on off,
                )
                refl
        ]
  ]

  -- Opening a channel asks the I/O thread for the id that the caller wants, if any. Where the
  -- slots give an id, the channel is open under it, behind exactly one open method over the new
  -- handle, and has the frame size of the connection; where they refuse, their error is returned,
  -- and where the thread panics, `event_loop_dropped`. For an id that the caller asks for it is
  -- this id, if that is vacant and at most the largest, and else `unavailable_channel_id`. The
  -- handle of channel 0 stays as it was. The client takes its reply, the server confirms the open
  -- method, and the poll takes the requests for the id asked for.
  pub open_channel-allocate_one :
      (request : Option ℕ) (k : ℕ) (v : A.Payload) (self : Channel0Handle)
      → peer.takes [] ≡ true
      → ((n : ℕ)
          → peer.reply (behind A C peer n [] 0 self.frame_max false (open_class A C peer)) 0
            ≡ some (ok (ChannelMessage.method (AmqpClass.channel (ChannelMethod.open_ok v)))))
      → register k ≡ ok tt
      → deregister k ≡ ok tt
      → (open_channel A C peer io_thread request self ≡ (
        opened_for self.frame_max ((inserted A I register deregister client_there request s).0),
        self,
      ))
        × (open_channel A C peer io_thread (some k) self ≡ (
          opened_for self.frame_max (if is_free k then ok k else err (unavailable_channel_id k)),
          self,
        ))
  unfolding open_channel allocate_channel io_thread allocate_one
  open_channel-allocate_one request k v self taken confirmed on off = (
    opens_for v ((inserted A I register deregister client_there request s).0)
        ((inserted A I register deregister client_there request s).1) self taken confirmed,
    opens_for v ((inserted A I register deregister client_there (some k) s).0)
          ((inserted A I register deregister client_there (some k) s).1) self taken confirmed
        ∙ ap (λ r. (opened_for self.frame_max r, self)) (inserted_asked k on off),
  )
