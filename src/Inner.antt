-- ===== src/Inner.antt =====
-- io_loop/mod.rs: the slots of the I/O thread and its `Inner`; the channels to the clients.
pub mod Output
use amiquip.Prelude.{
  ℕ, suc, String, Bool, true, false, List, [], ◌∷◌, ◌++◌, Option, none, some, ℕ_discrete,
  string_discrete,
}
use amiquip.HashMap
use amiquip.HashMap.{HashMap}
use amiquip.Errors.{
  Result, Error, ok, err, panicked, out_of_fuel, frame_unexpected, event_loop_client_dropped,
  received_frame_with_bogus_channel_id,
}
use amiquip.Exec.{Exec, pure, fail, ◌>>=◌, ◌>>◌}
use amiquip.IndexSet.{IndexSet}
use amiquip.Protocol.{Amqp, AmqpClass, AmqpFrame, Close}
use amiquip.Content.{Delivery, Return, Get}
use amiquip.Confirm.{Confirm}
use amiquip.ContentCollector.{ContentCollector}
use amiquip.ChannelSlots
use amiquip.ChannelSlots.{ChannelSlots}
use amiquip.Serialize.{SealableOutputBuffer, Codec, seal, sealable_push_method}

-- `try_send` of crossbeam-channel.
pub data SendOutcome : Type 0 where
  sent full disconnected : SendOutcome

pub data ConnectionBlockedNotification : Type 0 where
  blocked : String → ConnectionBlockedNotification
  unblocked : ConnectionBlockedNotification

module _ (A : Amqp) where
  pub data ChannelMessage : Type 0 where
    method : AmqpClass A → ChannelMessage
    consume_ok : String → ℕ → ChannelMessage
    get_ok : Option (Get A) → ChannelMessage

  pub data ConsumerMessage : Type 0 where
    delivery : Delivery A → ConsumerMessage
    client_cancelled server_cancelled : ConsumerMessage
    client_closed_channel : ConsumerMessage
    server_closed_channel : Error → ConsumerMessage
    client_closed_connection : ConsumerMessage
    server_closed_connection : Error → ConsumerMessage

  -- A sender is a name. What goes through it is an event in a log.
  pub data Event : Type 0 where
    to_client : ℕ → Result ChannelMessage → Event
    to_consumer : ℕ → ConsumerMessage → Event
    to_return : ℕ → Return A → Event
    to_confirm : ℕ → Confirm → Event
    to_blocked : ℕ → ConnectionBlockedNotification → Event

  abbrev pub receiver : Event → ℕ
  receiver (to_client n m) = n
  receiver (to_consumer n m) = n
  receiver (to_return n m) = n
  receiver (to_confirm n m) = n
  receiver (to_blocked n m) = n

  -- The slot without its receiving end, which the I/O loop polls.
  pub record ChannelSlot : Type 0 where
    pub tx : ℕ
    pub collector : ContentCollector A
    pub consumers : HashMap String ℕ
    pub return_handler : Option ℕ
    pub pub_confirm_handler : Option ℕ

  pub record Channel0Slot : Type 0 where
    pub common : ChannelSlot
    pub blocked_tx : Option ℕ

  pub data ConnectionState : Type 0 where
    steady : Channel0Slot → ConnectionState
    server_closing : Close → ConnectionState
    client_exception client_closed : ConnectionState

  -- What the model takes from outside: whether a send finds room or a receiver, by all that was
  -- sent before, and whether a send that waits is taken; the reply codes of `AMQPHardError`; the texts of `format!` with `Debug`.
  pub record Env : Type 0 where
    pub try_send : List Event → ℕ → SendOutcome
    pub takes : List Event → ℕ → Bool
    pub not_implemented : ℕ
    pub not_allowed : ℕ
    pub unhandled : ℕ → AmqpClass A → String
    pub illegal : ℕ → AmqpClass A → String
    pub illegal_frame : AmqpFrame A → String

module _ (A : Amqp) (I : IndexSet) where
  pub record Inner : Type 0 where
    pub outbuf : SealableOutputBuffer
    pub chan_slots : ChannelSlots I (ChannelSlot A)
    -- the log, last event last, and the name of the next sender that is made
    pub log : List (Event A)
    pub next_sender : ℕ

  pub record Io : Type 0 where
    pub state : ConnectionState A
    pub inner : Inner

  abbrev pub Call : Type 0 → Type 0
  Call B = Exec Io B

  abbrev pub with_inner : Io → Inner → Io
  with_inner io inner = record io { inner = inner }

  unfoldable pub set_state : ConnectionState A → Call (Unit {0})
  set_state state io = (ok tt, record io { state = state })

  unfoldable pub seal_writes : Call (Unit {0})
  seal_writes io = (ok tt, with_inner io (record io.inner { outbuf = seal io.inner.outbuf }))

  -- `crossbeam_channel::unbounded()`
  unfoldable pub make_sender : Call ℕ
  make_sender io = (
    ok io.inner.next_sender,
    with_inner io (record io.inner { next_sender = suc io.inner.next_sender }),
  )

  unfoldable pub slot_or_bogus : ℕ → Option (ChannelSlot A) → Call (ChannelSlot A)
  slot_or_bogus n none io = (err (received_frame_with_bogus_channel_id n), io)
  slot_or_bogus n (some slot) io = (ok slot, io)

  -- `slot_get`, and `slot_get_mut` with `slot_put` for the writes.
  unfoldable pub slot_get : ℕ → Call (ChannelSlot A)
  unfolding slot_or_bogus
  slot_get n io = slot_or_bogus n (ChannelSlots.get I (ChannelSlot A) io.inner.chan_slots n) io

  unfoldable pub slot_put : ℕ → ChannelSlot A → Call (Unit {0})
  slot_put n slot io = (
    ok tt,
    with_inner io (record io.inner {
      chan_slots = ChannelSlots.put I (ChannelSlot A) io.inner.chan_slots n slot;
    }),
  )

  unfoldable pub slot_remove : ℕ → Call (ChannelSlot A)
  unfolding slot_or_bogus
  slot_remove n io =
      let (found, slots) = ChannelSlots.remove I (ChannelSlot A) io.inner.chan_slots n in
      slot_or_bogus n found (with_inner io (record io.inner { chan_slots = slots }))

  unfoldable pub slots_drain : Call (List (ℕ × ChannelSlot A))
  slots_drain io =
      let (slots, left) = ChannelSlots.drain I (ChannelSlot A) io.inner.chan_slots in
      (ok slots, with_inner io (record io.inner { chan_slots = left }))

  abbrev pub record_event : Event A → Io → Io
  record_event e io = with_inner io (record io.inner { log = io.inner.log ++ e ∷ [] })

  module _ (C : Codec A) where
    unfoldable pub pushed_or : Io → Result SealableOutputBuffer → Result (Unit {0}) × Io
    pushed_or io (ok buf) = (ok tt, with_inner io (record io.inner { outbuf = buf }))
    pushed_or io (err e) = (err e, io)
    pushed_or io panicked = (panicked, io)
    pushed_or io out_of_fuel = (out_of_fuel, io)

    unfoldable pub push_method : ℕ → AmqpClass A → Call (Unit {0})
    unfolding pushed_or
    push_method n class io = pushed_or io (sealable_push_method A C io.inner.outbuf n class)

  module _ (env : Env A) where
    unfoldable pub record_sent : Event A → SendOutcome → Call SendOutcome
    record_sent e sent io = (ok sent, record_event e io)
    record_sent e full io = (ok full, io)
    record_sent e disconnected io = (ok disconnected, io)

    -- `tx.try_send(item)`, where the event goes to the log if it is sent.
    unfoldable pub try_send : Event A → Call SendOutcome
    unfolding record_sent
    try_send e io = record_sent e (env.try_send io.inner.log (receiver A e)) io

    unfoldable pub sent_or_error : SendOutcome → Call (Unit {0})
    sent_or_error sent = pure tt
    sent_or_error full = fail frame_unexpected
    sent_or_error disconnected = fail event_loop_client_dropped

    -- `send(&tx, item)` of connection_state.rs.
    unfoldable pub send : Event A → Call (Unit {0})
    unfolding try_send sent_or_error
    send e = do outcome ← try_send e; sent_or_error outcome

    unfoldable pub record_taken : Event A → Bool → Call (Unit {0})
    record_taken e true io = (ok tt, record_event e io)
    record_taken e false io = (err event_loop_client_dropped, io)

    -- `tx.send(item)`, which waits for room and fails without a receiver.
    unfoldable pub blocking_send : Event A → Call (Unit {0})
    unfolding record_taken
    blocking_send e io = record_taken e (env.takes io.inner.log (receiver A e)) io
