-- ===== src/ConnectionState/Sending.antt =====
-- `process` of io_loop/connection_state.rs: what it sends, to clients and to the server, and channel 0.
use amiquip.Prelude.{ℕ, String, List, [], ◌∷◌, Option, none, some}
use amiquip.Errors.{Result, ok, err, server_closed_connection, client_closed_connection}
use amiquip.Exec.{pure, ◌>>=◌, ◌>>◌}
use amiquip.IndexSet.{IndexSet}
use amiquip.Protocol.{Amqp, AmqpClass, ConnectionMethod}
use amiquip.Content.{Return}
use amiquip.Confirm.{Confirm}
use amiquip.Serialize.{Codec}
use amiquip.Inner.{
  sent, full, disconnected, ConnectionBlockedNotification, ChannelMessage, ConsumerMessage, Event,
  ChannelSlot, Channel0Slot, ConnectionState, Env, Call, set_state, seal_writes, slot_get, slot_put,
  slots_drain, push_method, try_send, send, blocking_send,
}

module _ (A : Amqp) (I : IndexSet) (C : Codec A) (env : Env A) where
  abbrev pub Step : Type 0
  Step = Call A I (Unit {0})

  abbrev pub give : {B : Type 0} → Result B → Call A I B
  give r io = (r, io)

  -- `if let Some(tx) = …` with `try_send`: a failed send gives up the handler.
  unfoldable pub try_handler : (ℕ → Event A) → Option ℕ → Step → Step
  try_handler event none give_up = pure tt
  try_handler event (some tx) give_up = do
    outcome ← try_send A I env (event tx)
    elim outcome [ sent ↦ pure tt | full ↦ give_up | disconnected ↦ give_up ]

  unfoldable pub try_send_return : ℕ → ChannelSlot A → Return A → Step
  unfolding try_handler
  try_send_return n slot ret =
      try_handler (λ tx. Event.to_return tx ret) slot.return_handler
        (slot_put A I n (record slot { return_handler = none }))

  unfoldable pub try_send_confirm : ℕ → ChannelSlot A → Confirm → Step
  unfolding try_handler
  try_send_confirm n slot confirm =
      try_handler (λ tx. Event.to_confirm tx confirm) slot.pub_confirm_handler
        (slot_put A I n (record slot { pub_confirm_handler = none }))

  unfoldable pub try_send_blocked : Channel0Slot A → ConnectionBlockedNotification → Step
  unfolding try_handler
  try_send_blocked ch0 note =
      try_handler (λ tx. Event.to_blocked tx note) ch0.blocked_tx
        (set_state A I (ConnectionState.steady (record ch0 { blocked_tx = none })))

  -- A close frame of ours is the last thing that is written.
  unfoldable pub leave_steady : ConnectionMethod A → ConnectionState A → Step
  leave_steady last state = do
    push_method A I C 0 (AmqpClass.connection last)
    seal_writes A I
    set_state A I state

  unfoldable pub client_exception : ℕ → String → Step
  unfolding leave_steady
  client_exception reply_code reply_text =
      leave_steady
        (ConnectionMethod.close (record {
          reply_code = reply_code;
          reply_text = reply_text;
          class_id = 0;
          method_id = 0;
        }))
        ConnectionState.client_exception

  unfoldable pub send_consumers : ConsumerMessage A → List (String × ℕ) → Step
  send_consumers message [] = pure tt
  send_consumers message ((tag, tx) ∷ consumers) = do
    send A I env (Event.to_consumer tx message)
    send_consumers message consumers

  -- The client of the channel first, then its consumers.
  unfoldable pub send_slot : Result (ChannelMessage A) → ConsumerMessage A → ChannelSlot A → Step
  unfolding send_consumers
  send_slot reply message slot = do
    send A I env (Event.to_client slot.tx reply)
    send_consumers message slot.consumers.entries

  unfoldable pub send_slots :
      Result (ChannelMessage A) → ConsumerMessage A → List (ℕ × ChannelSlot A) → Step
  unfolding send_slot
  send_slots reply message [] = pure tt
  send_slots reply message ((n, slot) ∷ slots) = do
    send_slot reply message slot
    send_slots reply message slots

  unfoldable pub send_drained : Result (ChannelMessage A) → ConsumerMessage A → Step
  unfolding send_slots
  send_drained reply message = do slots ← slots_drain A I; send_slots reply message slots

  unfoldable pub channel0_method : Channel0Slot A → ConnectionMethod A → AmqpClass A → Step
  unfolding leave_steady client_exception send_drained try_send_blocked
  channel0_method ch0 (ConnectionMethod.close close) class = do
    leave_steady ConnectionMethod.close_ok (ConnectionState.server_closing close)
    send_drained (err (server_closed_connection close.reply_code close.reply_text)) (
        ConsumerMessage.server_closed_connection
          (server_closed_connection close.reply_code close.reply_text))
  channel0_method ch0 ConnectionMethod.close_ok class = do
    blocking_send A I env (
        Event.to_client ch0.common.tx
          (ok (ChannelMessage.method (AmqpClass.connection ConnectionMethod.close_ok))))
    set_state A I ConnectionState.client_closed
    send_drained (err client_closed_connection) ConsumerMessage.client_closed_connection
  channel0_method ch0 (ConnectionMethod.blocked reason) class =
      try_send_blocked ch0 (ConnectionBlockedNotification.blocked reason)
  channel0_method ch0 ConnectionMethod.unblocked class =
      try_send_blocked ch0 ConnectionBlockedNotification.unblocked
  channel0_method ch0 _ class = client_exception env.not_implemented (env.unhandled 0 class)

  unfoldable pub unhandled : ℕ → AmqpClass A → Step
  unfolding client_exception
  unhandled n class = client_exception env.not_implemented (env.unhandled n class)

  unfoldable pub illegal : ℕ → AmqpClass A → Step
  unfolding client_exception
  illegal n class = client_exception env.not_allowed (env.illegal n class)

  -- Generic ack messages go back to the caller.
  unfoldable pub forward : ℕ → AmqpClass A → Step
  forward n class = do
    slot ← slot_get A I n
    send A I env (Event.to_client slot.tx (ok (ChannelMessage.method class)))
