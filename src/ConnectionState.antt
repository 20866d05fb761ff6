-- ===== src/ConnectionState.antt =====
-- io_loop/connection_state.rs: what the I/O thread does with a frame from the server.
mod Sending
mod Methods
unfoldable pub use Sending.*
unfoldable pub use Methods.*
pub mod Respects
pub mod Isolation
pub mod Advances
pub mod Closing
mod Tests
use amiquip.Prelude.{
  ℕ, zero, suc, String, Bool, true, false, List, [], ◌∷◌, Option, none, some, string_discrete,
  if◌then◌else◌,
}
use amiquip.HashMap
use amiquip.Errors.{
  Result, Error, ok, err, panicked, out_of_fuel, frame_unexpected, event_loop_client_dropped,
  server_closed_connection, server_closed_channel, client_closed_connection, duplicate_consumer_tag,
  unknown_consumer_tag,
}
use amiquip.Exec.{Exec, pure, fail, ◌>>=◌, ◌>>◌}
use amiquip.IndexSet.{IndexSet}
use amiquip.Protocol.{
  Amqp, AmqpClass, AmqpFrame, Close, Cancel, ConnectionMethod, ChannelMethod, BasicMethod,
  ExchangeMethod, QueueMethod, ConfirmMethod, ContentHeader,
}
use amiquip.Content.{Return, Delivery}
use amiquip.Confirm.{Confirm, ack, nack}
use amiquip.ContentCollector.{
  ContentCollector, CollectorResult, collect_deliver, collect_return, collect_get, collect_header,
  collect_body,
}
use amiquip.Serialize.{Codec}
use amiquip.Inner.{
  SendOutcome, sent, full, disconnected, ConnectionBlockedNotification, ChannelMessage,
  ConsumerMessage, Event, ChannelSlot, Channel0Slot, ConnectionState, Env, Inner, Io, Call,
  set_state, seal_writes, make_sender, slot_get, slot_put, slot_remove, slots_drain, push_method,
  try_send, send, blocking_send,
}

module _ (A : Amqp) (I : IndexSet) (C : Codec A) (env : Env A) where
  unfoldable pub exchange_answers : ExchangeMethod A → Bool
  exchange_answers (ExchangeMethod.declare_ok p) = true
  exchange_answers (ExchangeMethod.delete_ok p) = true
  exchange_answers (ExchangeMethod.bind_ok p) = true
  exchange_answers (ExchangeMethod.unbind_ok p) = true
  exchange_answers _ = false

  unfoldable pub queue_answers : QueueMethod A → Bool
  queue_answers (QueueMethod.declare_ok p) = true
  queue_answers (QueueMethod.delete_ok p) = true
  queue_answers (QueueMethod.bind_ok p) = true
  queue_answers (QueueMethod.purge_ok p) = true
  queue_answers (QueueMethod.unbind_ok p) = true
  queue_answers _ = false

  abbrev pub answer : Bool → ℕ → AmqpClass A → Step A I C env
  answer answers n class = if answers then forward A I C env n class else illegal A I C env n class

  unfoldable pub method_frame : ℕ → AmqpClass A → Step A I C env
  unfolding channel_method basic_method exchange_answers queue_answers forward illegal unhandled
  method_frame n (AmqpClass.channel m) = channel_method A I C env n m
  method_frame n (AmqpClass.basic m) = basic_method A I C env n m
  method_frame n (AmqpClass.connection m) = illegal A I C env n (AmqpClass.connection m)
  method_frame n (AmqpClass.access p) = unhandled A I C env n (AmqpClass.access p)
  method_frame n (AmqpClass.tx p) = unhandled A I C env n (AmqpClass.tx p)
  method_frame n (AmqpClass.exchange m) = answer (exchange_answers m) n (AmqpClass.exchange m)
  method_frame n (AmqpClass.queue m) = answer (queue_answers m) n (AmqpClass.queue m)
  method_frame n (AmqpClass.confirm (ConfirmMethod.select_ok p)) =
      forward A I C env n (AmqpClass.confirm (ConfirmMethod.select_ok p))
  method_frame n (AmqpClass.confirm (ConfirmMethod.select p)) =
      illegal A I C env n (AmqpClass.confirm (ConfirmMethod.select p))

  unfoldable pub channel0_class : Channel0Slot A → AmqpClass A → Step A I C env
  unfolding channel0_method client_exception
  channel0_class ch0 (AmqpClass.connection m) =
      channel0_method A I C env ch0 m (AmqpClass.connection m)
  channel0_class ch0 class = client_exception A I C env env.not_implemented (env.unhandled 0 class)

  unfoldable pub illegal_frame : AmqpFrame A → Step A I C env
  unfolding client_exception
  illegal_frame frame = client_exception A I C env env.not_allowed (env.illegal_frame frame)

  unfoldable pub steady_frame : Channel0Slot A → AmqpFrame A → Step A I C env
  unfolding channel0_class method_frame content_header content_body illegal_frame
  steady_frame ch0 AmqpFrame.protocol_header = fail frame_unexpected
  steady_frame ch0 (AmqpFrame.heartbeat zero) = pure tt
  steady_frame ch0 (AmqpFrame.heartbeat (suc n)) = fail frame_unexpected
  steady_frame ch0 (AmqpFrame.method zero class) = channel0_class ch0 class
  steady_frame ch0 (AmqpFrame.method (suc n) class) = method_frame (suc n) class
  steady_frame ch0 (AmqpFrame.header zero class_id header) =
      illegal_frame (AmqpFrame.header zero class_id header)
  steady_frame ch0 (AmqpFrame.header (suc n) class_id header) =
      content_header A I C env (suc n) header
  steady_frame ch0 (AmqpFrame.body zero piece) = illegal_frame (AmqpFrame.body zero piece)
  steady_frame ch0 (AmqpFrame.body (suc n) piece) = content_body A I C env (suc n) piece

  unfoldable pub in_state : ConnectionState A → AmqpFrame A → Step A I C env
  unfolding steady_frame
  in_state (ConnectionState.steady ch0) frame = steady_frame ch0 frame
  in_state ConnectionState.client_exception frame = pure tt
  in_state (ConnectionState.server_closing close) frame = fail frame_unexpected
  in_state ConnectionState.client_closed frame = fail frame_unexpected

  unfoldable pub process : AmqpFrame A → Step A I C env
  unfolding in_state
  process frame io = in_state io.state frame io

  -- The frames of one read, up to the first error.
  unfoldable pub process_all : List (AmqpFrame A) → Step A I C env
  unfolding process
  process_all [] = pure tt
  process_all (frame ∷ frames) = do process frame; process_all frames
