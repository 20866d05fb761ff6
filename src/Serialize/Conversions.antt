-- ===== src/Serialize/Conversions.antt =====
-- serialize.rs: the methods that the client waits for, out of a method or a frame of any kind.
use amiquip.Prelude.{ℕ, String, ◌≡◌, refl, ◌==◌, if◌then◌else◌}
use amiquip.Errors.{Result, ok, err, frame_unexpected}
use amiquip.Protocol.{
  Amqp, AmqpClass, AmqpFrame, ConnectionMethod, ChannelMethod, BasicMethod, ConfirmMethod,
  QueueMethod, ExchangeMethod, Start, Tune, Close, QueueDeclareOk,
}

-- The types that `impl_try_from_class` is called for.
pub data Expected : Type 0 where
  connection_start connection_secure connection_tune connection_open_ok connection_close : Expected
  connection_close_ok channel_open_ok channel_close_ok basic_consume_ok basic_cancel_ok : Expected
  basic_qos_ok basic_recover_ok confirm_select_ok queue_declare_ok queue_bind_ok : Expected
  queue_delete_ok queue_purge_ok queue_unbind_ok exchange_bind_ok exchange_declare_ok : Expected
  exchange_delete_ok exchange_unbind_ok : Expected

module _ (A : Amqp) where
  unfoldable pub Value : Expected → Type 0
  Value connection_start = Start A
  Value connection_secure = A.Payload
  Value connection_tune = Tune
  Value connection_open_ok = A.Payload
  Value connection_close = Close
  Value connection_close_ok = Unit {0}
  Value channel_open_ok = A.Payload
  Value channel_close_ok = Unit {0}
  Value basic_consume_ok = String
  Value basic_cancel_ok = String
  Value basic_qos_ok = A.Payload
  Value basic_recover_ok = A.Payload
  Value confirm_select_ok = A.Payload
  Value queue_declare_ok = QueueDeclareOk
  Value queue_bind_ok = A.Payload
  Value queue_delete_ok = ℕ
  Value queue_purge_ok = ℕ
  Value queue_unbind_ok = A.Payload
  Value exchange_bind_ok = A.Payload
  Value exchange_declare_ok = A.Payload
  Value exchange_delete_ok = A.Payload
  Value exchange_unbind_ok = A.Payload

  -- The method of a type with a value.
  unfoldable pub wrap : (x : Expected) → Value x → AmqpClass A
  unfolding Value
  wrap connection_start v = AmqpClass.connection (ConnectionMethod.start v)
  wrap connection_secure v = AmqpClass.connection (ConnectionMethod.secure v)
  wrap connection_tune v = AmqpClass.connection (ConnectionMethod.tune v)
  wrap connection_open_ok v = AmqpClass.connection (ConnectionMethod.open_ok v)
  wrap connection_close v = AmqpClass.connection (ConnectionMethod.close v)
  wrap connection_close_ok v = AmqpClass.connection ConnectionMethod.close_ok
  wrap channel_open_ok v = AmqpClass.channel (ChannelMethod.open_ok v)
  wrap channel_close_ok v = AmqpClass.channel ChannelMethod.close_ok
  wrap basic_consume_ok v = AmqpClass.basic (BasicMethod.consume_ok v)
  wrap basic_cancel_ok v = AmqpClass.basic (BasicMethod.cancel_ok v)
  wrap basic_qos_ok v = AmqpClass.basic (BasicMethod.qos_ok v)
  wrap basic_recover_ok v = AmqpClass.basic (BasicMethod.recover_ok v)
  wrap confirm_select_ok v = AmqpClass.confirm (ConfirmMethod.select_ok v)
  wrap queue_declare_ok v = AmqpClass.queue (QueueMethod.declare_ok v)
  wrap queue_bind_ok v = AmqpClass.queue (QueueMethod.bind_ok v)
  wrap queue_delete_ok v = AmqpClass.queue (QueueMethod.delete_ok v)
  wrap queue_purge_ok v = AmqpClass.queue (QueueMethod.purge_ok v)
  wrap queue_unbind_ok v = AmqpClass.queue (QueueMethod.unbind_ok v)
  wrap exchange_bind_ok v = AmqpClass.exchange (ExchangeMethod.bind_ok v)
  wrap exchange_declare_ok v = AmqpClass.exchange (ExchangeMethod.declare_ok v)
  wrap exchange_delete_ok v = AmqpClass.exchange (ExchangeMethod.delete_ok v)
  wrap exchange_unbind_ok v = AmqpClass.exchange (ExchangeMethod.unbind_ok v)

  unfoldable pub try_from : (x : Expected) → AmqpClass A → Result (Value x)
  unfolding Value
  try_from connection_start (AmqpClass.connection (ConnectionMethod.start v)) = ok v
  try_from connection_start _ = err frame_unexpected
  try_from connection_secure (AmqpClass.connection (ConnectionMethod.secure v)) = ok v
  try_from connection_secure _ = err frame_unexpected
  try_from connection_tune (AmqpClass.connection (ConnectionMethod.tune v)) = ok v
  try_from connection_tune _ = err frame_unexpected
  try_from connection_open_ok (AmqpClass.connection (ConnectionMethod.open_ok v)) = ok v
  try_from connection_open_ok _ = err frame_unexpected
  try_from connection_close (AmqpClass.connection (ConnectionMethod.close v)) = ok v
  try_from connection_close _ = err frame_unexpected
  try_from connection_close_ok (AmqpClass.connection ConnectionMethod.close_ok) = ok tt
  try_from connection_close_ok _ = err frame_unexpected
  try_from channel_open_ok (AmqpClass.channel (ChannelMethod.open_ok v)) = ok v
  try_from channel_open_ok _ = err frame_unexpected
  try_from channel_close_ok (AmqpClass.channel ChannelMethod.close_ok) = ok tt
  try_from channel_close_ok _ = err frame_unexpected
  try_from basic_consume_ok (AmqpClass.basic (BasicMethod.consume_ok v)) = ok v
  try_from basic_consume_ok _ = err frame_unexpected
  try_from basic_cancel_ok (AmqpClass.basic (BasicMethod.cancel_ok v)) = ok v
  try_from basic_cancel_ok _ = err frame_unexpected
  try_from basic_qos_ok (AmqpClass.basic (BasicMethod.qos_ok v)) = ok v
  try_from basic_qos_ok _ = err frame_unexpected
  try_from basic_recover_ok (AmqpClass.basic (BasicMethod.recover_ok v)) = ok v
  try_from basic_recover_ok _ = err frame_unexpected
  try_from confirm_select_ok (AmqpClass.confirm (ConfirmMethod.select_ok v)) = ok v
  try_from confirm_select_ok _ = err frame_unexpected
  try_from queue_declare_ok (AmqpClass.queue (QueueMethod.declare_ok v)) = ok v
  try_from queue_declare_ok _ = err frame_unexpected
  try_from queue_bind_ok (AmqpClass.queue (QueueMethod.bind_ok v)) = ok v
  try_from queue_bind_ok _ = err frame_unexpected
  try_from queue_delete_ok (AmqpClass.queue (QueueMethod.delete_ok v)) = ok v
  try_from queue_delete_ok _ = err frame_unexpected
  try_from queue_purge_ok (AmqpClass.queue (QueueMethod.purge_ok v)) = ok v
  try_from queue_purge_ok _ = err frame_unexpected
  try_from queue_unbind_ok (AmqpClass.queue (QueueMethod.unbind_ok v)) = ok v
  try_from queue_unbind_ok _ = err frame_unexpected
  try_from exchange_bind_ok (AmqpClass.exchange (ExchangeMethod.bind_ok v)) = ok v
  try_from exchange_bind_ok _ = err frame_unexpected
  try_from exchange_declare_ok (AmqpClass.exchange (ExchangeMethod.declare_ok v)) = ok v
  try_from exchange_declare_ok _ = err frame_unexpected
  try_from exchange_delete_ok (AmqpClass.exchange (ExchangeMethod.delete_ok v)) = ok v
  try_from exchange_delete_ok _ = err frame_unexpected
  try_from exchange_unbind_ok (AmqpClass.exchange (ExchangeMethod.unbind_ok v)) = ok v
  try_from exchange_unbind_ok _ = err frame_unexpected

  -- `TryFromAmqpFrame`
  unfoldable pub try_from_frame : (x : Expected) → ℕ → AmqpFrame A → Result (Value x)
  unfolding try_from
  try_from_frame x expected_id (AmqpFrame.method channel_id class) =
      if expected_id == channel_id then try_from x class else err frame_unexpected
  try_from_frame x expected_id _ = err frame_unexpected

  pub try_from-wrap : (x : Expected) (v : Value x) → try_from x (wrap x v) ≡ ok v
  unfolding Value wrap try_from
  try_from-wrap connection_start v = refl
  try_from-wrap connection_secure v = refl
  try_from-wrap connection_tune v = refl
  try_from-wrap connection_open_ok v = refl
  try_from-wrap connection_close v = refl
  try_from-wrap connection_close_ok v = refl
  try_from-wrap channel_open_ok v = refl
  try_from-wrap channel_close_ok v = refl
  try_from-wrap basic_consume_ok v = refl
  try_from-wrap basic_cancel_ok v = refl
  try_from-wrap basic_qos_ok v = refl
  try_from-wrap basic_recover_ok v = refl
  try_from-wrap confirm_select_ok v = refl
  try_from-wrap queue_declare_ok v = refl
  try_from-wrap queue_bind_ok v = refl
  try_from-wrap queue_delete_ok v = refl
  try_from-wrap queue_purge_ok v = refl
  try_from-wrap queue_unbind_ok v = refl
  try_from-wrap exchange_bind_ok v = refl
  try_from-wrap exchange_declare_ok v = refl
  try_from-wrap exchange_delete_ok v = refl
  try_from-wrap exchange_unbind_ok v = refl
