-- ===== src/Channel.antt =====
-- channel.rs: what a client calls on a channel, with the handle to the I/O thread that it goes over.
pub mod Topology
pub mod Acknowledge
pub mod Calls
pub mod Publishing
pub mod Answers
pub mod Queue
pub mod Exchange
pub mod Fetched
mod Tests
use amiquip.Prelude.{
  ℕ, suc, String, Bool, true, false, List, length, Option, none, some, if◌then◌else◌,
}
use amiquip.Errors.{Result, ok, err, panicked}
use amiquip.Exec.{Exec, pure, ◌>>=◌, ◌>>◌}
use amiquip.Protocol.{
  Amqp, AmqpClass, BasicMethod, ChannelMethod, ConfirmMethod, QueueMethod, ExchangeMethod,
}
use amiquip.Content.{Get, Delivery}
use amiquip.Serialize.{Codec}
use amiquip.Serialize.Conversions.{
  Expected, Value, channel_close_ok, basic_qos_ok, basic_recover_ok, basic_cancel_ok,
  confirm_select_ok,
}
use amiquip.Options.{Publish, ConsumerOptions}
use amiquip.ChannelHandle
use amiquip.ChannelHandle.Handlers.{set_return_handler, set_pub_confirm_handler}
use amiquip.ChannelHandle.{
  IoLoopMessage, IoLoopHandle, Peer, HandleCall, send_message, send_content,
}

-- The `ChannelHandle` inside is its `IoLoopHandle` with the size that a body frame may have.
pub record Channel : Type 0 where
  pub inner : IoLoopHandle
  pub frame_max : ℕ
  pub closed : Bool

unfoldable pub new : IoLoopHandle → ℕ → Channel
new handle frame_max = record { inner = handle; frame_max = frame_max; closed = false }

-- `AmqpPublish::get_class_id()`, the class basic.
abbrev pub basic_class : ℕ
basic_class = 60

module _ (A : Amqp) (C : Codec A) (peer : Peer A) where
  abbrev pub ChannelCall : Type 0 → Type 0
  ChannelCall B = Exec Channel B

  abbrev pub on_handle : {B : Type 0} → HandleCall A C peer B → ChannelCall B
  on_handle m c = let (r, h) = m c.inner in (r, record c { inner = h })

  unfoldable pub call : (x : Expected) → AmqpClass A → ChannelCall (Value A x)
  call x class = on_handle (ChannelHandle.call A C peer x class)

  unfoldable pub call_nowait : AmqpClass A → ChannelCall (Unit {0})
  call_nowait class = on_handle (ChannelHandle.call_nowait A C peer class)

  -- `.map(|_ok| ())`
  abbrev pub call_ok : Expected → AmqpClass A → ChannelCall (Unit {0})
  call_ok x class = do answer ← call x class; pure tt

  close_method : AmqpClass A
  close_method = AmqpClass.channel (
      ChannelMethod.close (record { reply_code = 0; reply_text = ""; class_id = 0; method_id = 0 }))

  -- `close`, and `drop`, which throws the result away.
  unfoldable pub close_impl : ChannelCall (Unit {0})
  unfolding call close_method
  close_impl c =
      if c.closed
      then (ok tt, c)
      else call_ok channel_close_ok close_method (record c { closed = true })

  unfoldable pub qos : ℕ → ℕ → Bool → ChannelCall (Unit {0})
  unfolding call
  qos prefetch_size prefetch_count global = call_ok basic_qos_ok (
      AmqpClass.basic (
        BasicMethod.qos (record {
          prefetch_size = prefetch_size;
          prefetch_count = prefetch_count;
          global = global;
        })))

  unfoldable pub recover : Bool → ChannelCall (Unit {0})
  unfolding call
  recover requeue = call_ok basic_recover_ok (AmqpClass.basic (BasicMethod.recover requeue))

  unfoldable pub basic_publish : String → Publish A → ChannelCall (Unit {0})
  unfolding call_nowait
  basic_publish exchange publish c =
      (do
        call_nowait (
            AmqpClass.basic (
              BasicMethod.publish (record {
                ticket = 0;
                exchange = exchange;
                routing_key = publish.routing_key;
                mandatory = publish.mandatory;
                immediate = publish.immediate;
              })))
        on_handle (
            send_content A C peer (suc (length publish.body)) c.frame_max publish.body basic_class
              publish.properties))
        c

  -- A handler is set to a new sender, by name.
  unfoldable pub listen_for_publisher_confirms : ℕ → ChannelCall ℕ
  listen_for_publisher_confirms tx = do
    on_handle (set_pub_confirm_handler A C peer (some tx))
    pure tx

  unfoldable pub listen_for_returns : ℕ → ChannelCall ℕ
  listen_for_returns tx = do on_handle (set_return_handler A C peer (some tx)); pure tx

  unfoldable pub enable_publisher_confirms : ChannelCall (Unit {0})
  unfolding call
  enable_publisher_confirms =
      call_ok confirm_select_ok (AmqpClass.confirm (ConfirmMethod.select false))

  unfoldable pub enable_publisher_confirms_nowait : ChannelCall (Unit {0})
  unfolding call_nowait
  enable_publisher_confirms_nowait = call_nowait (AmqpClass.confirm (ConfirmMethod.select true))

  unfoldable pub basic_get : String → Bool → ChannelCall (Option (Get A))
  basic_get queue no_ack =
      on_handle (ChannelHandle.get A C peer (record { ticket = 0; queue = queue; no_ack = no_ack }))

  -- The tag and the receiver of the new consumer.
  unfoldable pub basic_consume : String → ConsumerOptions A → ChannelCall (String × ℕ)
  basic_consume queue options = on_handle (
      ChannelHandle.consume A C peer (record {
        ticket = 0;
        queue = queue;
        consumer_tag = "";
        no_local = options.no_local;
        no_ack = options.no_ack;
        exclusive = options.exclusive;
        nowait = false;
        arguments = options.arguments;
      }))

  unfoldable pub ack_all : ChannelCall (Unit {0})
  unfolding call_nowait
  ack_all =
      call_nowait (AmqpClass.basic (BasicMethod.ack (record { delivery_tag = 0; multiple = true })))

  unfoldable pub basic_ack : Delivery A → Bool → ChannelCall (Unit {0})
  unfolding call_nowait
  basic_ack delivery multiple = call_nowait (
      AmqpClass.basic
        (BasicMethod.ack (record { delivery_tag = delivery.delivery_tag; multiple = multiple })))

  unfoldable pub nack_all : Bool → ChannelCall (Unit {0})
  unfolding call_nowait
  nack_all requeue = call_nowait (
      AmqpClass.basic
        (BasicMethod.nack (record { delivery_tag = 0; multiple = true; requeue = requeue })))

  unfoldable pub basic_nack : Delivery A → Bool → Bool → ChannelCall (Unit {0})
  unfolding call_nowait
  basic_nack delivery multiple requeue = call_nowait (
      AmqpClass.basic (
        BasicMethod.nack (record {
          delivery_tag = delivery.delivery_tag;
          multiple = multiple;
          requeue = requeue;
        })))

  unfoldable pub basic_reject : Delivery A → Bool → ChannelCall (Unit {0})
  unfolding call_nowait
  basic_reject delivery requeue = call_nowait (
      AmqpClass.basic
        (BasicMethod.reject (record { delivery_tag = delivery.delivery_tag; requeue = requeue })))

  -- The consumer gives its tag.
  unfoldable pub basic_cancel : String → ChannelCall (Unit {0})
  unfolding call
  basic_cancel consumer_tag = call_ok basic_cancel_ok (
      AmqpClass.basic (BasicMethod.cancel (record { consumer_tag = consumer_tag; nowait = false })))
