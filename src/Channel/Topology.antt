-- ===== src/Channel/Topology.antt =====
-- channel.rs, queue.rs and exchange.rs: declaring, binding, purging and deleting.
use amiquip.Prelude.{ℕ, String, Bool, true, false, Option, none, some, string_discrete, ite}
use amiquip.Errors.{panicked}
use amiquip.Exec.{pure, ◌>>=◌, ◌>>◌}
use amiquip.Protocol.{Amqp, AmqpClass, QueueMethod, ExchangeMethod, QueueBind, ExchangeBind}
use amiquip.Serialize.{Codec}
use amiquip.Serialize.Conversions.{
  Value, queue_declare_ok, queue_bind_ok, queue_unbind_ok, queue_purge_ok, queue_delete_ok,
  exchange_declare_ok, exchange_bind_ok, exchange_unbind_ok, exchange_delete_ok,
}
use amiquip.ChannelHandle.{Peer}
use amiquip.Options.{
  QueueDeclareOptions, QueueDeleteOptions, ExchangeDeclareOptions, ExchangeType, direct,
  queue_into_declare, into_delete, exchange_into_declare,
}
use amiquip.Channel.{ChannelCall, call, call_nowait, call_ok}

pub record Queue : Type 0 where
  pub name : String
  pub message_count : Option ℕ
  pub consumer_count : Option ℕ

-- An exchange is its name.
abbrev pub Exchange : Type 0
Exchange = String

module _ (A : Amqp) (C : Codec A) (peer : Peer A) where
  open A use {FieldTable}

  abbrev queue_class : QueueMethod A → AmqpClass A
  queue_class = AmqpClass.queue

  unfoldable pub declared : Value A queue_declare_ok → Queue
  unfolding Value
  declared answer = record {
    name = answer.queue;
    message_count = some answer.message_count;
    consumer_count = some answer.consumer_count;
  }

  unfoldable pub queue_declare : String → QueueDeclareOptions A → ChannelCall A C peer Queue
  unfolding declared
  queue_declare queue options = do
    answer ←
        call A C peer queue_declare_ok
          (AmqpClass.queue (QueueMethod.declare (queue_into_declare A options queue false false)))
    pure (declared answer)

  -- An auto-named queue needs the server's answer.
  unfoldable pub queue_declare_nowait : String → QueueDeclareOptions A → ChannelCall A C peer Queue
  queue_declare_nowait queue options =
      ite (string_discrete queue "") (λ c. (panicked, c))
        (do
          call_nowait A C peer (
              AmqpClass.queue (QueueMethod.declare (queue_into_declare A options queue false true)))
          pure (record { name = queue; message_count = none; consumer_count = none }))

  -- `FieldTable::new()` is an argument.
  unfoldable pub queue_declare_passive : FieldTable → String → ChannelCall A C peer Queue
  unfolding declared
  queue_declare_passive new_table queue = do
    answer ← call A C peer queue_declare_ok (
        AmqpClass.queue (
          QueueMethod.declare (
            queue_into_declare A
              (record {
                durable = false;
                exclusive = false;
                auto_delete = false;
                arguments = new_table;
              })
              queue true false)))
    pure (declared answer)

  abbrev queue_binding : String → String → String → Bool → FieldTable → QueueBind A
  queue_binding queue exchange routing_key nowait arguments = record {
    ticket = 0;
    queue = queue;
    exchange = exchange;
    routing_key = routing_key;
    nowait = nowait;
    arguments = arguments;
  }

  unfoldable pub queue_bind :
      String → String → String → FieldTable → ChannelCall A C peer (Unit {0})
  queue_bind queue exchange routing_key arguments = call_ok A C peer queue_bind_ok (
      AmqpClass.queue (QueueMethod.bind (queue_binding queue exchange routing_key false arguments)))

  unfoldable pub queue_bind_nowait :
      String → String → String → FieldTable → ChannelCall A C peer (Unit {0})
  queue_bind_nowait queue exchange routing_key arguments =
      call_nowait A C peer (
        AmqpClass.queue
          (QueueMethod.bind (queue_binding queue exchange routing_key true arguments)))

  unfoldable pub queue_unbind :
      String → String → String → FieldTable → ChannelCall A C peer (Unit {0})
  queue_unbind queue exchange routing_key arguments = call_ok A C peer queue_unbind_ok (
      AmqpClass.queue (
        QueueMethod.unbind (record {
          ticket = 0;
          queue = queue;
          exchange = exchange;
          routing_key = routing_key;
          arguments = arguments;
        })))

  -- `.map(|ok| ok.message_count)`
  unfoldable pub queue_purge : String → ChannelCall A C peer ℕ
  unfolding Value
  queue_purge queue =
      call A C peer queue_purge_ok
        (AmqpClass.queue (QueueMethod.purge (record { ticket = 0; queue = queue; nowait = false })))

  unfoldable pub queue_purge_nowait : String → ChannelCall A C peer (Unit {0})
  queue_purge_nowait queue =
      call_nowait A C peer
        (AmqpClass.queue (QueueMethod.purge (record { ticket = 0; queue = queue; nowait = true })))

  unfoldable pub queue_delete : String → QueueDeleteOptions → ChannelCall A C peer ℕ
  unfolding Value
  queue_delete queue options =
      call A C peer queue_delete_ok
        (AmqpClass.queue (QueueMethod.delete (into_delete options queue false)))

  unfoldable pub queue_delete_nowait : String → QueueDeleteOptions → ChannelCall A C peer (Unit {0})
  queue_delete_nowait queue options =
      call_nowait A C peer (AmqpClass.queue (QueueMethod.delete (into_delete options queue true)))

  unfoldable pub exchange_declare :
      ExchangeType → String → ExchangeDeclareOptions A → ChannelCall A C peer Exchange
  exchange_declare type_ exchange options = do
    call_ok A C peer exchange_declare_ok (
        AmqpClass.exchange
          (ExchangeMethod.declare (exchange_into_declare A options type_ exchange false false)))
    pure exchange

  unfoldable pub exchange_declare_nowait :
      ExchangeType → String → ExchangeDeclareOptions A → ChannelCall A C peer Exchange
  exchange_declare_nowait type_ exchange options = do
    call_nowait A C peer (
        AmqpClass.exchange
          (ExchangeMethod.declare (exchange_into_declare A options type_ exchange false true)))
    pure exchange

  unfoldable pub exchange_declare_passive : FieldTable → String → ChannelCall A C peer Exchange
  exchange_declare_passive new_table exchange = do
    call_ok A C peer exchange_declare_ok (
        AmqpClass.exchange (
          ExchangeMethod.declare (
            exchange_into_declare A
              (record {
                durable = false;
                auto_delete = false;
                internal = false;
                arguments = new_table;
              })
              direct exchange true false)))
    pure exchange

  abbrev exchange_binding : String → String → String → Bool → FieldTable → ExchangeBind A
  exchange_binding destination source routing_key nowait arguments = record {
    ticket = 0;
    destination = destination;
    source = source;
    routing_key = routing_key;
    nowait = nowait;
    arguments = arguments;
  }

  unfoldable pub exchange_bind :
      String → String → String → FieldTable → ChannelCall A C peer (Unit {0})
  exchange_bind destination source routing_key arguments = call_ok A C peer exchange_bind_ok (
      AmqpClass.exchange
        (ExchangeMethod.bind (exchange_binding destination source routing_key false arguments)))

  unfoldable pub exchange_bind_nowait :
      String → String → String → FieldTable → ChannelCall A C peer (Unit {0})
  exchange_bind_nowait destination source routing_key arguments = call_nowait A C peer (
      AmqpClass.exchange
        (ExchangeMethod.bind (exchange_binding destination source routing_key true arguments)))

  unfoldable pub exchange_unbind :
      String → String → String → FieldTable → ChannelCall A C peer (Unit {0})
  exchange_unbind destination source routing_key arguments = call_ok A C peer exchange_unbind_ok (
      AmqpClass.exchange
        (ExchangeMethod.unbind (exchange_binding destination source routing_key false arguments)))

  unfoldable pub exchange_unbind_nowait :
      String → String → String → FieldTable → ChannelCall A C peer (Unit {0})
  exchange_unbind_nowait destination source routing_key arguments = call_nowait A C peer (
      AmqpClass.exchange
        (ExchangeMethod.unbind (exchange_binding destination source routing_key true arguments)))

  unfoldable pub exchange_delete : String → Bool → ChannelCall A C peer (Unit {0})
  exchange_delete exchange if_unused = call_ok A C peer exchange_delete_ok (
      AmqpClass.exchange (
        ExchangeMethod.delete
          (record { ticket = 0; exchange = exchange; if_unused = if_unused; nowait = false })))

  unfoldable pub exchange_delete_nowait : String → Bool → ChannelCall A C peer (Unit {0})
  exchange_delete_nowait exchange if_unused = call_nowait A C peer (
      AmqpClass.exchange (
        ExchangeMethod.delete
          (record { ticket = 0; exchange = exchange; if_unused = if_unused; nowait = true })))
