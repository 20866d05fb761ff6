-- ===== src/Options.antt =====
-- The options of queue.rs, exchange.rs and consumer.rs, and the methods that they are turned into.
use amiquip.Prelude.{ℕ, String, Bool, false, List}
use amiquip.Protocol.{Amqp, QueueDeclare, QueueDelete, ExchangeDeclare}

pub data ExchangeType : Type 0 where
  direct fanout topic headers : ExchangeType
  custom : String → ExchangeType

unfoldable pub as_ref : ExchangeType → String
as_ref direct = "direct"
as_ref fanout = "fanout"
as_ref topic = "topic"
as_ref headers = "headers"
as_ref (custom s) = s

pub record QueueDeleteOptions : Type 0 where
  pub if_unused : Bool
  pub if_empty : Bool

unfoldable pub into_delete : QueueDeleteOptions → String → Bool → QueueDelete
into_delete self queue nowait = record {
  ticket = 0;
  queue = queue;
  if_unused = self.if_unused;
  if_empty = self.if_empty;
  nowait = nowait;
}

module _ (A : Amqp) where
  open A use {FieldTable, Properties}

  pub record QueueDeclareOptions : Type 0 where
    pub durable : Bool
    pub exclusive : Bool
    pub auto_delete : Bool
    pub arguments : FieldTable

  unfoldable pub queue_into_declare : QueueDeclareOptions → String → Bool → Bool → QueueDeclare A
  queue_into_declare self queue passive nowait = record {
    ticket = 0;
    queue = queue;
    passive = passive;
    durable = self.durable;
    exclusive = self.exclusive;
    auto_delete = self.auto_delete;
    nowait = nowait;
    arguments = self.arguments;
  }

  pub record ExchangeDeclareOptions : Type 0 where
    pub durable : Bool
    pub auto_delete : Bool
    pub internal : Bool
    pub arguments : FieldTable

  unfoldable pub exchange_into_declare :
      ExchangeDeclareOptions → ExchangeType → String → Bool → Bool → ExchangeDeclare A
  unfolding as_ref
  exchange_into_declare self type_ name passive nowait = record {
    ticket = 0;
    exchange = name;
    type_ = as_ref type_;
    passive = passive;
    durable = self.durable;
    auto_delete = self.auto_delete;
    internal = self.internal;
    nowait = nowait;
    arguments = self.arguments;
  }

  pub record ConsumerOptions : Type 0 where
    pub no_local : Bool
    pub no_ack : Bool
    pub exclusive : Bool
    pub arguments : FieldTable

  pub record Publish : Type 0 where
    pub body : List ℕ
    pub routing_key : String
    pub mandatory : Bool
    pub immediate : Bool
    pub properties : Properties

  unfoldable pub with_properties : List ℕ → String → Properties → Publish
  with_properties body routing_key properties = record {
    body = body;
    routing_key = routing_key;
    mandatory = false;
    immediate = false;
    properties = properties;
  }
