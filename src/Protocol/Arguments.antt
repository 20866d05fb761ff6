-- ===== src/Protocol/Arguments.antt =====
-- The arguments of amq-protocol's methods, as far as the client reads or fills them in.
use amiquip.Prelude.{ℕ, String, Bool}

-- Opaque: message properties, field tables, and the arguments that nothing reads.
pub record Amqp : Type 1 where
  pub Properties : Type 0
  pub FieldTable : Type 0
  pub Payload : Type 0

pub record Deliver : Type 0 where
  pub consumer_tag : String
  pub delivery_tag : ℕ
  pub redelivered : Bool
  pub exchange : String
  pub routing_key : String

pub record AmqpReturn : Type 0 where
  pub reply_code : ℕ
  pub reply_text : String
  pub exchange : String
  pub routing_key : String

pub record GetOk : Type 0 where
  pub delivery_tag : ℕ
  pub redelivered : Bool
  pub exchange : String
  pub routing_key : String
  pub message_count : ℕ

-- `ConnectionClose` and `ChannelClose`.
pub record Close : Type 0 where
  pub reply_code : ℕ
  pub reply_text : String
  pub class_id : ℕ
  pub method_id : ℕ

pub record Cancel : Type 0 where
  pub consumer_tag : String
  pub nowait : Bool

pub record Acked : Type 0 where
  pub delivery_tag : ℕ
  pub multiple : Bool

pub record Nacked : Type 0 where
  pub delivery_tag : ℕ
  pub multiple : Bool
  pub requeue : Bool

pub record Rejected : Type 0 where
  pub delivery_tag : ℕ
  pub requeue : Bool

pub record Qos : Type 0 where
  pub prefetch_size : ℕ
  pub prefetch_count : ℕ
  pub global : Bool

pub record AmqpPublish : Type 0 where
  pub ticket : ℕ
  pub exchange : String
  pub routing_key : String
  pub mandatory : Bool
  pub immediate : Bool

pub record AmqpGet : Type 0 where
  pub ticket : ℕ
  pub queue : String
  pub no_ack : Bool

pub record QueueDelete : Type 0 where
  pub ticket : ℕ
  pub queue : String
  pub if_unused : Bool
  pub if_empty : Bool
  pub nowait : Bool

pub record QueuePurge : Type 0 where
  pub ticket : ℕ
  pub queue : String
  pub nowait : Bool

pub record QueueDeclareOk : Type 0 where
  pub queue : String
  pub message_count : ℕ
  pub consumer_count : ℕ

pub record ExchangeDelete : Type 0 where
  pub ticket : ℕ
  pub exchange : String
  pub if_unused : Bool
  pub nowait : Bool

pub record Tune : Type 0 where
  pub channel_max : ℕ
  pub frame_max : ℕ
  pub heartbeat : ℕ

module _ (A : Amqp) where
  open A use {Properties, FieldTable}

  pub record ContentHeader : Type 0 where
    pub body_size : ℕ
    pub properties : Properties

  pub record Start : Type 0 where
    pub server_properties : FieldTable
    pub mechanisms : String
    pub locales : String

  pub record StartOk : Type 0 where
    pub client_properties : FieldTable
    pub mechanism : String
    pub response : String
    pub locale : String

  pub record Open : Type 0 where
    pub virtual_host : String
    pub capabilities : String
    pub insist : Bool

  pub record Consume : Type 0 where
    pub ticket : ℕ
    pub queue : String
    pub consumer_tag : String
    pub no_local : Bool
    pub no_ack : Bool
    pub exclusive : Bool
    pub nowait : Bool
    pub arguments : FieldTable

  pub record QueueDeclare : Type 0 where
    pub ticket : ℕ
    pub queue : String
    pub passive : Bool
    pub durable : Bool
    pub exclusive : Bool
    pub auto_delete : Bool
    pub nowait : Bool
    pub arguments : FieldTable

  pub record QueueBind : Type 0 where
    pub ticket : ℕ
    pub queue : String
    pub exchange : String
    pub routing_key : String
    pub nowait : Bool
    pub arguments : FieldTable

  pub record QueueUnbind : Type 0 where
    pub ticket : ℕ
    pub queue : String
    pub exchange : String
    pub routing_key : String
    pub arguments : FieldTable

  pub record ExchangeDeclare : Type 0 where
    pub ticket : ℕ
    pub exchange : String
    pub type_ : String
    pub passive : Bool
    pub durable : Bool
    pub auto_delete : Bool
    pub internal : Bool
    pub nowait : Bool
    pub arguments : FieldTable

  -- `Bind` and `Unbind` of exchanges.
  pub record ExchangeBind : Type 0 where
    pub ticket : ℕ
    pub destination : String
    pub source : String
    pub routing_key : String
    pub nowait : Bool
    pub arguments : FieldTable
