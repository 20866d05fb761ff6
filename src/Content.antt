-- ===== src/Content.antt =====
-- delivery.rs, get.rs and return_.rs: the messages that the client receives.
use amiquip.Prelude.{ℕ, String, List, Bool}
use amiquip.Protocol.{Amqp, Deliver, AmqpReturn, GetOk}

module _ (A : Amqp) where
  open A use {Properties}

  pub record Delivery : Type 0 where
    pub channel_id : ℕ
    pub delivery_tag : ℕ
    pub redelivered : Bool
    pub exchange : String
    pub routing_key : String
    pub body : List ℕ
    pub properties : Properties

  pub record Return : Type 0 where
    pub reply_code : ℕ
    pub reply_text : String
    pub exchange : String
    pub routing_key : String
    pub content : List ℕ
    pub properties : Properties

  pub record Get : Type 0 where
    pub delivery : Delivery
    pub message_count : ℕ

  unfoldable pub new_delivery : ℕ → Deliver → List ℕ → Properties → String × Delivery
  new_delivery channel_id deliver body properties = (
    deliver.consumer_tag,
    record {
      channel_id = channel_id;
      delivery_tag = deliver.delivery_tag;
      redelivered = deliver.redelivered;
      exchange = deliver.exchange;
      routing_key = deliver.routing_key;
      body = body;
      properties = properties;
    },
  )

  unfoldable pub new_get_ok : ℕ → GetOk → List ℕ → Properties → Delivery
  new_get_ok channel_id get_ok body properties = record {
    channel_id = channel_id;
    delivery_tag = get_ok.delivery_tag;
    redelivered = get_ok.redelivered;
    exchange = get_ok.exchange;
    routing_key = get_ok.routing_key;
    body = body;
    properties = properties;
  }

  unfoldable pub new_return : ℕ → AmqpReturn → List ℕ → Properties → Return
  new_return channel_id ret content properties = record {
    reply_code = ret.reply_code;
    reply_text = ret.reply_text;
    exchange = ret.exchange;
    routing_key = ret.routing_key;
    content = content;
    properties = properties;
  }

  unfoldable pub new_get : ℕ → GetOk → List ℕ → Properties → Get
  unfolding new_get_ok
  new_get channel_id get_ok buf properties = record {
    delivery = new_get_ok channel_id get_ok buf properties;
    message_count = get_ok.message_count;
  }
