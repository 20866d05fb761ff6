-- ===== src/Channel/Acknowledge.antt =====
-- delivery.rs and consumer.rs: answers to deliveries, and the end of a consumer.
use amiquip.Prelude.{ℕ, String, Bool, true, false, ◌==◌, if◌then◌else◌}
use amiquip.Errors.{Result, ok, panicked}
use amiquip.Protocol.{Amqp}
use amiquip.Content.{Delivery}
use amiquip.Serialize.{Codec}
use amiquip.ChannelHandle.{Peer}
use amiquip.Channel.{Channel, ChannelCall, basic_ack, basic_nack, basic_reject, basic_cancel}

pub record Consumer : Type 0 where
  pub consumer_tag : String
  pub rx : ℕ
  pub cancelled : Bool

module _ (A : Amqp) (C : Codec A) (peer : Peer A) where
  -- `assert_eq!(self.channel_id, channel.channel_id(), …)`
  abbrev pub on_same_channel :
      Delivery A → ChannelCall A C peer (Unit {0}) → ChannelCall A C peer (Unit {0})
  on_same_channel self m c = if self.channel_id == c.inner.channel_id then m c else (panicked, c)

  unfoldable pub ack : Delivery A → ChannelCall A C peer (Unit {0})
  ack self = on_same_channel self (basic_ack A C peer self false)

  unfoldable pub ack_multiple : Delivery A → ChannelCall A C peer (Unit {0})
  ack_multiple self = on_same_channel self (basic_ack A C peer self true)

  unfoldable pub nack : Delivery A → Bool → ChannelCall A C peer (Unit {0})
  nack self requeue = on_same_channel self (basic_nack A C peer self false requeue)

  unfoldable pub nack_multiple : Delivery A → Bool → ChannelCall A C peer (Unit {0})
  nack_multiple self requeue = on_same_channel self (basic_nack A C peer self true requeue)

  unfoldable pub reject : Delivery A → Bool → ChannelCall A C peer (Unit {0})
  reject self requeue = on_same_channel self (basic_reject A C peer self requeue)

  -- The methods of the same names of a consumer go by those of the delivery.
  unfoldable pub consumer_ack : Delivery A → ChannelCall A C peer (Unit {0})
  consumer_ack delivery = ack delivery

  unfoldable pub consumer_ack_multiple : Delivery A → ChannelCall A C peer (Unit {0})
  consumer_ack_multiple delivery = ack_multiple delivery

  unfoldable pub consumer_nack : Delivery A → Bool → ChannelCall A C peer (Unit {0})
  consumer_nack delivery requeue = nack delivery requeue

  unfoldable pub consumer_nack_multiple : Delivery A → Bool → ChannelCall A C peer (Unit {0})
  consumer_nack_multiple delivery requeue = nack_multiple delivery requeue

  -- `Consumer::reject` does not go by `Delivery::reject`.
  unfoldable pub consumer_reject : Delivery A → Bool → ChannelCall A C peer (Unit {0})
  consumer_reject delivery requeue = basic_reject A C peer delivery requeue

  -- `cancel`, and `drop`: the consumer afterwards, with what the call did.
  unfoldable pub cancel : Consumer → Channel → Consumer × (Result (Unit {0}) × Channel)
  cancel self c =
      if self.cancelled
      then (self, (ok tt, c))
      else (record self { cancelled = true }, basic_cancel A C peer self.consumer_tag c)
