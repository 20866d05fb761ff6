-- ===== src/Channel/Fetched.antt =====
-- get.rs: answers to a message that was fetched, which go by its delivery.
use amiquip.Prelude.{Bool}
use amiquip.Protocol.{Amqp}
use amiquip.Content.{Get}
use amiquip.Serialize.{Codec}
use amiquip.ChannelHandle.{Peer}
use amiquip.Channel.{ChannelCall}
use amiquip.Channel.Acknowledge

module _ (A : Amqp) (C : Codec A) (peer : Peer A) where
  unfoldable pub ack : Get A → ChannelCall A C peer (Unit {0})
  ack self = Acknowledge.ack A C peer self.delivery

  unfoldable pub ack_multiple : Get A → ChannelCall A C peer (Unit {0})
  ack_multiple self = Acknowledge.ack_multiple A C peer self.delivery

  unfoldable pub nack : Get A → Bool → ChannelCall A C peer (Unit {0})
  nack self requeue = Acknowledge.nack A C peer self.delivery requeue

  unfoldable pub nack_multiple : Get A → Bool → ChannelCall A C peer (Unit {0})
  nack_multiple self requeue = Acknowledge.nack_multiple A C peer self.delivery requeue

  unfoldable pub reject : Get A → Bool → ChannelCall A C peer (Unit {0})
  reject self requeue = Acknowledge.reject A C peer self.delivery requeue
