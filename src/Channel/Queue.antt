-- ===== src/Channel/Queue.antt =====
-- queue.rs: what a client calls on a queue, which is its name behind a channel.
use amiquip.Prelude.{ℕ, String, Bool, Option}
use amiquip.Protocol.{Amqp}
use amiquip.Content.{Get}
use amiquip.Serialize.{Codec}
use amiquip.ChannelHandle.{Peer}
use amiquip.Options.{ConsumerOptions, QueueDeleteOptions}
use amiquip.Channel.{ChannelCall, basic_get, basic_consume}
use amiquip.Channel.Topology.{
  Queue, Exchange, queue_bind, queue_bind_nowait, queue_unbind, queue_purge, queue_purge_nowait,
  queue_delete, queue_delete_nowait,
}

module _ (A : Amqp) (C : Codec A) (peer : Peer A) where
  open A use {FieldTable}

  unfoldable pub get : Queue → Bool → ChannelCall A C peer (Option (Get A))
  get self no_ack = basic_get A C peer self.name no_ack

  unfoldable pub consume : Queue → ConsumerOptions A → ChannelCall A C peer (String × ℕ)
  consume self options = basic_consume A C peer self.name options

  unfoldable pub bind : Queue → Exchange → String → FieldTable → ChannelCall A C peer (Unit {0})
  bind self exchange routing_key arguments =
      queue_bind A C peer self.name exchange routing_key arguments

  unfoldable pub bind_nowait :
      Queue → Exchange → String → FieldTable → ChannelCall A C peer (Unit {0})
  bind_nowait self exchange routing_key arguments =
      queue_bind_nowait A C peer self.name exchange routing_key arguments

  unfoldable pub unbind : Queue → Exchange → String → FieldTable → ChannelCall A C peer (Unit {0})
  unbind self exchange routing_key arguments =
      queue_unbind A C peer self.name exchange routing_key arguments

  unfoldable pub purge : Queue → ChannelCall A C peer ℕ
  purge self = queue_purge A C peer self.name

  unfoldable pub purge_nowait : Queue → ChannelCall A C peer (Unit {0})
  purge_nowait self = queue_purge_nowait A C peer self.name

  unfoldable pub delete : Queue → QueueDeleteOptions → ChannelCall A C peer ℕ
  delete self options = queue_delete A C peer self.name options

  unfoldable pub delete_nowait : Queue → QueueDeleteOptions → ChannelCall A C peer (Unit {0})
  delete_nowait self options = queue_delete_nowait A C peer self.name options
