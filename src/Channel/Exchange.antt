-- ===== src/Channel/Exchange.antt =====
-- exchange.rs: what a client calls on an exchange, which is its name behind a channel.
use amiquip.Prelude.{String, Bool}
use amiquip.Protocol.{Amqp}
use amiquip.Serialize.{Codec}
use amiquip.ChannelHandle.{Peer}
use amiquip.Options.{Publish}
use amiquip.Channel.{ChannelCall, basic_publish}
use amiquip.Channel.Topology.{
  Exchange, exchange_bind, exchange_bind_nowait, exchange_unbind, exchange_unbind_nowait,
  exchange_delete, exchange_delete_nowait,
}

-- The default exchange.
abbrev pub direct_exchange : Exchange
direct_exchange = ""

module _ (A : Amqp) (C : Codec A) (peer : Peer A) where
  open A use {FieldTable}

  unfoldable pub publish : Exchange → Publish A → ChannelCall A C peer (Unit {0})
  publish self message = basic_publish A C peer self message

  unfoldable pub bind_to_source :
      Exchange → Exchange → String → FieldTable → ChannelCall A C peer (Unit {0})
  bind_to_source self source routing_key arguments =
      exchange_bind A C peer self source routing_key arguments

  unfoldable pub bind_to_source_nowait :
      Exchange → Exchange → String → FieldTable → ChannelCall A C peer (Unit {0})
  bind_to_source_nowait self source routing_key arguments =
      exchange_bind_nowait A C peer self source routing_key arguments

  unfoldable pub bind_to_destination :
      Exchange → Exchange → String → FieldTable → ChannelCall A C peer (Unit {0})
  bind_to_destination self destination routing_key arguments =
      exchange_bind A C peer destination self routing_key arguments

  unfoldable pub bind_to_destination_nowait :
      Exchange → Exchange → String → FieldTable → ChannelCall A C peer (Unit {0})
  bind_to_destination_nowait self destination routing_key arguments =
      exchange_bind_nowait A C peer destination self routing_key arguments

  unfoldable pub unbind_from_source :
      Exchange → Exchange → String → FieldTable → ChannelCall A C peer (Unit {0})
  unbind_from_source self source routing_key arguments =
      exchange_unbind A C peer self source routing_key arguments

  unfoldable pub unbind_from_source_nowait :
      Exchange → Exchange → String → FieldTable → ChannelCall A C peer (Unit {0})
  unbind_from_source_nowait self source routing_key arguments =
      exchange_unbind_nowait A C peer self source routing_key arguments

  unfoldable pub unbind_from_destination :
      Exchange → Exchange → String → FieldTable → ChannelCall A C peer (Unit {0})
  unbind_from_destination self destination routing_key arguments =
      exchange_unbind A C peer destination self routing_key arguments

  unfoldable pub unbind_from_destination_nowait :
      Exchange → Exchange → String → FieldTable → ChannelCall A C peer (Unit {0})
  unbind_from_destination_nowait self destination routing_key arguments =
      exchange_unbind_nowait A C peer destination self routing_key arguments

  unfoldable pub delete : Exchange → Bool → ChannelCall A C peer (Unit {0})
  delete self if_unused = exchange_delete A C peer self if_unused

  unfoldable pub delete_nowait : Exchange → Bool → ChannelCall A C peer (Unit {0})
  delete_nowait self if_unused = exchange_delete_nowait A C peer self if_unused
