-- ===== src/ChannelHandle/Handlers.antt =====
-- io_loop/io_loop_handle.rs: setting the handlers of a channel.
use amiquip.Prelude.{ℕ, Option}
use amiquip.Protocol.{Amqp}
use amiquip.Serialize.{Codec}
use amiquip.ChannelHandle.{IoLoopMessage, Peer, HandleCall, send_message}

module _ (A : Amqp) (C : Codec A) (peer : Peer A) where
  unfoldable pub set_return_handler : Option ℕ → HandleCall A C peer (Unit {0})
  unfolding send_message
  set_return_handler handler = send_message A C peer (IoLoopMessage.set_return_handler handler)

  unfoldable pub set_pub_confirm_handler : Option ℕ → HandleCall A C peer (Unit {0})
  unfolding send_message
  set_pub_confirm_handler handler =
      send_message A C peer (IoLoopMessage.set_pub_confirm_handler handler)
