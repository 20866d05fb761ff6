-- ===== src/Connection/Closing.antt =====
-- The end of a connection, at the client and at the I/O thread.
use amiquip.Prelude.{ℕ, suc, ◌≡◌, refl, true, false, List, [], ◌∷◌, ◌++◌, none, some}
use amiquip.Errors.{Result, Error, ok, err, panicked, io_thread_panic}
use amiquip.IndexSet.{IndexSet}
use amiquip.Protocol.{Amqp, AmqpClass, ConnectionMethod}
use amiquip.Serialize.{Codec, append, seal}
use amiquip.Serialize.Append.{push_method-append}
use amiquip.Serialize.Conversions.{Value, try_from}
use amiquip.Inner.{ChannelMessage, Io, seal_writes}
use amiquip.ChannelHandle.{
  IoLoopMessage, Peer, call_connection_close, call_message, make_buf, send_message, recv,
  received_or, method_reply,
}
use amiquip.IoLoop.{handle_channel0_readable, process_channel_message}
use amiquip.Connection.{Connection, close_connection, close_impl, joined, goodbye}

module _ (A : Amqp) (C : Codec A) (peer : Peer A) (reply_success : ℕ) where
  -- A connection whose thread comes to `thread` when it is joined.
  abbrev pub live : Result (Unit {0}) → List IoLoopMessage → ℕ → ℕ → Connection
  live thread log k frame_max = record {
    join_handle = some thread;
    channel0 = record {
      handle = record { channel_id = 0; buf = []; sent = log; received = k };
      frame_max = frame_max;
    };
  }

  abbrev pub close_bytes : List ℕ
  close_bytes =
      C.method_bytes 0
        (AmqpClass.connection (ConnectionMethod.close (goodbye A C peer reply_success)))

  abbrev pub behind : List IoLoopMessage → List IoLoopMessage
  behind log = log ++ IoLoopMessage.connection_close close_bytes ∷ []

  abbrev pub ended : List IoLoopMessage → ℕ → ℕ → Connection
  ended log k frame_max = record (live (ok tt) (behind log) (suc k) frame_max) {
    join_handle = none;
  }

  closes :
      (thread : Result (Unit {0})) (log : List IoLoopMessage) (k frame_max : ℕ)
      → peer.takes log ≡ true
      → peer.reply (behind log) k
        ≡ some (ok (ChannelMessage.method (AmqpClass.connection ConnectionMethod.close_ok)))
      → close_impl A C peer reply_success (live thread log k frame_max)
        ≡ (joined A C peer reply_success thread (ok tt), ended log k frame_max)
  unfolding close_impl close_connection call_connection_close make_buf call_message send_message
      recv received_or method_reply try_from Value
  closes thread log k frame_max taken reply = rw (push_method-append A C [] 0 _, taken, reply) refl

  -- Where the I/O thread takes the close of the client and the server answers it, closing the
  -- connection sends exactly that one message, awaits the answer, and joins the thread: it returns
  -- without an error if the thread does, and else the error of the thread, and `io_thread_panic` if
  -- that panicked. A second close does nothing. The I/O thread that handles the message appends the
  -- bytes of the close method to an unsealed buffer and seals it.
  pub close_impl-outcome :
      (I : IndexSet) (log : List IoLoopMessage) (k frame_max : ℕ) (e : Error) (io : Io A I)
      → peer.takes log ≡ true
      → peer.reply (behind log) k
        ≡ some (ok (ChannelMessage.method (AmqpClass.connection ConnectionMethod.close_ok)))
      → io.inner.outbuf.sealed ≡ false
      → (close_impl A C peer reply_success (live (ok tt) log k frame_max)
          ≡ (ok tt, ended log k frame_max))
        × (close_impl A C peer reply_success (live (err e) log k frame_max)
            ≡ (err e, ended log k frame_max))
        × (close_impl A C peer reply_success (live panicked log k frame_max)
            ≡ (err io_thread_panic, ended log k frame_max))
        × (close_impl A C peer reply_success (ended log k frame_max)
            ≡ (ok tt, ended log k frame_max))
        × (((handle_channel0_readable A I
                (IoLoopMessage.connection_close close_bytes ∷ [])
                false
                io).1
              ).inner.outbuf
            ≡ record { buf = io.inner.outbuf.buf ++ close_bytes; sealed = true })
  unfolding close_impl joined handle_channel0_readable process_channel_message seal_writes append
      seal
  close_impl-outcome I log k frame_max e io taken reply open_ = (
    closes (ok tt) log k frame_max taken reply,
    closes (err e) log k frame_max taken reply,
    closes panicked log k frame_max taken reply,
    refl,
    rw open_ refl,
  )
