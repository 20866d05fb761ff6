-- ===== src/Channel/Calls.antt =====
-- What a call on a channel sends, and what it returns, by what the I/O thread takes and answers.
use amiquip.Prelude.{ℕ, suc, ◌≡◌, refl, ap, Bool, true, false, List, [], ◌∷◌, ◌++◌, none, some}
use amiquip.Errors.{Error, ok, err, event_loop_dropped}
use amiquip.Protocol.{Amqp, AmqpClass}
use amiquip.Serialize.{Codec}
use amiquip.Serialize.Append.{push_method-append}
use amiquip.Serialize.Conversions.{Expected, Value, wrap, try_from-wrap}
use amiquip.Inner.{ChannelMessage}
use amiquip.ChannelHandle
use amiquip.ChannelHandle.{
  IoLoopMessage, IoLoopHandle, Peer, send_message, make_buf, call_message, check_recv_for_error,
  received_or, error_of, recv, method_reply, drained,
}
use amiquip.Channel.{Channel, basic_class, basic_publish}
use amiquip.Channel

module _ (A : Amqp) (C : Codec A) (peer : Peer A) where
  abbrev pub method_message : ℕ → AmqpClass A → IoLoopMessage
  method_message n class = IoLoopMessage.send (C.method_bytes n class)

  -- A channel between two calls: nothing is left in the buffer of its handle.
  abbrev pub waiting : ℕ → List IoLoopMessage → ℕ → ℕ → Bool → Channel
  waiting n log k frame_max closed = record {
    inner = record { channel_id = n; buf = []; sent = log; received = k };
    frame_max = frame_max;
    closed = closed;
  }

  make_buf-waiting :
      (class : AmqpClass A) (n : ℕ) (log : List IoLoopMessage) (k : ℕ)
      → make_buf A C peer class (record { channel_id = n; buf = []; sent = log; received = k }) ≡ (
        ok (C.method_bytes n class),
        record { channel_id = n; buf = []; sent = log; received = k },
      )
  unfolding make_buf
  make_buf-waiting class n log k =
      ap (λ r. drained A C peer r (record { channel_id = n; buf = []; sent = log; received = k }))
        (push_method-append A C [] n class)

  module _ (n : ℕ) (log : List IoLoopMessage) (k frame_max : ℕ) (closed : Bool) where
    abbrev pub before : Channel
    before = waiting n log k frame_max closed

    abbrev pub behind : AmqpClass A → List IoLoopMessage
    behind class = log ++ method_message n class ∷ []

    pub call_nowait-taken :
        (class : AmqpClass A)
        → peer.takes log ≡ true
        → Channel.call_nowait A C peer class before
          ≡ (ok tt, waiting n (behind class) k frame_max closed)
    unfolding Channel.call_nowait ChannelHandle.call_nowait send_message
    call_nowait-taken class taken = rw (make_buf-waiting class n log k, taken) refl

    module _ (x : Expected) (class : AmqpClass A) where
      call-value :
          (v : Value A x)
          → peer.takes log ≡ true
          → peer.reply (behind class) k ≡ some (ok (ChannelMessage.method (wrap A x v)))
          → Channel.call A C peer x class before
            ≡ (ok v, waiting n (behind class) (suc k) frame_max closed)
      unfolding Channel.call ChannelHandle.call call_message send_message recv received_or
          method_reply
      call-value v taken reply =
          rw (make_buf-waiting class n log k, taken, reply, try_from-wrap A x v) refl

      call-error :
          (e : Error)
          → peer.takes log ≡ true
          → peer.reply (behind class) k ≡ some (err e)
          → Channel.call A C peer x class before
            ≡ (err e, waiting n (behind class) (suc k) frame_max closed)
      unfolding Channel.call ChannelHandle.call call_message send_message recv received_or
      call-error e taken reply = rw (make_buf-waiting class n log k, taken, reply) refl

      call-dropped :
          peer.takes log ≡ true
          → peer.reply (behind class) k ≡ none
          → Channel.call A C peer x class before
            ≡ (err event_loop_dropped, waiting n (behind class) k frame_max closed)
      unfolding Channel.call ChannelHandle.call call_message send_message recv received_or
      call-dropped taken reply = rw (make_buf-waiting class n log k, taken, reply) refl

      refused_with :
          (e : Error)
          → peer.takes log ≡ false
          → peer.reply log k ≡ some (err e)
          → (Channel.call A C peer x class before ≡ (err e, waiting n log (suc k) frame_max closed))
            × (Channel.call_nowait A C peer class before
                ≡ (err e, waiting n log (suc k) frame_max closed))
      unfolding Channel.call Channel.call_nowait ChannelHandle.call ChannelHandle.call_nowait
          call_message send_message check_recv_for_error recv received_or error_of
      refused_with e refused left = (
        rw (make_buf-waiting class n log k, refused, left) refl,
        rw (make_buf-waiting class n log k, refused, left) refl,
      )

      refused_alone :
          peer.takes log ≡ false
          → peer.reply log k ≡ none
          → (Channel.call A C peer x class before
              ≡ (err event_loop_dropped, waiting n log k frame_max closed))
            × (Channel.call_nowait A C peer class before
                ≡ (err event_loop_dropped, waiting n log k frame_max closed))
      unfolding Channel.call Channel.call_nowait ChannelHandle.call ChannelHandle.call_nowait
          call_message send_message check_recv_for_error recv received_or error_of
      refused_alone refused left = (
        rw (make_buf-waiting class n log k, refused, left) refl,
        rw (make_buf-waiting class n log k, refused, left) refl,
      )

      -- Where the I/O thread takes the message of a call, the frame of its method is all that is
      -- sent, and the call returns what comes back: the value inside a method of the expected type,
      -- the error that the I/O thread sent in its place, and `event_loop_dropped` where the I/O
      -- thread is gone. Where the thread no longer takes messages, a call, with or without an
      -- answer, sends nothing, and returns the error that the thread left behind, or
      -- `event_loop_dropped` if it left none.
      pub call-outcomes :
          (v : Value A x) (e : Error)
          → (peer.takes log ≡ true
              → (peer.reply (behind class) k ≡ some (ok (ChannelMessage.method (wrap A x v)))
                  → Channel.call A C peer x class before
                    ≡ (ok v, waiting n (behind class) (suc k) frame_max closed))
                × (peer.reply (behind class) k ≡ some (err e)
                    → Channel.call A C peer x class before
                      ≡ (err e, waiting n (behind class) (suc k) frame_max closed))
                × (peer.reply (behind class) k ≡ none
                    → Channel.call A C peer x class before
                      ≡ (err event_loop_dropped, waiting n (behind class) k frame_max closed)))
            × (peer.takes log ≡ false
                → (peer.reply log k ≡ some (err e)
                    → (Channel.call A C peer x class before
                        ≡ (err e, waiting n log (suc k) frame_max closed))
                      × (Channel.call_nowait A C peer class before
                          ≡ (err e, waiting n log (suc k) frame_max closed)))
                  × (peer.reply log k ≡ none
                      → (Channel.call A C peer x class before
                          ≡ (err event_loop_dropped, waiting n log k frame_max closed))
                        × (Channel.call_nowait A C peer class before
                            ≡ (err event_loop_dropped, waiting n log k frame_max closed))))
      call-outcomes v e = (
        λ taken. (call-value v taken, call-error e taken, call-dropped taken),
        λ refused. (refused_with e refused, refused_alone refused),
      )
