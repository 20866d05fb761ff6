-- ===== src/IoLoop/Tests.antt =====
-- A connection with channel 1, and a client that publishes on it.
use amiquip.Prelude.{
  ℕ, ◌≡◌, refl, true, false, List, [], ◌∷◌, none, some, length, ◌<◌, ℕ_discrete, arith,
}
use amiquip.HashMap
use amiquip.IndexSet.{list_set}
use amiquip.ChannelSlots
use amiquip.Errors.{ok}
use amiquip.Protocol.{AmqpFrame, AmqpClass, ConnectionMethod}
use amiquip.Serialize.Plain.{plain_amqp, plain_codec}
use amiquip.Inner.{ChannelSlot, ConnectionState, Env, Io, sent}
use amiquip.Options.{Publish}
use amiquip.ConnectionState.{process_all}
use amiquip.ConnectionState.Advances.{said_last}
use amiquip.ChannelHandle.{Peer, IoLoopMessage}
use amiquip.IoLoop.{Polling, end_of_round, watermarks, handle_channel_readable, is_connection_done}
use amiquip.IoLoop.Messages.{Handles, handle_channel_readable-Handles}
use amiquip.IoLoop.Publishing.{Arrives, basic_publish-Arrives}
use amiquip.IoLoop.Ending.{done, is_connection_done-total}
use amiquip.IoLoop.Watermarks.{end_of_round-bounds}
use amiquip.IoLoop.Allocating.{Allocator, allocate_one}
use amiquip.IoLoop.Allocating.Answered.{Answered, allocate_one-Answered}

abbrev slot : ℕ → ℕ → ChannelSlot plain_amqp
slot n tx = record {
  tx = tx;
  collector = record { channel_id = n; kind = none };
  consumers = record { entries = [] };
  return_handler = none;
  pub_confirm_handler = none;
}

io : Io plain_amqp list_set
unfolding list_set
io = record {
  state = ConnectionState.steady (record { common = slot 0 10; blocked_tx = none });
  inner = record {
    outbuf = record { buf = 9 ∷ []; sealed = false };
    chan_slots = record {
      slots = record { entries = (1, slot 1 20) ∷ [] };
      freed_channel_ids = [];
      next_channel_id = 2;
      channel_max = 10;
    };
    log = [];
    next_sender = 40;
  };
}

abbrev messages : List IoLoopMessage
messages =
    IoLoopMessage.set_return_handler (some 7)
    ∷ IoLoopMessage.send (1 ∷ 2 ∷ [])
    ∷ IoLoopMessage.connection_close (3 ∷ [])
    ∷ IoLoopMessage.send (4 ∷ [])
    ∷ []

handle_channel_readable-Handles_example :
    Handles plain_amqp list_set 1
      (slot 1 20)
      messages
      true
      io
      (handle_channel_readable plain_amqp list_set 1 messages true io)
unfolding io ChannelSlots.get HashMap.get ℕ_discrete
handle_channel_readable-Handles_example =
    handle_channel_readable-Handles plain_amqp list_set 0 messages true (slot 1 20) io refl

abbrev peer : Peer plain_amqp
peer = record { takes = λ log. true; reply = λ log k. none }

abbrev message : Publish plain_amqp
message = record {
  body = 1 ∷ 2 ∷ 3 ∷ [];
  routing_key = "hello";
  mandatory = false;
  immediate = false;
  properties = 0;
}

basic_publish-Arrives_example :
    Arrives plain_amqp plain_codec peer (λ log. refl) list_set 1 [] 0 2 "" message io
unfolding io ChannelSlots.get HashMap.get ℕ_discrete
basic_publish-Arrives_example =
    basic_publish-Arrives plain_amqp plain_codec peer (λ log. refl) list_set 0 [] 0 2 "" message
      (slot 1 20) io (omega arith) refl refl

abbrev env : Env plain_amqp
env = record {
  try_send = λ log n. sent;
  takes = λ log n. true;
  not_implemented = 540;
  not_allowed = 530;
  unhandled = λ n class. "unhandled";
  illegal = λ n class. "illegal";
  illegal_frame = λ frame. "frame";
}

abbrev close : List (AmqpFrame plain_amqp)
close =
    AmqpFrame.method 0 (
      AmqpClass.connection (
        ConnectionMethod.close
          (record { reply_code = 320; reply_text = "bye"; class_id = 0; method_id = 0 })))
    ∷ []

abbrev closed : Io plain_amqp list_set
closed = (process_all plain_amqp list_set plain_codec env close io).1

is_connection_done-total_example :
    is_connection_done plain_amqp list_set closed
    ≡ ok (done plain_amqp list_set plain_codec env closed.state closed.inner.outbuf.buf)
unfolding io said_last
is_connection_done-total_example =
    is_connection_done-total plain_amqp list_set plain_codec env close io refl

abbrev polling : Polling
polling = record { listening_to_channels = true; have_written_to_socket = true }

abbrev queued : List ℕ
queued = 1 ∷ 2 ∷ 3 ∷ []

end_of_round-bounds_example : 1 < length queued
unfolding end_of_round watermarks
end_of_round-bounds_example = (end_of_round-bounds 2 1 true queued polling (omega arith)).1 refl

abbrev allocator : Allocator plain_amqp list_set
allocator = record { io = io; replies = []; channels_are_registered = true }

allocate_one-Answered_example :
    Answered plain_amqp list_set
      (λ id. ok tt)
      (λ id. ok tt)
      (λ replies. false)
      allocator
      ((allocate_one plain_amqp list_set
        (λ id. ok tt)
        (λ id. ok tt)
        (λ replies. false)
        (some 5)
        allocator).1)
unfolding allocate_one ChannelSlots.insert io HashMap.get ℕ_discrete
allocate_one-Answered_example =
    allocate_one-Answered plain_amqp list_set (λ id. ok tt) (λ id. ok tt) (λ replies. false)
      (some 5) allocator (unfold io in omega arith) (λ id. tt) (λ id. tt) refl
