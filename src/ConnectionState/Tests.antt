-- ===== src/ConnectionState/Tests.antt =====
-- Frames at a concrete connection: two channels, a consumer on the first.
use amiquip.Prelude.{ℕ, ◌+◌, ◌≡◌, true, false, [], ◌∷◌, none, arith}
use amiquip.IndexSet.{list_set}
use amiquip.Protocol.{AmqpFrame, AmqpClass, BasicMethod, ConnectionMethod}
use amiquip.ContentCollector.{new}
use amiquip.Serialize.Plain.{plain_amqp, plain_codec}
use amiquip.Inner.{ChannelSlot, ConnectionState, Env, Io, sent}
use amiquip.ConnectionState.{process, process_all}
use amiquip.ConnectionState.Isolation.{channel_of, slot_at, process-isolated}
use amiquip.ConnectionState.Advances.{Advances}
use amiquip.ConnectionState.Closing.{process_all-Advances}

abbrev env : Env plain_amqp
env = record {
  try_send = λ log n. sent;
  takes = λ log n. true;
  not_implemented = 540;
  not_allowed = 530;
  unhandled = λ n class. "unhandled";
  illegal = λ n class. "illegal";
  illegal_frame = λ frame. "frame";
}

slot : ℕ → ℕ → ChannelSlot plain_amqp
slot n tx = record {
  tx = tx;
  collector = new plain_amqp n;
  consumers = record { entries = ("tag", tx + 1) ∷ [] };
  return_handler = none;
  pub_confirm_handler = none;
}

io : Io plain_amqp list_set
unfolding list_set
io = record {
  state = ConnectionState.steady (record { common = slot 0 10; blocked_tx = none });
  inner = record {
    outbuf = record { buf = []; sealed = false };
    chan_slots = record {
      slots = record { entries = (1, slot 1 20) ∷ (2, slot 2 30) ∷ [] };
      freed_channel_ids = [];
      next_channel_id = 3;
      channel_max = 10;
    };
    log = [];
    next_sender = 40;
  };
}

abbrev deliver : AmqpFrame plain_amqp
deliver = AmqpFrame.method 1 (
    AmqpClass.basic (
      BasicMethod.deliver (record {
        consumer_tag = "tag";
        delivery_tag = 1;
        redelivered = false;
        exchange = "";
        routing_key = "key";
      })))

abbrev header : AmqpFrame plain_amqp
header = AmqpFrame.header 1 60 (record { body_size = 2; properties = 0 })

abbrev close : AmqpFrame plain_amqp
close = AmqpFrame.method 0 (
    AmqpClass.connection (
      ConnectionMethod.close
        (record { reply_code = 320; reply_text = "bye"; class_id = 0; method_id = 0 })))

process-isolated_example :
    slot_at plain_amqp list_set plain_codec env
      ((process plain_amqp list_set plain_codec env deliver io).1)
      2
    ≡ slot_at plain_amqp list_set plain_codec env io 2
process-isolated_example =
    process-isolated plain_amqp list_set plain_codec env io deliver 2
      (unfold channel_of in omega arith) (unfold channel_of in omega arith)

process_all-Advances_example : Advances plain_amqp list_set plain_codec env io (
    (process_all plain_amqp list_set plain_codec env
      (deliver ∷ header ∷ AmqpFrame.body 1 (7 ∷ 8 ∷ []) ∷ close ∷ [])
      io).1)
process_all-Advances_example =
    process_all-Advances plain_amqp list_set plain_codec env
      (deliver ∷ header ∷ AmqpFrame.body 1 (7 ∷ 8 ∷ []) ∷ close ∷ []) io
