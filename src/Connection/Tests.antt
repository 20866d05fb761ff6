-- ===== src/Connection/Tests.antt =====
-- A server that opens channels, and answers a close.
use amiquip.Prelude.{ℕ, none, ◌+◌, ◌≤◌, ◌≡◌, refl, true, false, [], ◌∷◌, some}
use amiquip.Errors.{Result, ok, exhausted_channel_ids}
use amiquip.IndexSet.{list_set}
use amiquip.Protocol.{AmqpClass, ChannelMethod, ConnectionMethod, Tune}
use amiquip.Auth.{auth_sasl, default_auth}
use amiquip.ConnectionOptions.{ConnectionOptions, make_tune_ok}
use amiquip.ConnectionOptions.Builder
use amiquip.Serialize.Plain.{plain_amqp, plain_codec}
use amiquip.Inner.{ChannelMessage, ConnectionState, Io}
use amiquip.ChannelHandle.{Peer}
use amiquip.Connection.{Channel0Handle, close_impl, open_channel, new, frame_overhead}
use amiquip.Connection.Closing.{live, ended, close_impl-outcome}
use amiquip.ChannelSlots
use amiquip.HashMap
use amiquip.IoLoop.Allocating.{Allocator}
use amiquip.Connection.Opening.{make_tune_ok-room}
use amiquip.Connection.Allocated.{io_thread, opened_for, open_channel-allocate_one}

abbrev closing : Peer plain_amqp
closing = record {
  takes = λ log. true;
  reply =
      λ log k. some (ok (ChannelMessage.method (AmqpClass.connection ConnectionMethod.close_ok)));
}

abbrev opening : Peer plain_amqp
opening = record {
  takes = λ log. true;
  reply = λ log k. some (ok (ChannelMessage.method (AmqpClass.channel (ChannelMethod.open_ok 0))));
}

io : Io plain_amqp list_set
unfolding list_set
io = record {
  state = ConnectionState.client_closed;
  inner = record {
    outbuf = record { buf = 9 ∷ []; sealed = false };
    chan_slots = record {
      slots = record { entries = [] };
      freed_channel_ids = [];
      next_channel_id = 1;
      channel_max = 10;
    };
    log = [];
    next_sender = 40;
  };
}

close_impl-outcome_example :
    close_impl plain_amqp plain_codec closing 200
      (live plain_amqp plain_codec closing 200 (ok tt) [] 0 4088)
    ≡ (ok tt, ended plain_amqp plain_codec closing 200 [] 0 4088)
unfolding io
close_impl-outcome_example =
    (close_impl-outcome plain_amqp plain_codec closing 200 list_set [] 0 4088 exhausted_channel_ids
      io refl refl refl).0

abbrev main : Channel0Handle
main = record {
  handle = record { channel_id = 0; buf = []; sent = []; received = 0 };
  frame_max = 4088;
}

abbrev polls : ℕ → Result (Unit {0})
polls id = ok tt

abbrev idle : Allocator plain_amqp list_set
idle = record { io = io; replies = []; channels_are_registered = true }

open_channel-allocate_one_example :
    open_channel plain_amqp plain_codec opening
      (io_thread plain_amqp plain_codec list_set opening polls polls idle)
      (some 3)
      main
    ≡ (opened_for plain_amqp plain_codec list_set opening polls polls idle 4088 (ok 3), main)
unfolding io list_set ChannelSlots.get HashMap.get
open_channel-allocate_one_example =
    (open_channel-allocate_one plain_amqp plain_codec list_set opening polls polls idle none 3 0
      main refl (λ n. refl) refl refl).1

abbrev offer : Tune
offer = record { channel_max = 2047; frame_max = 131072; heartbeat = 60 }

unfoldable options : ConnectionOptions auth_sasl
unfolding Builder.default
options = Builder.default default_auth

make_tune_ok-room_example :
    (c : Channel0Handle) × (new main.handle 131072 ≡ ok c)
    × (4088 ≤ c.frame_max)
    × (c.frame_max + frame_overhead ≡ 131072)
unfolding options Builder.default make_tune_ok
make_tune_ok-room_example =
    make_tune_ok-room options offer
      (record { channel_max = 2047; frame_max = 131072; heartbeat = 60 }) main.handle refl refl
