-- ===== src/Channel/Tests.antt =====
-- Runs of calls on a channel.
use amiquip.Prelude.{◌≡◌, refl, true, false, [], none, some, leb, if◌then◌else◌}
use amiquip.Errors.{ok, exhausted_channel_ids}
use amiquip.Protocol.{AmqpClass, BasicMethod, ConfirmMethod}
use amiquip.Content.{Delivery}
use amiquip.Serialize.Plain.{plain_amqp, plain_codec}
use amiquip.Serialize.Conversions.{Value, confirm_select_ok, wrap}
use amiquip.Inner.{ChannelMessage}
use amiquip.ChannelHandle.{Peer}
use amiquip.Channel.{Channel, call}
use amiquip.Channel.Acknowledge.{ack}
use amiquip.Channel.Calls.{waiting, behind, call-outcomes}
use amiquip.Channel.Answers.{delivery-answers, answer_sent}

-- It takes every message, and the first answer is to `Confirm.Select`.
abbrev peer : Peer plain_amqp
peer = record {
  takes = λ log. true;
  reply = λ log k.
      if leb 1 k
      then none
      else some (ok (ChannelMessage.method (AmqpClass.confirm (ConfirmMethod.select_ok 0))));
}

abbrev select : AmqpClass plain_amqp
select = AmqpClass.confirm (ConfirmMethod.select false)

abbrev fresh : Channel
fresh = waiting plain_amqp plain_codec peer 7 [] 0 2 false

unfoldable selected : Value plain_amqp confirm_select_ok
unfolding Value
selected = 0

call-outcomes_example : call plain_amqp plain_codec peer confirm_select_ok select fresh ≡ (
  ok selected,
  waiting plain_amqp plain_codec peer 7
      (behind plain_amqp plain_codec peer 7 [] 0 2 false select)
      1
      2
      false,
)
unfolding selected Value wrap
call-outcomes_example =
    ((call-outcomes plain_amqp plain_codec peer 7 [] 0 2 false confirm_select_ok select selected
          exhausted_channel_ids).0
        refl).0
      refl

abbrev received : Delivery plain_amqp
received = record {
  channel_id = 7;
  delivery_tag = 12;
  redelivered = false;
  exchange = "";
  routing_key = "hello";
  body = [];
  properties = 0;
}

delivery-answers_example :
    ack plain_amqp plain_codec peer received fresh
    ≡ answer_sent plain_amqp plain_codec peer received false 7 [] 0 2 false
        (BasicMethod.ack (record { delivery_tag = 12; multiple = false }))
delivery-answers_example =
    ((delivery-answers plain_amqp plain_codec peer received false 7 [] 0 2 false refl).0 refl).0
