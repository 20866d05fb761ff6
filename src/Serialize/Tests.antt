-- ===== src/Serialize/Tests.antt =====
-- Pushes at a concrete codec and buffer.
use amiquip.Prelude.{◌≡◌, [], ◌∷◌, ◌++◌}
use amiquip.Errors.{ok}
use amiquip.Protocol.{AmqpClass}
use amiquip.Serialize.{
  push_heartbeat, push_method, push_content_header, push_content_body, with_protocol_header,
}
use amiquip.Serialize.Append.{pushes-append}
use amiquip.Serialize.Plain.{plain_amqp, plain_codec}

abbrev tx_class : AmqpClass plain_amqp
tx_class = AmqpClass.tx 0

pushes-append_example :
    (push_heartbeat plain_amqp plain_codec with_protocol_header
      ≡ ok (with_protocol_header ++ (8 ∷ 0 ∷ 206 ∷ [])))
    × (push_method plain_amqp plain_codec with_protocol_header 7 tx_class
        ≡ ok (with_protocol_header ++ (1 ∷ 7 ∷ 206 ∷ [])))
    × (push_content_header plain_amqp plain_codec with_protocol_header 7 60 2 0
        ≡ ok (with_protocol_header ++ (2 ∷ 7 ∷ 2 ∷ 206 ∷ [])))
    × (push_content_body plain_amqp plain_codec with_protocol_header 7 (5 ∷ 6 ∷ [])
        ≡ ok (with_protocol_header ++ (3 ∷ 7 ∷ 5 ∷ 6 ∷ [])))
pushes-append_example =
    pushes-append plain_amqp plain_codec with_protocol_header (5 ∷ 6 ∷ []) 7 60 2 tx_class 0
