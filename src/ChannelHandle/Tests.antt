-- ===== src/ChannelHandle/Tests.antt =====
-- Content of five bytes over frames with room for two.
use amiquip.Prelude.{ℕ, refl, true, List, [], ◌∷◌, none, arith}
use amiquip.Serialize.Plain.{plain_amqp, plain_codec}
use amiquip.ChannelHandle.{Peer, send_content}
use amiquip.ChannelHandle.SendContent.{Sends, idle, header_message, send_content-Sends}

abbrev peer : Peer plain_amqp
peer = record { takes = λ log. true; reply = λ log k. none }

abbrev five : List ℕ
five = 1 ∷ 2 ∷ 3 ∷ 4 ∷ 5 ∷ []

send_content-Sends_example :
    Sends plain_amqp plain_codec peer
      (λ log. refl)
      7
      (header_message plain_amqp plain_codec peer (λ log. refl) 7 60 5 0 ∷ [])
      0
      2
      five
      (send_content plain_amqp plain_codec peer 6 2 five 60 0
        (idle plain_amqp plain_codec peer (λ log. refl) 7 [] 0))
send_content-Sends_example =
    send_content-Sends plain_amqp plain_codec peer (λ log. refl) 6 2 five 60 0 7 [] 0 (omega arith)
      (omega arith)
