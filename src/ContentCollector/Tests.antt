-- ===== src/ContentCollector/Tests.antt =====
-- A message at concrete frames.
use amiquip.Prelude.{ℕ, ◌≡◌, refl, false, [], ◌∷◌, none, some, arith}
use amiquip.Errors.{ok}
use amiquip.Protocol.{Amqp, Deliver, ContentHeader}
use amiquip.ContentCollector.{ContentCollector, collect_header, collect_body, begin}
use amiquip.ContentCollector.Assembly.{deliver, message, by_size, receive, feed, receive-by_size}

abbrev amqp : Amqp
amqp = record { Properties = ℕ; FieldTable = ℕ; Payload = ℕ }

abbrev greeting : Deliver
greeting = record {
  consumer_tag = "c";
  delivery_tag = 1;
  redelivered = false;
  exchange = "";
  routing_key = "r";
}

abbrev of_size : ℕ → ContentHeader amqp
of_size n = record { body_size = n; properties = 7 }

abbrev idle : ContentCollector amqp
idle = record { channel_id = 1; kind = none }

two_pieces :
    receive amqp idle (deliver greeting) (of_size 3) ((1 ∷ 2 ∷ []) ∷ (3 ∷ []) ∷ [])
    ≡ (ok (some (message amqp 1 (deliver greeting) (1 ∷ 2 ∷ 3 ∷ []) 7)), idle)
unfolding receive feed begin collect_header collect_body
two_pieces = refl

receive-by_size_example :
    receive amqp idle (deliver greeting) (of_size 3) ((1 ∷ 2 ∷ []) ∷ (3 ∷ 4 ∷ []) ∷ [])
    ≡ by_size amqp idle (deliver greeting) (of_size 3) (1 ∷ 2 ∷ 3 ∷ 4 ∷ [])
receive-by_size_example =
    receive-by_size amqp idle (deliver greeting) (of_size 3) ((1 ∷ 2 ∷ []) ∷ []) (3 ∷ 4 ∷ []) refl
      (omega arith) (omega arith) (omega arith)
