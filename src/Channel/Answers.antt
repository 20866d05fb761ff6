-- ===== src/Channel/Answers.antt =====
-- The acknowledgements of deliveries, over the right channel and over a wrong one.
use amiquip.Prelude.{ℕ, ◌≡◌, ◌≢◌, refl, ◌==◌, Bool, true, false, List, [], ◌∷◌, ◌++◌, arith}
use amiquip.Errors.{Result, ok, panicked}
use amiquip.Protocol.{Amqp, AmqpClass, BasicMethod}
use amiquip.Content.{Delivery}
use amiquip.Serialize.{Codec}
use amiquip.ChannelHandle.{IoLoopMessage, Peer}
use amiquip.Channel.{Channel, call_nowait, basic_ack, basic_nack, basic_reject}
use amiquip.Channel.Acknowledge.{ack, ack_multiple, nack, nack_multiple, reject, consumer_reject}
use amiquip.Channel.Calls.{waiting, method_message, call_nowait-taken}

module _ (A : Amqp) (C : Codec A) (peer : Peer A) where
  module _ (d : Delivery A) (requeue : Bool) (n : ℕ) (log : List IoLoopMessage) (k frame_max : ℕ)
      (closed : Bool) where
    abbrev pub answer_sent : BasicMethod A → Result (Unit {0}) × Channel
    answer_sent m = (
      ok tt,
      waiting A C peer n (log ++ method_message A C peer n (AmqpClass.basic m) ∷ []) k frame_max
          closed,
    )

    sends :
        (m : BasicMethod A)
        → peer.takes log ≡ true
        → call_nowait A C peer (AmqpClass.basic m) (waiting A C peer n log k frame_max closed)
          ≡ answer_sent m
    sends m = call_nowait-taken A C peer n log k frame_max closed (AmqpClass.basic m)

    answers-own :
        d.channel_id ≡ n
        → peer.takes log ≡ true
        → let c = waiting A C peer n log k frame_max closed in
          let tag = d.delivery_tag in
          (ack A C peer d c
            ≡ answer_sent (BasicMethod.ack (record { delivery_tag = tag; multiple = false })))
          × (ack_multiple A C peer d c
              ≡ answer_sent (BasicMethod.ack (record { delivery_tag = tag; multiple = true })))
          × (nack A C peer d requeue c
              ≡ answer_sent (
                  BasicMethod.nack
                    (record { delivery_tag = tag; multiple = false; requeue = requeue })))
          × (nack_multiple A C peer d requeue c
              ≡ answer_sent (
                  BasicMethod.nack
                    (record { delivery_tag = tag; multiple = true; requeue = requeue })))
          × (reject A C peer d requeue c
              ≡ answer_sent (BasicMethod.reject (record { delivery_tag = tag; requeue = requeue })))
    unfolding ack ack_multiple nack nack_multiple reject basic_ack basic_nack basic_reject
    answers-own own taken =
        let same : (d.channel_id == n) ≡ true = ground arith in
        rw same (sends _ taken, sends _ taken, sends _ taken, sends _ taken, sends _ taken)

    answers-other :
        d.channel_id ≢ n
        → peer.takes log ≡ true
        → let c = waiting A C peer n log k frame_max closed in
          (ack A C peer d c ≡ (panicked, c))
          × (ack_multiple A C peer d c ≡ (panicked, c))
          × (nack A C peer d requeue c ≡ (panicked, c))
          × (nack_multiple A C peer d requeue c ≡ (panicked, c))
          × (reject A C peer d requeue c ≡ (panicked, c))
          × (consumer_reject A C peer d requeue c
              ≡ answer_sent (
                  BasicMethod.reject (record { delivery_tag = d.delivery_tag; requeue = requeue })))
    unfolding ack ack_multiple nack nack_multiple reject consumer_reject basic_reject
    answers-other other taken =
        let differ : (d.channel_id == n) ≡ false = ground arith in
        rw differ (refl, refl, refl, refl, refl, sends _ taken)

    -- While the I/O thread takes messages, a delivery whose channel id is that of this channel is
    -- answered by exactly the one method with its delivery tag: an ack or a nack, with the flag
    -- `multiple` from the `_multiple` variants only, or a reject. A delivery with another channel
    -- id cannot be answered here: every one of its methods panics and sends nothing. The `reject`
    -- of a consumer does not compare the ids, and sends the tag of the delivery over this channel.
    -- Only the ids are compared: of another connection, or of a channel that had the id before, a
    -- delivery counts as one of this channel.
    pub delivery-answers :
        peer.takes log ≡ true
        → (d.channel_id ≡ n
            → let c = waiting A C peer n log k frame_max closed in
              let tag = d.delivery_tag in
              (ack A C peer d c
                ≡ answer_sent (BasicMethod.ack (record { delivery_tag = tag; multiple = false })))
              × (ack_multiple A C peer d c
                  ≡ answer_sent (BasicMethod.ack (record { delivery_tag = tag; multiple = true })))
              × (nack A C peer d requeue c
                  ≡ answer_sent (
                      BasicMethod.nack
                        (record { delivery_tag = tag; multiple = false; requeue = requeue })))
              × (nack_multiple A C peer d requeue c
                  ≡ answer_sent (
                      BasicMethod.nack
                        (record { delivery_tag = tag; multiple = true; requeue = requeue })))
              × (reject A C peer d requeue c
                  ≡ answer_sent
                      (BasicMethod.reject (record { delivery_tag = tag; requeue = requeue }))))
          × (d.channel_id ≢ n
              → let c = waiting A C peer n log k frame_max closed in
                (ack A C peer d c ≡ (panicked, c))
                × (ack_multiple A C peer d c ≡ (panicked, c))
                × (nack A C peer d requeue c ≡ (panicked, c))
                × (nack_multiple A C peer d requeue c ≡ (panicked, c))
                × (reject A C peer d requeue c ≡ (panicked, c))
                × (consumer_reject A C peer d requeue c
                    ≡ answer_sent (
                        BasicMethod.reject
                          (record { delivery_tag = d.delivery_tag; requeue = requeue }))))
    delivery-answers taken = (λ own. answers-own own taken, λ other. answers-other other taken)
