-- ===== src/Channel/Publishing.antt =====
-- `basic_publish`, from the method to the last body frame.
use amiquip.Prelude.{
  ℕ, suc, ◌≡◌, ◌∙◌, ap, ◌≤◌, true, false, String, List, [], ◌∷◌, ◌++◌, map, append_assoc, length,
  arith,
}
use amiquip.Errors.{Result, ok}
use amiquip.Exec.{then_call}
use amiquip.Protocol.{Amqp, AmqpClass, BasicMethod}
use amiquip.Serialize.{Codec}
use amiquip.Options.{Publish}
use amiquip.ChannelHandle.{IoLoopMessage, Peer, send_content}
use amiquip.ChannelHandle.SendContent.{IsCut, header_message, body_message, send_content-Sends}
use amiquip.Channel.{Channel, on_handle, basic_class, basic_publish}
use amiquip.Channel.Calls.{waiting, method_message, call_nowait-taken}

module _ (A : Amqp) (C : Codec A) (peer : Peer A)
    (all : (log : List IoLoopMessage) → peer.takes log ≡ true) where
  abbrev pub publish_method : String → Publish A → AmqpClass A
  publish_method exchange publish = AmqpClass.basic (
      BasicMethod.publish (record {
        ticket = 0;
        exchange = exchange;
        routing_key = publish.routing_key;
        mandatory = publish.mandatory;
        immediate = publish.immediate;
      }))

  -- What a published message is on its way to the I/O thread.
  abbrev pub message_frames : ℕ → String → Publish A → List (List ℕ) → List IoLoopMessage
  message_frames n exchange publish pieces =
      method_message A C peer n (publish_method exchange publish)
      ∷ header_message A C peer all n basic_class (length publish.body) publish.properties
      ∷ map (body_message A C peer all n) pieces

  pub record Publishes (n : ℕ) (log : List IoLoopMessage) (k frame_max : ℕ) (exchange : String)
      (publish : Publish A) (r : Result (Unit {0}) × Channel) : Type 0 where
    pub pieces : List (List ℕ)
    pub cut : IsCut frame_max publish.body pieces
    pub outcome : r ≡ (
      ok tt,
      waiting A C peer n (log ++ message_frames n exchange publish pieces) k frame_max false,
    )

  -- While the I/O thread takes every message, and a frame has room for content, publishing on an
  -- open channel returns, and what it sends is the publish method with the routing key and the
  -- flags of the message, one content header with the length of the body and the properties, and
  -- then body frames that make up the body in its order, none of them empty and all but the last
  -- of the full size.
  pub basic_publish-Publishes :
      (n : ℕ) (log : List IoLoopMessage) (k frame_max : ℕ) (exchange : String) (publish : Publish A)
      → 1 ≤ frame_max
      → Publishes n log k frame_max exchange publish
          (basic_publish A C peer exchange publish (waiting A C peer n log k frame_max false))
  unfolding basic_publish
  basic_publish-Publishes n log k frame_max exchange publish room =
      let log' = log ++ method_message A C peer n (publish_method exchange publish) ∷ [] in
      let sends =
        send_content-Sends A C peer all (suc (length publish.body)) frame_max publish.body
          basic_class publish.properties n log' k room (omega arith) in
      let header =
        header_message A C peer all n basic_class (length publish.body) publish.properties in
      record {
        pieces = sends.pieces;
        cut = sends.cut;
        outcome =
            ap
              (λ r. then_call r (λ _. on_handle A C peer (
                send_content A C peer (suc (length publish.body)) frame_max publish.body basic_class
                  publish.properties)))
              (call_nowait-taken A C peer n log k frame_max false (publish_method exchange publish)
                (all log))
            ∙ ap (λ (r, h). (r, record { inner = h; frame_max = frame_max; closed = false }))
                sends.outcome
            ∙ ap (λ l. (ok tt, waiting A C peer n l k frame_max false))
                (ap (λ l. l ++ map (body_message A C peer all n) sends.pieces)
                    (append_assoc log
                      (method_message A C peer n (publish_method exchange publish) ∷ [])
                      (header ∷ []))
                  ∙ append_assoc log
                      (method_message A C peer n (publish_method exchange publish) ∷ header ∷ [])
                      (map (body_message A C peer all n) sends.pieces));
      }
