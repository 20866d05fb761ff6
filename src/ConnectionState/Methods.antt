-- ===== src/ConnectionState/Methods.antt =====
-- `process` of io_loop/connection_state.rs: the methods of the channel class and the basic class, and
-- content.
use amiquip.Prelude.{ℕ, String, List, Option, none, some, string_discrete, if◌then◌else◌}
use amiquip.HashMap
use amiquip.Errors.{
  Result, ok, err, panicked, out_of_fuel, server_closed_channel, duplicate_consumer_tag,
  unknown_consumer_tag,
}
use amiquip.Exec.{pure, fail, ◌>>=◌, ◌>>◌}
use amiquip.IndexSet.{IndexSet}
use amiquip.Protocol.{Amqp, AmqpClass, Close, Cancel, ChannelMethod, BasicMethod, ContentHeader}
use amiquip.Content.{Delivery}
use amiquip.Confirm.{Confirm}
use amiquip.ContentCollector.{
  ContentCollector, CollectorResult, collect_deliver, collect_return, collect_get, collect_header,
  collect_body,
}
use amiquip.Serialize.{Codec}
use amiquip.Inner.{
  ChannelMessage, ConsumerMessage, Event, ChannelSlot, Env, Call, make_sender, slot_get, slot_put,
  slot_remove, push_method, send,
}
use amiquip.ConnectionState.Sending.{
  Step, give, try_send_return, try_send_confirm, send_slot, unhandled, illegal, forward,
}

module _ (A : Amqp) (I : IndexSet) (C : Codec A) (env : Env A) where
  unfoldable pub server_close : ℕ → Close → Step A I C env
  unfolding send_slot
  server_close n close = do
    slot ← slot_remove A I n
    send_slot A I C env (err (server_closed_channel n close.reply_code close.reply_text))
        (ConsumerMessage.server_closed_channel
          (server_closed_channel n close.reply_code close.reply_text))
        slot
    push_method A I C n (AmqpClass.channel ChannelMethod.close_ok)

  unfoldable pub close_found : Result (ChannelSlot A) → Step A I C env
  close_found (ok slot) =
      send_slot A I C env (ok (ChannelMessage.method (AmqpClass.channel ChannelMethod.close_ok)))
        ConsumerMessage.client_closed_channel slot
  close_found (err e) = pure tt
  close_found panicked = give A I C env panicked
  close_found out_of_fuel = give A I C env out_of_fuel

  -- It is no error to get a `CloseOk` for a slot that is gone.
  unfoldable pub server_close_ok : ℕ → Step A I C env
  unfolding close_found send_slot
  server_close_ok n io = let (found, io') = slot_remove A I n io in close_found found io'

  unfoldable pub channel_method : ℕ → ChannelMethod A → Step A I C env
  unfolding server_close server_close_ok forward unhandled illegal
  channel_method n (ChannelMethod.close close) = server_close n close
  channel_method n ChannelMethod.close_ok = server_close_ok n
  channel_method n (ChannelMethod.open_ok p) =
      forward A I C env n (AmqpClass.channel (ChannelMethod.open_ok p))
  channel_method n (ChannelMethod.flow p) =
      unhandled A I C env n (AmqpClass.channel (ChannelMethod.flow p))
  channel_method n (ChannelMethod.flow_ok p) =
      unhandled A I C env n (AmqpClass.channel (ChannelMethod.flow_ok p))
  channel_method n (ChannelMethod.open_ p) =
      illegal A I C env n (AmqpClass.channel (ChannelMethod.open_ p))

  unfoldable pub consume_found : ℕ → ChannelSlot A → String → Option ℕ → Step A I C env
  consume_found n slot consumer_tag (some tx) = fail (duplicate_consumer_tag n consumer_tag)
  consume_found n slot consumer_tag none = do
    tx ← make_sender A I
    slot_put A I n
        (record slot { consumers = HashMap.insert string_discrete slot.consumers consumer_tag tx })
    send A I env (Event.to_client slot.tx (ok (ChannelMessage.consume_ok consumer_tag tx)))

  unfoldable pub consume_ok : ℕ → String → Step A I C env
  unfolding consume_found
  consume_ok n consumer_tag = do
    slot ← slot_get A I n
    consume_found n slot consumer_tag (HashMap.get string_discrete slot.consumers consumer_tag)

  abbrev pub send_some : Option ℕ → ConsumerMessage A → Step A I C env
  send_some none message = pure tt
  send_some (some tx) message = send A I env (Event.to_consumer tx message)

  abbrev without : ChannelSlot A → String → ChannelSlot A
  without slot consumer_tag = record slot {
    consumers = HashMap.remove string_discrete slot.consumers consumer_tag;
  }

  unfoldable pub server_cancel : ℕ → Cancel → Step A I C env
  server_cancel n cancel = do
    slot ← slot_get A I n
    slot_put A I n (without slot cancel.consumer_tag)
    send_some (HashMap.get string_discrete slot.consumers cancel.consumer_tag)
        ConsumerMessage.server_cancelled
    (if cancel.nowait
        then pure tt
        else push_method A I C n (AmqpClass.basic (BasicMethod.cancel_ok cancel.consumer_tag)))

  unfoldable pub client_cancel : ℕ → String → Step A I C env
  client_cancel n consumer_tag = do
    slot ← slot_get A I n
    slot_put A I n (without slot consumer_tag)
    send A I env (
        Event.to_client slot.tx
          (ok (ChannelMessage.method (AmqpClass.basic (BasicMethod.cancel_ok consumer_tag)))))
    send_some (HashMap.get string_discrete slot.consumers consumer_tag)
        ConsumerMessage.client_cancelled

  -- A call of the slot's collector, which may change it on an error as well.
  unfoldable pub collecting :
      {B : Type 0}
      → ℕ
      → (ContentCollector A → Result B × ContentCollector A)
      → Call A I (ChannelSlot A × B)
  collecting n call = do
    slot ← slot_get A I n
    let (outcome, collector) = call slot.collector
    let slot' = record slot { collector = collector }
    slot_put A I n slot'
    collected ← give A I C env outcome
    pure (slot', collected)

  unfoldable pub deliver_to : ℕ → String → Delivery A → Option ℕ → Step A I C env
  deliver_to n consumer_tag delivery none = fail (unknown_consumer_tag n consumer_tag)
  deliver_to n consumer_tag delivery (some tx) =
      send A I env (Event.to_consumer tx (ConsumerMessage.delivery delivery))

  unfoldable pub hand_over : ℕ → ChannelSlot A → Option (CollectorResult A) → Step A I C env
  unfolding try_send_return deliver_to
  hand_over n slot none = pure tt
  hand_over n slot (some (CollectorResult.delivery (consumer_tag, delivery))) =
      deliver_to n consumer_tag delivery (HashMap.get string_discrete slot.consumers consumer_tag)
  hand_over n slot (some (CollectorResult.return_ ret)) = try_send_return A I C env n slot ret
  hand_over n slot (some (CollectorResult.get message)) =
      send A I env (Event.to_client slot.tx (ok (ChannelMessage.get_ok (some message))))

  unfoldable pub content_header : ℕ → ContentHeader A → Step A I C env
  unfolding collecting hand_over
  content_header n header = do
    (slot, collected) ← collecting n (λ c. collect_header A c header)
    hand_over n slot collected

  unfoldable pub content_body : ℕ → List ℕ → Step A I C env
  unfolding collecting hand_over
  content_body n piece = do
    (slot, collected) ← collecting n (λ c. collect_body A c piece)
    hand_over n slot collected

  unfoldable pub begin_content :
      ℕ → (ContentCollector A → Result (Unit {0}) × ContentCollector A) → Step A I C env
  unfolding collecting
  begin_content n call = do (slot, started) ← collecting n call; pure tt

  unfoldable pub confirmed : ℕ → Confirm → Step A I C env
  unfolding try_send_confirm
  confirmed n confirm = do slot ← slot_get A I n; try_send_confirm A I C env n slot confirm

  unfoldable pub get_empty : ℕ → Step A I C env
  get_empty n = do
    slot ← slot_get A I n
    send A I env (Event.to_client slot.tx (ok (ChannelMessage.get_ok none)))

  unfoldable pub basic_method : ℕ → BasicMethod A → Step A I C env
  unfolding consume_ok server_cancel client_cancel begin_content confirmed get_empty forward illegal
  basic_method n (BasicMethod.consume_ok consumer_tag) = consume_ok n consumer_tag
  basic_method n (BasicMethod.cancel cancel) = server_cancel n cancel
  basic_method n (BasicMethod.cancel_ok consumer_tag) = client_cancel n consumer_tag
  basic_method n (BasicMethod.deliver deliver) = begin_content n (λ c. collect_deliver A c deliver)
  basic_method n (BasicMethod.return_ ret) = begin_content n (λ c. collect_return A c ret)
  basic_method n (BasicMethod.get_ok got) = begin_content n (λ c. collect_get A c got)
  basic_method n BasicMethod.get_empty = get_empty n
  basic_method n (BasicMethod.ack acked) =
      confirmed n
        (Confirm.ack (record { delivery_tag = acked.delivery_tag; multiple = acked.multiple }))
  basic_method n (BasicMethod.nack acked) =
      confirmed n
        (Confirm.nack (record { delivery_tag = acked.delivery_tag; multiple = acked.multiple }))
  basic_method n (BasicMethod.qos_ok p) =
      forward A I C env n (AmqpClass.basic (BasicMethod.qos_ok p))
  basic_method n (BasicMethod.recover_ok p) =
      forward A I C env n (AmqpClass.basic (BasicMethod.recover_ok p))
  basic_method n (BasicMethod.qos p) = illegal A I C env n (AmqpClass.basic (BasicMethod.qos p))
  basic_method n (BasicMethod.consume p) =
      illegal A I C env n (AmqpClass.basic (BasicMethod.consume p))
  basic_method n (BasicMethod.publish p) =
      illegal A I C env n (AmqpClass.basic (BasicMethod.publish p))
  basic_method n (BasicMethod.get p) = illegal A I C env n (AmqpClass.basic (BasicMethod.get p))
  basic_method n (BasicMethod.reject p) =
      illegal A I C env n (AmqpClass.basic (BasicMethod.reject p))
  basic_method n (BasicMethod.recover_async p) =
      illegal A I C env n (AmqpClass.basic (BasicMethod.recover_async p))
  basic_method n (BasicMethod.recover p) =
      illegal A I C env n (AmqpClass.basic (BasicMethod.recover p))
