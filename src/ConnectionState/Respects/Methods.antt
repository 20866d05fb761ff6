-- ===== src/ConnectionState/Respects/Methods.antt =====
-- What every primitive call on behalf of a channel respects, every frame of the channel respects.
use amiquip.Prelude.{
  ℕ, String, Bool, true, false, List, Option, none, some, string_discrete, if◌then◌else◌,
}
use amiquip.HashMap
use amiquip.Errors.{Result, ok, err, panicked, out_of_fuel}
use amiquip.Exec.{pure}
use amiquip.Exec.Keeps.{Keeps}
use amiquip.IndexSet.{IndexSet}
use amiquip.Protocol.{
  Amqp, AmqpClass, Close, Cancel, ChannelMethod, BasicMethod, ConfirmMethod, ContentHeader,
}
use amiquip.Content.{Return, Delivery}
use amiquip.Confirm.{Confirm}
use amiquip.ContentCollector.{ContentCollector, CollectorResult}
use amiquip.Serialize.{Codec}
use amiquip.Inner.{
  ChannelMessage, ConsumerMessage, Event, ChannelSlot, Env, Io, slot_remove, push_method,
}
use amiquip.ConnectionState.{
  try_send_return, try_send_confirm, unhandled, illegal, forward, server_close, close_found,
  server_close_ok, channel_method, consume_ok, server_cancel, client_cancel, collecting, hand_over,
  content_header, content_body, begin_content, confirmed, get_empty, basic_method, answer,
  method_frame, consume_found, deliver_to,
}
use amiquip.ConnectionState.Respects.{
  RespectsChannel, then_R, still, send-Keeps, send_some-Keeps, send_slot-Keeps, try_handler-Keeps,
  slot_get-Keeps,
}

module _ (A : Amqp) (I : IndexSet) (C : Codec A) (env : Env A) where
  module _ {R : Io A I → Io A I → Type 0} {n : ℕ} (N : RespectsChannel A I C env R n) where
    open N use {
      respects, make_sender_R, slot_put_R, slot_remove_R, push_method_R, client_exception_R,
    }

    try_send_return-Keeps :
        (slot : ChannelSlot A) (ret : Return A) → Keeps R (try_send_return A I C env n slot ret)
    unfolding try_send_return
    try_send_return-Keeps slot ret =
        try_handler-Keeps A I C env respects (λ tx. Event.to_return tx ret) slot.return_handler _
          (slot_put_R (record slot { return_handler = none }))

    try_send_confirm-Keeps :
        (slot : ChannelSlot A) (confirm : Confirm)
        → Keeps R (try_send_confirm A I C env n slot confirm)
    unfolding try_send_confirm
    try_send_confirm-Keeps slot confirm =
        try_handler-Keeps A I C env respects (λ tx. Event.to_confirm tx confirm)
          slot.pub_confirm_handler _ (slot_put_R (record slot { pub_confirm_handler = none }))

    unhandled-Keeps : (class : AmqpClass A) → Keeps R (unhandled A I C env n class)
    unfolding unhandled
    unhandled-Keeps class = client_exception_R env.not_implemented (env.unhandled n class)

    illegal-Keeps : (class : AmqpClass A) → Keeps R (illegal A I C env n class)
    unfolding illegal
    illegal-Keeps class = client_exception_R env.not_allowed (env.illegal n class)

    forward-Keeps : (class : AmqpClass A) → Keeps R (forward A I C env n class)
    unfolding forward
    forward-Keeps class =
        then_R A I C env respects _ _ (slot_get-Keeps A I C env respects n) (λ slot.
          send-Keeps A I C env respects
            (Event.to_client slot.tx (ok (ChannelMessage.method class))))

    server_close-Keeps : (close : Close) → Keeps R (server_close A I C env n close)
    unfolding server_close
    server_close-Keeps close = then_R A I C env respects _ _ slot_remove_R (λ slot.
        then_R A I C env respects _ _ (send_slot-Keeps A I C env respects _ _ slot)
          (λ _. push_method_R (AmqpClass.channel ChannelMethod.close_ok)))

    close_found-Keeps : (found : Result (ChannelSlot A)) → Keeps R (close_found A I C env found)
    unfolding close_found
    close_found-Keeps (ok slot) = send_slot-Keeps A I C env respects _ _ slot
    close_found-Keeps (err e) = still A I C env respects _
    close_found-Keeps panicked = still A I C env respects _
    close_found-Keeps out_of_fuel = still A I C env respects _

    server_close_ok-Keeps : Keeps R (server_close_ok A I C env n)
    unfolding server_close_ok Keeps
    server_close_ok-Keeps io =
        respects.trans_R io ((slot_remove A I n io).1) _ (slot_remove_R io)
          (close_found-Keeps ((slot_remove A I n io).0) ((slot_remove A I n io).1))

    channel_method-Keeps : (m : ChannelMethod A) → Keeps R (channel_method A I C env n m)
    unfolding channel_method
    channel_method-Keeps (ChannelMethod.close close) = server_close-Keeps close
    channel_method-Keeps ChannelMethod.close_ok = server_close_ok-Keeps
    channel_method-Keeps (ChannelMethod.open_ok p) = forward-Keeps _
    channel_method-Keeps (ChannelMethod.flow p) = unhandled-Keeps _
    channel_method-Keeps (ChannelMethod.flow_ok p) = unhandled-Keeps _
    channel_method-Keeps (ChannelMethod.open_ p) = illegal-Keeps _

    vacant-Keeps :
        (slot : ChannelSlot A) (tag : String) (found : Option ℕ)
        → Keeps R (consume_found A I C env n slot tag found)
    unfolding consume_found
    vacant-Keeps slot tag (some _) = still A I C env respects _
    vacant-Keeps slot tag none =
        then_R A I C env respects _ _ make_sender_R (λ tx.
          then_R A I C env respects _ _ (slot_put_R _) (λ _. send-Keeps A I C env respects _))

    consume_ok-Keeps : (tag : String) → Keeps R (consume_ok A I C env n tag)
    unfolding consume_ok
    consume_ok-Keeps tag =
        then_R A I C env respects _ _ (slot_get-Keeps A I C env respects n)
          (λ slot. vacant-Keeps slot tag (HashMap.get string_discrete slot.consumers tag))

    push_unless-Keeps :
        (b : Bool) (class : AmqpClass A)
        → Keeps R (if b then pure tt else push_method A I C n class)
    push_unless-Keeps true class = still A I C env respects _
    push_unless-Keeps false class = push_method_R class

    server_cancel-Keeps : (cancel : Cancel) → Keeps R (server_cancel A I C env n cancel)
    unfolding server_cancel
    server_cancel-Keeps cancel =
        then_R A I C env respects _ _ (slot_get-Keeps A I C env respects n) (λ slot.
          then_R A I C env respects _ _ (slot_put_R _) (λ _.
            then_R A I C env respects _ _
              (send_some-Keeps A I C env respects _ ConsumerMessage.server_cancelled)
              (λ _. push_unless-Keeps cancel.nowait _)))

    client_cancel-Keeps : (tag : String) → Keeps R (client_cancel A I C env n tag)
    unfolding client_cancel
    client_cancel-Keeps tag =
        then_R A I C env respects _ _ (slot_get-Keeps A I C env respects n) (λ slot.
          then_R A I C env respects _ _ (slot_put_R _) (λ _.
            then_R A I C env respects _ _ (send-Keeps A I C env respects _)
              (λ _. send_some-Keeps A I C env respects _ ConsumerMessage.client_cancelled)))

    collecting-Keeps :
        {B : Type 0} (call : ContentCollector A → Result B × ContentCollector A)
        → Keeps R (collecting A I C env n call)
    unfolding collecting
    collecting-Keeps call =
        then_R A I C env respects _ _ (slot_get-Keeps A I C env respects n) (λ slot.
          then_R A I C env respects _ _ (slot_put_R _) (λ _.
            then_R A I C env respects _ _ (still A I C env respects ((call slot.collector).0)) (λ b.
              still A I C env respects
                (ok (record slot { collector = (call slot.collector).1 }, b)))))

    deliver_to-Keeps :
        (tag : String) (delivery : Delivery A) (found : Option ℕ)
        → Keeps R (deliver_to A I C env n tag delivery found)
    unfolding deliver_to
    deliver_to-Keeps tag delivery none = still A I C env respects _
    deliver_to-Keeps tag delivery (some tx) = send-Keeps A I C env respects _

    hand_over-Keeps :
        (slot : ChannelSlot A) (collected : Option (CollectorResult A))
        → Keeps R (hand_over A I C env n slot collected)
    unfolding hand_over
    hand_over-Keeps slot none = still A I C env respects _
    hand_over-Keeps slot (some (CollectorResult.delivery (tag, delivery))) =
        deliver_to-Keeps tag delivery (HashMap.get string_discrete slot.consumers tag)
    hand_over-Keeps slot (some (CollectorResult.return_ ret)) = try_send_return-Keeps slot ret
    hand_over-Keeps slot (some (CollectorResult.get message)) = send-Keeps A I C env respects _

    pub content_header-Keeps :
        (header : ContentHeader A) → Keeps R (content_header A I C env n header)
    unfolding content_header
    content_header-Keeps header =
        then_R A I C env respects _ _ (collecting-Keeps _)
          (λ (slot, found). hand_over-Keeps slot found)

    pub content_body-Keeps : (piece : List ℕ) → Keeps R (content_body A I C env n piece)
    unfolding content_body
    content_body-Keeps piece =
        then_R A I C env respects _ _ (collecting-Keeps _)
          (λ (slot, found). hand_over-Keeps slot found)

    begin_content-Keeps :
        (call : ContentCollector A → Result (Unit {0}) × ContentCollector A)
        → Keeps R (begin_content A I C env n call)
    unfolding begin_content
    begin_content-Keeps call =
        then_R A I C env respects _ _ (collecting-Keeps call) (λ _. still A I C env respects _)

    confirmed-Keeps : (confirm : Confirm) → Keeps R (confirmed A I C env n confirm)
    unfolding confirmed
    confirmed-Keeps confirm =
        then_R A I C env respects _ _ (slot_get-Keeps A I C env respects n)
          (λ slot. try_send_confirm-Keeps slot confirm)

    get_empty-Keeps : Keeps R (get_empty A I C env n)
    unfolding get_empty
    get_empty-Keeps =
        then_R A I C env respects _ _ (slot_get-Keeps A I C env respects n)
          (λ slot. send-Keeps A I C env respects _)

    basic_method-Keeps : (m : BasicMethod A) → Keeps R (basic_method A I C env n m)
    unfolding basic_method
    basic_method-Keeps (BasicMethod.consume_ok tag) = consume_ok-Keeps tag
    basic_method-Keeps (BasicMethod.cancel cancel) = server_cancel-Keeps cancel
    basic_method-Keeps (BasicMethod.cancel_ok tag) = client_cancel-Keeps tag
    basic_method-Keeps (BasicMethod.deliver deliver) = begin_content-Keeps _
    basic_method-Keeps (BasicMethod.return_ ret) = begin_content-Keeps _
    basic_method-Keeps (BasicMethod.get_ok got) = begin_content-Keeps _
    basic_method-Keeps BasicMethod.get_empty = get_empty-Keeps
    basic_method-Keeps (BasicMethod.ack acked) = confirmed-Keeps _
    basic_method-Keeps (BasicMethod.nack acked) = confirmed-Keeps _
    basic_method-Keeps (BasicMethod.qos_ok p) = forward-Keeps _
    basic_method-Keeps (BasicMethod.recover_ok p) = forward-Keeps _
    basic_method-Keeps (BasicMethod.qos p) = illegal-Keeps _
    basic_method-Keeps (BasicMethod.consume p) = illegal-Keeps _
    basic_method-Keeps (BasicMethod.publish p) = illegal-Keeps _
    basic_method-Keeps (BasicMethod.get p) = illegal-Keeps _
    basic_method-Keeps (BasicMethod.reject p) = illegal-Keeps _
    basic_method-Keeps (BasicMethod.recover_async p) = illegal-Keeps _
    basic_method-Keeps (BasicMethod.recover p) = illegal-Keeps _

    answer-Keeps : (b : Bool) (class : AmqpClass A) → Keeps R (answer A I C env b n class)
    answer-Keeps true class = forward-Keeps class
    answer-Keeps false class = illegal-Keeps class

    pub method_frame-Keeps : (class : AmqpClass A) → Keeps R (method_frame A I C env n class)
    unfolding method_frame
    method_frame-Keeps (AmqpClass.channel m) = channel_method-Keeps m
    method_frame-Keeps (AmqpClass.basic m) = basic_method-Keeps m
    method_frame-Keeps (AmqpClass.connection m) = illegal-Keeps _
    method_frame-Keeps (AmqpClass.access p) = unhandled-Keeps _
    method_frame-Keeps (AmqpClass.tx p) = unhandled-Keeps _
    method_frame-Keeps (AmqpClass.exchange m) = answer-Keeps _ _
    method_frame-Keeps (AmqpClass.queue m) = answer-Keeps _ _
    method_frame-Keeps (AmqpClass.confirm (ConfirmMethod.select_ok p)) = forward-Keeps _
    method_frame-Keeps (AmqpClass.confirm (ConfirmMethod.select p)) = illegal-Keeps _
