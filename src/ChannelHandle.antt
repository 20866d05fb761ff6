-- ===== src/ChannelHandle.antt =====
-- io_loop/io_loop_handle.rs and io_loop/channel_handle.rs: what a client's thread sends to the I/O
-- thread, and what it waits for.
pub mod SendContent
pub mod Handlers
mod Tests
use amiquip.Prelude.{
  ℕ, zero, suc, String, Bool, true, false, List, [], ◌∷◌, ◌++◌, Option, none, some, ltb, length,
  take, drop, if◌then◌else◌,
}
use amiquip.Errors.{
  Result, Error, ok, err, panicked, out_of_fuel, frame_unexpected, event_loop_dropped,
}
use amiquip.Exec.{Exec, pure, fail, ◌>>=◌, ◌>>◌}
use amiquip.Protocol.{
  Close, Amqp, AmqpGet, Consume, AmqpClass, BasicMethod, ConnectionMethod, ChannelMethod,
}
use amiquip.Content.{Get}
use amiquip.Serialize.{Codec, OutputBuffer, push_method, push_content_header, push_content_body}
use amiquip.Serialize.Conversions.{Expected, Value, try_from, channel_close_ok, connection_close_ok}
use amiquip.Inner.{ChannelMessage}

-- A sender inside a message is a name.
pub data IoLoopMessage : Type 0 where
  send connection_close : OutputBuffer → IoLoopMessage
  set_return_handler set_pub_confirm_handler : Option ℕ → IoLoopMessage

-- The messages sent so far stand for the sending end of the channel, last message last, and the
-- number of replies taken for the receiving end.
pub record IoLoopHandle : Type 0 where
  pub channel_id : ℕ
  pub buf : OutputBuffer
  pub sent : List IoLoopMessage
  pub received : ℕ

module _ (A : Amqp) where
  -- The I/O thread at the other end: whether it still takes a message, and its replies by number,
  -- none once it has dropped the channel.
  pub record Peer : Type 0 where
    pub takes : List IoLoopMessage → Bool
    pub reply : List IoLoopMessage → ℕ → Option (Result (ChannelMessage A))

module _ (A : Amqp) (C : Codec A) (peer : Peer A) where
  abbrev pub HandleCall : Type 0 → Type 0
  HandleCall B = Exec IoLoopHandle B

  unfoldable pub received_or : Option (Result (ChannelMessage A)) → HandleCall (ChannelMessage A)
  received_or none h = (err event_loop_dropped, h)
  received_or (some r) h = (r, record h { received = suc h.received })

  unfoldable pub recv : HandleCall (ChannelMessage A)
  unfolding received_or
  recv h = received_or (peer.reply h.sent h.received) h

  unfoldable pub error_of : {B : Type 0} → Result (ChannelMessage A) → Result B
  error_of (ok m) = err frame_unexpected
  error_of (err e) = err e
  error_of panicked = panicked
  error_of out_of_fuel = out_of_fuel

  -- `check_recv_for_error`, as the error of the call that found the channel closed.
  unfoldable pub check_recv_for_error : {B : Type 0} → HandleCall B
  unfolding recv error_of
  check_recv_for_error h = let (r, h') = recv h in (error_of r, h')

  unfoldable pub send_message : IoLoopMessage → HandleCall (Unit {0})
  unfolding check_recv_for_error
  send_message message h =
      if peer.takes h.sent
      then (ok tt, record h { sent = h.sent ++ message ∷ [] })
      else check_recv_for_error h

  -- `drain_into_new_buf` behind a push into the handle's buffer.
  abbrev pub drained : Result OutputBuffer → HandleCall OutputBuffer
  drained (ok buf) h = (ok buf, record h { buf = [] })
  drained (err e) h = (err e, h)
  drained panicked h = (panicked, h)
  drained out_of_fuel h = (out_of_fuel, h)

  unfoldable pub make_buf : AmqpClass A → HandleCall OutputBuffer
  make_buf class h = drained (push_method A C h.buf h.channel_id class) h

  unfoldable pub get_reply : ChannelMessage A → Result (Option (Get A))
  get_reply (ChannelMessage.get_ok message) = ok message
  get_reply (ChannelMessage.method _) = err frame_unexpected
  get_reply (ChannelMessage.consume_ok _ _) = err frame_unexpected

  unfoldable pub consume_reply : ChannelMessage A → Result (String × ℕ)
  consume_reply (ChannelMessage.consume_ok tag rx) = ok (tag, rx)
  consume_reply (ChannelMessage.method _) = err frame_unexpected
  consume_reply (ChannelMessage.get_ok _) = err frame_unexpected

  unfoldable pub method_reply : (x : Expected) → ChannelMessage A → Result (Value A x)
  unfolding try_from
  method_reply x (ChannelMessage.method class) = try_from A x class
  method_reply x (ChannelMessage.consume_ok _ _) = err frame_unexpected
  method_reply x (ChannelMessage.get_ok _) = err frame_unexpected

  abbrev answer_with : {B : Type 0} → Result B → HandleCall B
  answer_with r h = (r, h)

  unfoldable pub get : AmqpGet → HandleCall (Option (Get A))
  unfolding make_buf send_message recv get_reply
  get request = do
    buf ← make_buf (AmqpClass.basic (BasicMethod.get request))
    send_message (IoLoopMessage.send buf)
    message ← recv
    answer_with (get_reply message)

  unfoldable pub consume : Consume A → HandleCall (String × ℕ)
  unfolding make_buf send_message recv consume_reply
  consume request = do
    buf ← make_buf (AmqpClass.basic (BasicMethod.consume request))
    send_message (IoLoopMessage.send buf)
    message ← recv
    answer_with (consume_reply message)

  unfoldable pub call_message : (x : Expected) → IoLoopMessage → HandleCall (Value A x)
  unfolding send_message recv method_reply
  call_message x message = do send_message message; reply ← recv; answer_with (method_reply x reply)

  unfoldable pub call : (x : Expected) → AmqpClass A → HandleCall (Value A x)
  unfolding make_buf call_message
  call x class = do buf ← make_buf class; call_message x (IoLoopMessage.send buf)

  unfoldable pub call_nowait : AmqpClass A → HandleCall (Unit {0})
  unfolding make_buf send_message
  call_nowait class = do buf ← make_buf class; send_message (IoLoopMessage.send buf)

  unfoldable pub call_connection_close : Close → HandleCall (Unit {0})
  unfolding make_buf call_message Value
  call_connection_close close = do
    buf ← make_buf (AmqpClass.connection (ConnectionMethod.close close))
    call_message connection_close_ok (IoLoopMessage.connection_close buf)

  unfoldable pub send_content_header : ℕ → ℕ → A.Properties → HandleCall (Unit {0})
  unfolding send_message
  send_content_header class_id len properties = do
    buf ← (λ h. drained (push_content_header A C h.buf h.channel_id class_id len properties) h)
    send_message (IoLoopMessage.send buf)

  unfoldable pub send_content_body : List ℕ → HandleCall (Unit {0})
  unfolding send_message
  send_content_body content = do
    buf ← (λ h. drained (push_content_body A C h.buf h.channel_id content) h)
    send_message (IoLoopMessage.send buf)

  last_piece : List ℕ → HandleCall (Unit {0})
  last_piece [] = pure tt
  last_piece (b ∷ content) = send_content_body (b ∷ content)

  -- The `while` loop of `send_content`, on fuel, and the rest behind it.
  unfoldable pub send_pieces : ℕ → ℕ → List ℕ → HandleCall (Unit {0})
  unfolding send_content_body last_piece
  send_pieces zero frame_max content = answer_with out_of_fuel
  send_pieces (suc fuel) frame_max content =
      if ltb frame_max (length content)
      then (send_content_body (take frame_max content)
          >> send_pieces fuel frame_max (drop frame_max content))
      else last_piece content

  unfoldable pub send_content : ℕ → ℕ → List ℕ → ℕ → A.Properties → HandleCall (Unit {0})
  unfolding send_content_header send_pieces
  send_content fuel frame_max content class_id properties = do
    send_content_header class_id (length content) properties
    send_pieces fuel frame_max content
