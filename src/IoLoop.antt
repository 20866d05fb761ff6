-- ===== src/IoLoop.antt =====
-- io_loop/mod.rs: what the I/O thread does with the messages of its clients, how it holds back
-- fast publishers, and how it ends.
pub mod Messages
pub mod Publishing
pub mod Receiving
pub mod Ending
pub mod Watermarks
pub mod Allocating
mod Tests
use amiquip.Prelude.{
  ℕ, zero, suc, Bool, true, false, List, [], ◌∷◌, ◌++◌, Option, none, some, leb, ltb, length, not,
  ◌&&◌, if◌then◌else◌,
}
use amiquip.HashMap
use amiquip.Errors.{
  Result, Error, ok, err, panicked, out_of_fuel, event_loop_client_dropped,
  server_closed_connection, client_exception, invalid_credentials, register_with_poll_handle,
  deregister_with_poll_handle,
}
use amiquip.Exec.{Exec, pure, fail, ◌>>=◌, ◌>>◌}
use amiquip.IndexSet.{IndexSet}
use amiquip.Protocol.{Amqp, Close, Tune}
use amiquip.ConnectionOptions.{Sasl}
use amiquip.Handshake.{HandshakeState}
use amiquip.Serialize.{OutputBuffer, append, is_empty}
use amiquip.ContentCollector
use amiquip.ChannelSlots
use amiquip.ChannelSlots.{ChannelSlots}
use amiquip.Inner.{
  ChannelSlot, Channel0Slot, ConnectionState, Inner, Io, Call, with_inner, seal_writes, slot_put,
  set_state,
}
use amiquip.ChannelHandle.{IoLoopMessage}

module _ (A : Amqp) (I : IndexSet) where
  abbrev pub Step : Type 0
  Step = Call A I (Unit {0})

  abbrev pub enqueue : OutputBuffer → Step
  enqueue buf io =
      (ok tt, with_inner A I io (record io.inner { outbuf = append io.inner.outbuf buf }))

  abbrev pub slot_of : Io A I → ℕ → Option (ChannelSlot A)
  slot_of io n = ChannelSlots.get I (ChannelSlot A) io.inner.chan_slots n

  -- `get_mut(channel_id).unwrap()`, and the write through it. Channel 0 has no handlers.
  unfoldable pub set_handler : ℕ → (ChannelSlot A → ChannelSlot A) → Step
  set_handler zero change io = (panicked, io)
  set_handler (suc n) change io = elim (slot_of io (suc n)) [
    | none ↦ (panicked, io)
    | some slot ↦ slot_put A I (suc n) (change slot) io
  ]

  unfoldable pub process_channel_message : ℕ → IoLoopMessage → Step
  unfolding set_handler
  process_channel_message n (IoLoopMessage.connection_close buf) = do enqueue buf; seal_writes A I
  process_channel_message n (IoLoopMessage.send buf) = enqueue buf
  process_channel_message n (IoLoopMessage.set_return_handler handler) =
      set_handler n (λ slot. record slot { return_handler = handler })
  process_channel_message n (IoLoopMessage.set_pub_confirm_handler handler) =
      set_handler n (λ slot. record slot { pub_confirm_handler = handler })

  -- What `try_recv` says behind the last message: the client may have dropped its sender.
  abbrev pub no_more : Bool → Step
  no_more hung_up io = (if hung_up then err event_loop_client_dropped else ok tt, io)

  -- The messages that wait on channel 0.
  unfoldable pub handle_channel0_readable : List IoLoopMessage → Bool → Step
  unfolding process_channel_message
  handle_channel0_readable [] hung_up = no_more hung_up
  handle_channel0_readable (message ∷ messages) hung_up = do
    process_channel_message 0 message
    handle_channel0_readable messages hung_up

  -- The messages that wait on another channel, which may be gone by now.
  unfoldable pub handle_channel_readable : ℕ → List IoLoopMessage → Bool → Step
  unfolding process_channel_message
  handle_channel_readable n [] hung_up io = elim (slot_of io n) [
    | none ↦ (ok tt, io)
    | some slot ↦ no_more hung_up io
  ]
  handle_channel_readable n (message ∷ messages) hung_up io =
      let rest =
        (do process_channel_message n message; handle_channel_readable n messages hung_up) io in
      elim (slot_of io n) [ none ↦ (ok tt, io) | some slot ↦ rest ]

  -- The senders that wait for `set_blocked_rx`.
  unfoldable pub handle_set_blocked_tx : Channel0Slot A → List ℕ → Bool → Step
  handle_set_blocked_tx ch0 [] hung_up = no_more hung_up
  handle_set_blocked_tx ch0 (tx ∷ senders) hung_up = do
    set_state A I (ConnectionState.steady (record ch0 { blocked_tx = some tx }))
    handle_set_blocked_tx (record ch0 { blocked_tx = some tx }) senders hung_up

  -- `ChannelSlot::new`: the sender to the new client is a new name.
  unfoldable pub new_slot : ℕ → ℕ → ChannelSlot A
  new_slot tx channel_id = record {
    tx = tx;
    collector = ContentCollector.new A channel_id;
    consumers = HashMap.empty;
    return_handler = none;
    pub_confirm_handler = none;
  }

  abbrev pub is_sealed : Io A I → Bool
  is_sealed io = io.inner.outbuf.sealed

  abbrev pub has_data_to_write : Io A I → Bool
  has_data_to_write io = not (is_empty io.inner.outbuf.buf)

  -- The end of a close that the server began, or of one over an exception of ours.
  abbrev pub flushed : Io A I → Result Bool
  flushed io = if is_sealed io then ok (not (has_data_to_write io)) else panicked

  unfoldable pub is_connection_done : Io A I → Result Bool
  is_connection_done io = elim io.state [
    | ConnectionState.steady ch0 ↦ ok false
    | ConnectionState.client_closed ↦ ok true
    | ConnectionState.server_closing close ↦ flushed io
    | ConnectionState.client_exception ↦ flushed io
  ]

  -- The result of `run_connection` once the loop has returned.
  unfoldable pub connection_result : ConnectionState A → Result (Unit {0})
  connection_result (ConnectionState.steady ch0) = panicked
  connection_result (ConnectionState.server_closing close) =
      err (server_closed_connection close.reply_code close.reply_text)
  connection_result ConnectionState.client_exception = err client_exception
  connection_result ConnectionState.client_closed = ok tt

module _ (A : Amqp) (S : Sasl) where
  open A use {FieldTable}

  -- The result of `run_amqp_handshake` by the result of the loop: a socket that is dropped where
  -- the server would answer the credentials means that they are bad.
  handshake_done : HandshakeState A S → Result (Tune × FieldTable)
  handshake_done (HandshakeState.done tune_ok server_properties) = ok (tune_ok, server_properties)
  handshake_done (HandshakeState.server_closing close) =
      err (server_closed_connection close.reply_code close.reply_text)
  handshake_done _ = panicked

  handshake_error : Error → HandshakeState A S → Result (Tune × FieldTable)
  handshake_error e (HandshakeState.secure options server_properties) = err invalid_credentials
  handshake_error e _ = err e

  unfoldable pub handshake_result :
      Result (Unit {0}) → HandshakeState A S → Result (Tune × FieldTable)
  unfolding handshake_done handshake_error
  handshake_result (ok _) state = handshake_done state
  handshake_result (err e) state = handshake_error e state
  handshake_result panicked state = panicked
  handshake_result out_of_fuel state = out_of_fuel

-- What the loop keeps from round to round: whether it listens to the channels, and whether
-- something was written to the socket.
pub record Polling : Type 0 where
  pub listening_to_channels : Bool
  pub have_written_to_socket : Bool

-- What it asks of the poll at the end of a round.
pub data PollRequest : Type 0 where
  deregister_nonzero_channels reregister_nonzero_channels : PollRequest
  socket_readable_or_writable socket_readable : PollRequest

-- The watermarks: the requests, and whether it listens from now on.
unfoldable pub watermarks : ℕ → ℕ → ℕ → Bool → List PollRequest × Bool
watermarks high low len listening =
    if listening && ltb high len
    then (deregister_nonzero_channels ∷ [], false)
    else if not listening && leb len low
    then (reregister_nonzero_channels ∷ [], true)
    else ([], listening)

unfoldable pub reregister_socket : Bool → Bool → Bool → List PollRequest × Bool
reregister_socket has_data had_data have_written =
    if has_data && have_written
    then (socket_readable_or_writable ∷ [], have_written)
    else if had_data
    then (socket_readable ∷ [], true)
    else ([], have_written)

-- The end of a round of `run_io_loop`, where the poll takes every request.
unfoldable pub end_of_round : ℕ → ℕ → Bool → OutputBuffer → Polling → List PollRequest × Polling
unfolding watermarks reregister_socket
end_of_round high low had_data_to_write outbuf polling =
    let (channels, listening) = watermarks high low (length outbuf) polling.listening_to_channels in
    let (socket, have_written) =
      reregister_socket (not (is_empty outbuf)) had_data_to_write polling.have_written_to_socket in
    (
      channels ++ socket,
      record { listening_to_channels = listening; have_written_to_socket = have_written },
    )
