-- ===== src/Handshake.antt =====
-- io_loop/handshake_state.rs: the answers to the server up to an open connection.
pub mod Greeting
mod Tests
use amiquip.Prelude.{
  ℕ, zero, Bool, true, false, List, Option, some, ◌==◌, if◌then◌else◌, none, some,
}
use amiquip.Errors.{
  Result, ok, err, panicked, out_of_fuel, frame_unexpected, sasl_secure_not_supported,
}
use amiquip.Exec.{Exec, pure, fail, ◌>>=◌, ◌>>◌}
use amiquip.Protocol.{Amqp, AmqpClass, AmqpFrame, ConnectionMethod, Close, Tune, Start, StartOk}
use amiquip.Serialize.{Codec, SealableOutputBuffer, seal, sealable_push_method}
use amiquip.Serialize.Conversions.{
  Expected, Value, try_from_frame, connection_start, connection_secure, connection_tune,
  connection_open_ok, connection_close,
}
use amiquip.ConnectionOptions.{
  Sasl, ConnectionOptions, ClientInfo, make_start_ok, make_tune_ok, make_open,
}

module _ (A : Amqp) (S : Sasl) where
  pub data HandshakeState : Type 0 where
    start : ConnectionOptions S → HandshakeState
    secure tune : ConnectionOptions S → A.FieldTable → HandshakeState
    open_ : Tune → A.FieldTable → HandshakeState
    server_closing : Close → HandshakeState
    done : Tune → A.FieldTable → HandshakeState

  -- The state with what the handshake touches of `Inner`: the buffer, and the interval of the
  -- heartbeats once they are started.
  pub record Handshake : Type 0 where
    pub state : HandshakeState
    pub outbuf : SealableOutputBuffer
    pub heartbeats : Option ℕ

module _ (A : Amqp) (S : Sasl) (C : Codec A) (info : ClientInfo A) where
  abbrev pub Step : Type 0
  Step = Exec (Handshake A S) (Unit {0})

  abbrev pub give : {B : Type 0} → Result B → Exec (Handshake A S) B
  give r h = (r, h)

  abbrev pub set_state : HandshakeState A S → Step
  set_state state h = (ok tt, record h { state = state })

  abbrev pub pushed_into :
      Handshake A S → Result SealableOutputBuffer → Result (Unit {0}) × Handshake A S
  pushed_into h (ok buf) = (ok tt, record h { outbuf = buf })
  pushed_into h (err e) = (err e, h)
  pushed_into h panicked = (panicked, h)
  pushed_into h out_of_fuel = (out_of_fuel, h)

  unfoldable pub push : ConnectionMethod A → Step
  push m h = pushed_into h (sealable_push_method A C h.outbuf 0 (AmqpClass.connection m))

  abbrev pub seal_writes : Step
  seal_writes h = (ok tt, record h { outbuf = seal h.outbuf })

  -- The timers are started once.
  abbrev pub start_timers : ℕ → Option ℕ → Step
  start_timers interval none h = (ok tt, record h { heartbeats = some interval })
  start_timers interval (some running) h = (panicked, h)

  -- An interval of 0 starts no timer.
  abbrev pub start_heartbeats : ℕ → Step
  start_heartbeats interval h =
      if interval == 0 then (ok tt, h) else start_timers interval h.heartbeats h

  unfoldable pub at_start : ConnectionOptions S → AmqpFrame A → Step
  unfolding Value
  at_start options frame = do
    hello ← give (try_from_frame A connection_start 0 frame)
    (start_ok, server_properties) ← give (make_start_ok A info options hello)
    push (ConnectionMethod.start_ok start_ok)
    set_state (HandshakeState.secure options server_properties)

  -- The answer to the offer, and the request to open the virtual host.
  unfoldable pub agree : ConnectionOptions S → A.FieldTable → Tune → Step
  agree options server_properties tune_ok = do
    push (ConnectionMethod.tune_ok tune_ok)
    push (ConnectionMethod.open_ (make_open A info options))
    set_state (HandshakeState.open_ tune_ok server_properties)

  unfoldable pub at_tune : ConnectionOptions S → A.FieldTable → AmqpFrame A → Step
  unfolding Value agree
  at_tune options server_properties frame = do
    offer ← give (try_from_frame A connection_tune 0 frame)
    tune_ok ← give (make_tune_ok options offer)
    start_heartbeats tune_ok.heartbeat
    agree options server_properties tune_ok

  -- `if let Ok(secure) = …`: only PLAIN and EXTERNAL are supported, which need no `Secure`.
  unfoldable pub at_secure :
      ConnectionOptions S → A.FieldTable → AmqpFrame A → Result (Value A connection_secure) → Step
  unfolding at_tune
  at_secure options server_properties frame (ok _) = fail sasl_secure_not_supported
  at_secure options server_properties frame _ = do
    set_state (HandshakeState.tune options server_properties)
    at_tune options server_properties frame

  -- The server may answer bad parameters with a `Close`.
  unfoldable pub at_open :
      Tune → A.FieldTable → AmqpFrame A → Result (Value A connection_close) → Step
  unfolding Value
  at_open tune_ok server_properties frame (ok close) = do
    push ConnectionMethod.close_ok
    seal_writes
    set_state (HandshakeState.server_closing close)
  at_open tune_ok server_properties frame _ = do
    open_ok ← give (try_from_frame A connection_open_ok 0 frame)
    set_state (HandshakeState.done tune_ok server_properties)

  unfoldable pub in_state : HandshakeState A S → AmqpFrame A → Step
  unfolding at_start at_secure at_tune at_open
  in_state (HandshakeState.start options) frame = at_start options frame
  in_state (HandshakeState.secure options server_properties) frame =
      at_secure options server_properties frame (try_from_frame A connection_secure 0 frame)
  in_state (HandshakeState.tune options server_properties) frame =
      at_tune options server_properties frame
  in_state (HandshakeState.open_ tune_ok server_properties) frame =
      at_open tune_ok server_properties frame (try_from_frame A connection_close 0 frame)
  in_state (HandshakeState.server_closing close) frame = fail frame_unexpected
  in_state (HandshakeState.done tune_ok server_properties) frame = fail frame_unexpected

  unfoldable pub is_heartbeat : AmqpFrame A → Bool
  is_heartbeat (AmqpFrame.heartbeat zero) = true
  is_heartbeat _ = false

  unfoldable pub process : AmqpFrame A → Step
  unfolding in_state is_heartbeat
  process frame h = if is_heartbeat frame then (ok tt, h) else in_state h.state frame h
