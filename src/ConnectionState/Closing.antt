-- ===== src/ConnectionState/Closing.antt =====
-- What every frame respects: the log, the outgoing bytes, and the seal behind a close frame.
use amiquip.Prelude.{ℕ, zero, suc, refl, List, [], ◌∷◌}
use amiquip.Errors.{Result}
use amiquip.Exec.Keeps.{Keeps}
use amiquip.IndexSet.{IndexSet}
use amiquip.Protocol.{Amqp, AmqpClass, AmqpFrame, ConnectionMethod}
use amiquip.Serialize.{Codec}
use amiquip.Inner.{
  ChannelMessage, ConsumerMessage, Channel0Slot, ChannelSlot, ConnectionState,
  ConnectionBlockedNotification, Env, Io,
}
use amiquip.ConnectionState.{
  process, process_all, in_state, steady_frame, channel0_method, channel0_class, illegal_frame,
  send_slots, send_drained, try_send_blocked,
}
use amiquip.ConnectionState.Respects.{then_R, still, send_slot-Keeps, try_handler-Keeps}
use amiquip.ConnectionState.Respects.Methods.{
  method_frame-Keeps, content_header-Keeps, content_body-Keeps,
}
use amiquip.ConnectionState.Advances.{Advances, said_last}
use amiquip.ConnectionState.Advances.Calls.{
  leave_steady-Advances, client_exception-Advances, respects_Advances, RespectsChannel-Advances,
  set_state-Advances, slots_drain-Advances, blocking_send-Advances,
}

module _ (A : Amqp) (I : IndexSet) (C : Codec A) (env : Env A) where
  send_slots-Advances :
      (reply : Result (ChannelMessage A)) (message : ConsumerMessage A)
      (slots : List (ℕ × ChannelSlot A))
      → Keeps (Advances A I C env) (send_slots A I C env reply message slots)
  unfolding send_slots
  send_slots-Advances reply message [] = still A I C env (respects_Advances A I C env) _
  send_slots-Advances reply message ((n, slot) ∷ slots) =
      then_R A I C env (respects_Advances A I C env) _ _
        (send_slot-Keeps A I C env (respects_Advances A I C env) reply message slot)
        (λ _. send_slots-Advances reply message slots)

  send_drained-Advances :
      (reply : Result (ChannelMessage A)) (message : ConsumerMessage A)
      → Keeps (Advances A I C env) (send_drained A I C env reply message)
  unfolding send_drained
  send_drained-Advances reply message =
      then_R A I C env (respects_Advances A I C env) _ _ (slots_drain-Advances A I C env)
        (send_slots-Advances reply message)

  try_send_blocked-Advances :
      (ch0 : Channel0Slot A) (note : ConnectionBlockedNotification)
      → Keeps (Advances A I C env) (try_send_blocked A I C env ch0 note)
  unfolding try_send_blocked said_last
  try_send_blocked-Advances ch0 note =
      try_handler-Keeps A I C env (respects_Advances A I C env) _ ch0.blocked_tx _
        (set_state-Advances A I C env _ refl)

  channel0_method-Advances :
      (ch0 : Channel0Slot A) (m : ConnectionMethod A) (class : AmqpClass A)
      → Keeps (Advances A I C env) (channel0_method A I C env ch0 m class)
  unfolding channel0_method said_last
  channel0_method-Advances ch0 (ConnectionMethod.close close) class =
      then_R A I C env (respects_Advances A I C env) _ _ (leave_steady-Advances A I C env _ _)
        (λ _. send_drained-Advances _ _)
  channel0_method-Advances ch0 ConnectionMethod.close_ok class =
      then_R A I C env (respects_Advances A I C env) _ _ (blocking_send-Advances A I C env _) (λ _.
        then_R A I C env (respects_Advances A I C env) _ _ (set_state-Advances A I C env _ refl)
          (λ _. send_drained-Advances _ _))
  channel0_method-Advances ch0 (ConnectionMethod.blocked reason) class =
      try_send_blocked-Advances ch0 _
  channel0_method-Advances ch0 ConnectionMethod.unblocked class = try_send_blocked-Advances ch0 _
  channel0_method-Advances ch0 (ConnectionMethod.start p) class =
      client_exception-Advances A I C env _ _
  channel0_method-Advances ch0 (ConnectionMethod.start_ok p) class =
      client_exception-Advances A I C env _ _
  channel0_method-Advances ch0 (ConnectionMethod.secure p) class =
      client_exception-Advances A I C env _ _
  channel0_method-Advances ch0 (ConnectionMethod.secure_ok p) class =
      client_exception-Advances A I C env _ _
  channel0_method-Advances ch0 (ConnectionMethod.tune p) class =
      client_exception-Advances A I C env _ _
  channel0_method-Advances ch0 (ConnectionMethod.tune_ok p) class =
      client_exception-Advances A I C env _ _
  channel0_method-Advances ch0 (ConnectionMethod.open_ p) class =
      client_exception-Advances A I C env _ _
  channel0_method-Advances ch0 (ConnectionMethod.open_ok p) class =
      client_exception-Advances A I C env _ _

  channel0_class-Advances :
      (ch0 : Channel0Slot A) (class : AmqpClass A)
      → Keeps (Advances A I C env) (channel0_class A I C env ch0 class)
  unfolding channel0_class
  channel0_class-Advances ch0 (AmqpClass.connection m) = channel0_method-Advances ch0 m _
  channel0_class-Advances ch0 (AmqpClass.channel m) = client_exception-Advances A I C env _ _
  channel0_class-Advances ch0 (AmqpClass.access p) = client_exception-Advances A I C env _ _
  channel0_class-Advances ch0 (AmqpClass.tx p) = client_exception-Advances A I C env _ _
  channel0_class-Advances ch0 (AmqpClass.exchange m) = client_exception-Advances A I C env _ _
  channel0_class-Advances ch0 (AmqpClass.queue m) = client_exception-Advances A I C env _ _
  channel0_class-Advances ch0 (AmqpClass.basic m) = client_exception-Advances A I C env _ _
  channel0_class-Advances ch0 (AmqpClass.confirm m) = client_exception-Advances A I C env _ _

  illegal_frame-Advances :
      (frame : AmqpFrame A) → Keeps (Advances A I C env) (illegal_frame A I C env frame)
  unfolding illegal_frame
  illegal_frame-Advances frame = client_exception-Advances A I C env _ _

  steady_frame-Advances :
      (ch0 : Channel0Slot A) (frame : AmqpFrame A)
      → Keeps (Advances A I C env) (steady_frame A I C env ch0 frame)
  unfolding steady_frame
  steady_frame-Advances ch0 AmqpFrame.protocol_header =
      still A I C env (respects_Advances A I C env) _
  steady_frame-Advances ch0 (AmqpFrame.heartbeat zero) =
      still A I C env (respects_Advances A I C env) _
  steady_frame-Advances ch0 (AmqpFrame.heartbeat (suc n)) =
      still A I C env (respects_Advances A I C env) _
  steady_frame-Advances ch0 (AmqpFrame.method zero class) = channel0_class-Advances ch0 class
  steady_frame-Advances ch0 (AmqpFrame.method (suc n) class) =
      method_frame-Keeps A I C env (RespectsChannel-Advances A I C env (suc n)) class
  steady_frame-Advances ch0 (AmqpFrame.header zero class_id header) = illegal_frame-Advances _
  steady_frame-Advances ch0 (AmqpFrame.header (suc n) class_id header) =
      content_header-Keeps A I C env (RespectsChannel-Advances A I C env (suc n)) header
  steady_frame-Advances ch0 (AmqpFrame.body zero piece) = illegal_frame-Advances _
  steady_frame-Advances ch0 (AmqpFrame.body (suc n) piece) =
      content_body-Keeps A I C env (RespectsChannel-Advances A I C env (suc n)) piece

  in_state-Advances :
      (state : ConnectionState A) (frame : AmqpFrame A)
      → Keeps (Advances A I C env) (in_state A I C env state frame)
  unfolding in_state
  in_state-Advances (ConnectionState.steady ch0) frame = steady_frame-Advances ch0 frame
  in_state-Advances ConnectionState.client_exception frame =
      still A I C env (respects_Advances A I C env) _
  in_state-Advances (ConnectionState.server_closing close) frame =
      still A I C env (respects_Advances A I C env) _
  in_state-Advances ConnectionState.client_closed frame =
      still A I C env (respects_Advances A I C env) _

  process-Keeps : (frame : AmqpFrame A) → Keeps (Advances A I C env) (process A I C env frame)
  unfolding process Keeps
  process-Keeps frame io = in_state-Advances io.state frame io

  all-Keeps :
      (frames : List (AmqpFrame A)) → Keeps (Advances A I C env) (process_all A I C env frames)
  unfolding process_all
  all-Keeps [] = still A I C env (respects_Advances A I C env) _
  all-Keeps (frame ∷ frames) =
      then_R A I C env (respects_Advances A I C env) _ _ (process-Keeps frame)
        (λ _. all-Keeps frames)

  -- Over any frames that the server sends, also up to an error: the messages to the clients and
  -- the bytes to the server are only added to; a sealed buffer does not change; and where the
  -- state has become one with a last frame of ours, the buffer is sealed.
  pub process_all-Advances :
      (frames : List (AmqpFrame A)) (io : Io A I)
      → Advances A I C env io ((process_all A I C env frames io).1)
  unfolding Keeps
  process_all-Advances frames io = all-Keeps frames io
