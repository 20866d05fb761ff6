-- ===== src/ConnectionState/Isolation.antt =====
-- A frame of one channel leaves the slots of the others alone.
use amiquip.Prelude.{
  ℕ, zero, suc, String, ◌≡◌, ◌≢◌, refl, ap, ◌∙◌, sym, Option, none, some, if_neg, ℕ_discrete, arith,
}
use mathlib.Core.Path.{subst}
use amiquip.HashMap
use amiquip.Exec.Keeps.{Keeps}
use amiquip.IndexSet.{IndexSet}
use amiquip.Protocol.{Amqp, AmqpClass, AmqpFrame}
use amiquip.ChannelSlots
use amiquip.ChannelSlots.{ChannelSlots}
use amiquip.Serialize.{Codec}
use amiquip.Inner.Output.{push_method-after_push}
use amiquip.Inner.{
  receiver, record_sent, slot_or_bogus, seal_writes, set_state, SendOutcome, Channel0Slot, sent,
  full, disconnected, Event, ChannelSlot, ConnectionState, Env, Io, make_sender, slot_put,
  slot_remove, push_method, try_send,
}
use amiquip.ConnectionState.{client_exception, leave_steady, process, in_state, steady_frame}
use amiquip.ConnectionState.Respects.{Respects, RespectsChannel, then_R, still}
use amiquip.ConnectionState.Respects.Methods.{
  method_frame-Keeps, content_header-Keeps, content_body-Keeps,
}

module _ (A : Amqp) (I : IndexSet) (C : Codec A) (env : Env A) where
  abbrev pub slot_at : Io A I → ℕ → Option (ChannelSlot A)
  slot_at io m = ChannelSlots.get I (ChannelSlot A) io.inner.chan_slots m

  -- The channel that a frame is about.
  unfoldable pub channel_of : AmqpFrame A → ℕ
  channel_of AmqpFrame.protocol_header = 0
  channel_of (AmqpFrame.heartbeat n) = n
  channel_of (AmqpFrame.method n class) = n
  channel_of (AmqpFrame.header n class_id header) = n
  channel_of (AmqpFrame.body n piece) = n

  module _ (m : ℕ) where
    unfoldable pub Untouched : Io A I → Io A I → Type 0
    Untouched a b = slot_at b m ≡ slot_at a m

    record_sent-Untouched :
        (e : Event A) (outcome : SendOutcome) (io : Io A I)
        → slot_at ((record_sent A I env e outcome io).1) m ≡ slot_at io m
    unfolding record_sent
    record_sent-Untouched e sent io = refl
    record_sent-Untouched e full io = refl
    record_sent-Untouched e disconnected io = refl

    try_send-Untouched : (e : Event A) → Keeps Untouched (try_send A I env e)
    unfolding try_send Untouched Keeps
    try_send-Untouched e io = record_sent-Untouched e (env.try_send io.inner.log (receiver A e)) io

    respects_Untouched : Respects A I C env Untouched
    unfolding Untouched
    respects_Untouched = record {
      refl_R = λ io. refl;
      trans_R = λ a b c p q. q ∙ p;
      try_send_R = try_send-Untouched;
    }

    push_method-Untouched :
        (n : ℕ) (class : AmqpClass A) → Keeps Untouched (push_method A I C n class)
    unfolding Keeps Untouched
    push_method-Untouched n class io =
        subst (λ r. slot_at r.1 m ≡ slot_at io m) (sym (push_method-after_push A I C io n class))
          refl

    seal_writes-Untouched : Keeps Untouched (seal_writes A I)
    unfolding seal_writes Keeps Untouched
    seal_writes-Untouched io = refl

    set_state-Untouched : (state : ConnectionState A) → Keeps Untouched (set_state A I state)
    unfolding set_state Keeps Untouched
    set_state-Untouched state io = refl

    client_exception-Untouched :
        (code : ℕ) (text : String) → Keeps Untouched (client_exception A I C env code text)
    unfolding client_exception leave_steady
    client_exception-Untouched code text =
        then_R A I C env respects_Untouched _ _ (push_method-Untouched _ _) (λ _.
          then_R A I C env respects_Untouched _ _ seal_writes-Untouched
            (λ _. set_state-Untouched _))

    make_sender-Untouched : Keeps Untouched (make_sender A I)
    unfolding make_sender Keeps Untouched
    make_sender-Untouched io = refl

    module _ (n : ℕ) (other : n ≢ m) where
      slot_put-Untouched : (slot : ChannelSlot A) → Keeps Untouched (slot_put A I n slot)
      unfolding slot_put Keeps Untouched ChannelSlots.put ChannelSlots.get
      slot_put-Untouched slot io =
          HashMap.get-insert ℕ_discrete io.inner.chan_slots.slots n m slot
          ∙ if_neg (ℕ_discrete n m) other _ _

      slot_or_bogus-same :
          (found : Option (ChannelSlot A)) (io : Io A I) → (slot_or_bogus A I n found io).1 ≡ io
      unfolding slot_or_bogus
      slot_or_bogus-same none io = refl
      slot_or_bogus-same (some slot) io = refl

      get-remove_other :
          (s : ChannelSlots I (ChannelSlot A))
          → ChannelSlots.get I (ChannelSlot A) ((ChannelSlots.remove I (ChannelSlot A) s n).1) m
            ≡ ChannelSlots.get I (ChannelSlot A) s m
      unfolding ChannelSlots.remove ChannelSlots.get
      get-remove_other s = ground (HashMap.get-remove ℕ_discrete s.slots n m, arith)

      slot_remove-Untouched : Keeps Untouched (slot_remove A I n)
      unfolding slot_remove Keeps Untouched
      slot_remove-Untouched io =
          ap (λ io'. slot_at io' m) (slot_or_bogus-same _ _) ∙ get-remove_other io.inner.chan_slots

      RespectsChannel-Untouched : RespectsChannel A I C env Untouched n
      RespectsChannel-Untouched = record {
        respects = respects_Untouched;
        make_sender_R = make_sender-Untouched;
        slot_put_R = slot_put-Untouched;
        slot_remove_R = slot_remove-Untouched;
        push_method_R = push_method-Untouched n;
        client_exception_R = client_exception-Untouched;
      }

    steady_frame-Untouched :
        (ch0 : Channel0Slot A) (frame : AmqpFrame A)
        → channel_of frame ≢ 0
        → channel_of frame ≢ m
        → Keeps Untouched (steady_frame A I C env ch0 frame)
    unfolding steady_frame channel_of
    steady_frame-Untouched ch0 AmqpFrame.protocol_header h other = absurd (h refl)
    steady_frame-Untouched ch0 (AmqpFrame.heartbeat zero) h other = absurd (h refl)
    steady_frame-Untouched ch0 (AmqpFrame.heartbeat (suc n)) h other =
        still A I C env respects_Untouched _
    steady_frame-Untouched ch0 (AmqpFrame.method zero class) h other = absurd (h refl)
    steady_frame-Untouched ch0 (AmqpFrame.method (suc n) class) h other =
        method_frame-Keeps A I C env (RespectsChannel-Untouched (suc n) other) class
    steady_frame-Untouched ch0 (AmqpFrame.header zero class_id header) h other = absurd (h refl)
    steady_frame-Untouched ch0 (AmqpFrame.header (suc n) class_id header) h other =
        content_header-Keeps A I C env (RespectsChannel-Untouched (suc n) other) header
    steady_frame-Untouched ch0 (AmqpFrame.body zero piece) h other = absurd (h refl)
    steady_frame-Untouched ch0 (AmqpFrame.body (suc n) piece) h other =
        content_body-Keeps A I C env (RespectsChannel-Untouched (suc n) other) piece

    in_state-Untouched :
        (state : ConnectionState A) (frame : AmqpFrame A)
        → channel_of frame ≢ 0
        → channel_of frame ≢ m
        → Keeps Untouched (in_state A I C env state frame)
    unfolding in_state
    in_state-Untouched (ConnectionState.steady ch0) frame h other =
        steady_frame-Untouched ch0 frame h other
    in_state-Untouched ConnectionState.client_exception frame h other =
        still A I C env respects_Untouched _
    in_state-Untouched (ConnectionState.server_closing close) frame h other =
        still A I C env respects_Untouched _
    in_state-Untouched ConnectionState.client_closed frame h other =
        still A I C env respects_Untouched _

  -- Whatever a frame of a channel other than 0 does, also when it fails, the slot of every other
  -- channel is afterwards what it was before.
  pub process-isolated :
      (io : Io A I) (frame : AmqpFrame A) (m : ℕ)
      → channel_of frame ≢ 0
      → channel_of frame ≢ m
      → slot_at ((process A I C env frame io).1) m ≡ slot_at io m
  unfolding process Keeps Untouched
  process-isolated io frame m h other = in_state-Untouched m io.state frame h other io
