-- ===== src/ConnectionState/Advances/Calls.antt =====
-- Every primitive call of the I/O thread advances.
use amiquip.Prelude.{
  Bool-cases, ℕ, String, Bool, true, false, ◌≡◌, refl, ap, ◌∙◌, sym, List, [], ◌++◌, append-nil,
  Option, none, some, inl, inr, arith, if◌then◌else◌,
}
use mathlib.Core.Path.{subst}
use mathlib.Core.Bool.{false≢true}
use amiquip.Exec.{◌>>◌}
use amiquip.Exec.Keeps.{Keeps}
use amiquip.IndexSet.{IndexSet}
use amiquip.Protocol.{Amqp, AmqpClass, ConnectionMethod}
use amiquip.ChannelSlots
use amiquip.Serialize.{Codec, SealableOutputBuffer, seal}
use amiquip.Serialize.Append.{pushed}
use amiquip.Inner.Output.{push_method-after_push, after_push}
use amiquip.Inner.{
  record_sent, SendOutcome, sent, full, disconnected, Event, ChannelSlot, ConnectionState, Env, Io,
  with_inner, make_sender, slot_put, slot_remove, push_method, try_send, record_taken, Call,
  receiver, slot_or_bogus, seal_writes, set_state, slots_drain, blocking_send,
}
use amiquip.ConnectionState.{client_exception, leave_steady}
use amiquip.ConnectionState.Respects.{Respects, RespectsChannel, then_R}
use amiquip.ConnectionState.Advances.{
  Advances, said_last, refl_Advances, trans_Advances, unchanged, recorded,
}

module _ (A : Amqp) (I : IndexSet) (C : Codec A) (env : Env A) where
  record_sent-Advances :
      (e : Event A) (outcome : SendOutcome) (io : Io A I)
      → Advances A I C env io ((record_sent A I env e outcome io).1)
  unfolding record_sent
  record_sent-Advances e sent io = recorded A I C env e io
  record_sent-Advances e full io = refl_Advances A I C env io
  record_sent-Advances e disconnected io = refl_Advances A I C env io

  try_send-Advances : (e : Event A) → Keeps (Advances A I C env) (try_send A I env e)
  unfolding try_send Keeps
  try_send-Advances e io = record_sent-Advances e (env.try_send io.inner.log (receiver A e)) io

  taken-Advances :
      (e : Event A) (b : Bool) (io : Io A I)
      → Advances A I C env io ((record_taken A I env e b io).1)
  unfolding record_taken
  taken-Advances e true io = recorded A I C env e io
  taken-Advances e false io = refl_Advances A I C env io

  pub blocking_send-Advances : (e : Event A) → Keeps (Advances A I C env) (blocking_send A I env e)
  unfolding blocking_send Keeps record_taken
  blocking_send-Advances e io = taken-Advances e (env.takes io.inner.log (receiver A e)) io

  pushed-frozen :
      (s : SealableOutputBuffer) (bytes : List ℕ) → s.sealed ≡ true → pushed A C s bytes ≡ s
  pushed-frozen s bytes h = ground arith

  pushed_suffix : (s : SealableOutputBuffer) (bytes : List ℕ) → List ℕ
  pushed_suffix s bytes = if s.sealed then [] else bytes

  pushed-grows :
      (s : SealableOutputBuffer) (bytes : List ℕ)
      → (pushed A C s bytes).buf ≡ s.buf ++ pushed_suffix s bytes
  unfolding pushed_suffix
  pushed-grows s bytes = elim (Bool-cases s.sealed) [
    | inl e ↦ ground (arith, append-nil s.buf)
    | inr e ↦ ground arith
  ]

  after_push-Advances :
      (io : Io A I) (n : ℕ) (class : AmqpClass A)
      → Advances A I C env io (after_push A I C io n class)
  after_push-Advances io n class = record {
    events = [];
    log_grows = sym (append-nil io.inner.log);
    bytes = pushed_suffix io.inner.outbuf (C.method_bytes n class);
    output_grows = pushed-grows io.inner.outbuf (C.method_bytes n class);
    frozen = pushed-frozen io.inner.outbuf (C.method_bytes n class);
    closes = inl;
  }

  push_method-Advances :
      (n : ℕ) (class : AmqpClass A) → Keeps (Advances A I C env) (push_method A I C n class)
  unfolding Keeps
  push_method-Advances n class io =
      subst (λ r. Advances A I C env io r.1) (sym (push_method-after_push A I C io n class))
        (after_push-Advances io n class)

  seal_writes-Advances : Keeps (Advances A I C env) (seal_writes A I)
  unfolding Keeps seal_writes seal
  seal_writes-Advances io = record {
    events = [];
    log_grows = sym (append-nil io.inner.log);
    bytes = [];
    output_grows = sym (append-nil io.inner.outbuf.buf);
    frozen = λ h. ap (λ b. record io.inner.outbuf { sealed = b }) (sym h);
    closes = inl;
  }

  enter_sealed : ConnectionState A → Call A I (Unit {0})
  enter_sealed state = do seal_writes A I; set_state A I state

  pub respects_Advances : Respects A I C env (Advances A I C env)
  respects_Advances = record {
    refl_R = refl_Advances A I C env;
    trans_R = trans_Advances A I C env;
    try_send_R = try_send-Advances;
  }

  -- The state changes with the writes sealed.
  entered : (state : ConnectionState A) → Keeps (Advances A I C env) (enter_sealed state)
  unfolding Keeps enter_sealed seal_writes set_state seal
  entered state io = record {
    events = [];
    log_grows = sym (append-nil io.inner.log);
    bytes = [];
    output_grows = sym (append-nil io.inner.outbuf.buf);
    frozen = λ h. ap (λ b. record io.inner.outbuf { sealed = b }) (sym h);
    closes = λ h. inr refl;
  }

  pub leave_steady-Advances :
      (last : ConnectionMethod A) (state : ConnectionState A)
      → Keeps (Advances A I C env) (leave_steady A I C env last state)
  unfolding leave_steady enter_sealed
  leave_steady-Advances last state =
      then_R A I C env respects_Advances _ _ (push_method-Advances _ _) (λ _. entered state)

  pub client_exception-Advances :
      (code : ℕ) (text : String) → Keeps (Advances A I C env) (client_exception A I C env code text)
  unfolding client_exception
  client_exception-Advances code text = leave_steady-Advances _ _

  make_sender-Advances : Keeps (Advances A I C env) (make_sender A I)
  unfolding make_sender Keeps
  make_sender-Advances io = unchanged A I C env _ _ refl refl refl

  slot_put-Advances :
      (n : ℕ) (slot : ChannelSlot A) → Keeps (Advances A I C env) (slot_put A I n slot)
  unfolding slot_put Keeps
  slot_put-Advances n slot io = unchanged A I C env _ _ refl refl refl

  slot_or_bogus-Advances :
      (n : ℕ) (found : Option (ChannelSlot A))
      → Keeps (Advances A I C env) (slot_or_bogus A I n found)
  unfolding slot_or_bogus Keeps
  slot_or_bogus-Advances n none = refl_Advances A I C env
  slot_or_bogus-Advances n (some slot) = refl_Advances A I C env

  slot_remove-Advances : (n : ℕ) → Keeps (Advances A I C env) (slot_remove A I n)
  unfolding slot_remove Keeps
  slot_remove-Advances n io =
      trans_Advances A I C env io
        (with_inner A I io (record io.inner {
          chan_slots = (ChannelSlots.remove I (ChannelSlot A) io.inner.chan_slots n).1;
        }))
        _ (unchanged A I C env _ _ refl refl refl) (slot_or_bogus-Advances n _ _)

  pub slots_drain-Advances : Keeps (Advances A I C env) (slots_drain A I)
  unfolding slots_drain Keeps
  slots_drain-Advances io = unchanged A I C env _ _ refl refl refl

  pub set_state-Advances :
      (state : ConnectionState A)
      → said_last A I C env state ≡ false
      → Keeps (Advances A I C env) (set_state A I state)
  unfolding set_state Keeps
  set_state-Advances state quiet io = record {
    events = [];
    log_grows = sym (append-nil io.inner.log);
    bytes = [];
    output_grows = sym (append-nil io.inner.outbuf.buf);
    frozen = λ h. refl;
    closes = λ h. absurd (false≢true (sym quiet ∙ h));
  }

  pub RespectsChannel-Advances : (n : ℕ) → RespectsChannel A I C env (Advances A I C env) n
  RespectsChannel-Advances n = record {
    respects = respects_Advances;
    make_sender_R = make_sender-Advances;
    slot_put_R = slot_put-Advances n;
    slot_remove_R = slot_remove-Advances n;
    push_method_R = push_method-Advances n;
    client_exception_R = client_exception-Advances;
  }
