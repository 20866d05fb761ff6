-- ===== src/ConnectionState/Advances.antt =====
-- The log and the outgoing bytes grow, and a sealed buffer stays: an order on the states of the I/O thread.
pub mod Calls
use amiquip.Prelude.{
  Bool-cases, ℕ, String, Bool, true, false, ◌≡◌, refl, ap, ◌∙◌, sym, List, [], ◌∷◌, ◌++◌,
  append-nil, append_assoc, Option, none, some, ◌⊎◌, inl, inr, arith, if◌then◌else◌,
}
use mathlib.Core.Path.{subst}
use mathlib.Core.Bool.{false≢true}
use amiquip.Exec.{◌>>◌}
use amiquip.Exec.Keeps.{Keeps}
use amiquip.IndexSet.{IndexSet}
use amiquip.Protocol.{Amqp, AmqpClass, ConnectionMethod}
use amiquip.ChannelSlots
use amiquip.Serialize.{Codec, SealableOutputBuffer, seal}
use amiquip.Serialize.Append.{pushed}
use amiquip.Inner.Output.{push_method-after_push, after_push}
use amiquip.Inner.{
  record_sent, SendOutcome, sent, full, disconnected, Event, ChannelSlot, ConnectionState, Env, Io,
  with_inner, make_sender, slot_put, slot_remove, push_method, try_send, record_event, record_taken,
  Call, receiver, slot_or_bogus, seal_writes, set_state, slots_drain, blocking_send,
}
use amiquip.ConnectionState.{client_exception, leave_steady}
use amiquip.ConnectionState.Respects.{Respects, RespectsChannel, then_R}

module _ (A : Amqp) (I : IndexSet) (C : Codec A) (env : Env A) where
  -- The states that the thread enters with a last frame of its own: a `Close` or a `CloseOk`.
  unfoldable pub said_last : ConnectionState A → Bool
  said_last (ConnectionState.steady ch0) = false
  said_last (ConnectionState.server_closing close) = true
  said_last ConnectionState.client_exception = true
  said_last ConnectionState.client_closed = false

  pub record Advances (a b : Io A I) : Type 0 where
    pub events : List (Event A)
    pub log_grows : b.inner.log ≡ a.inner.log ++ events
    pub bytes : List ℕ
    pub output_grows : b.inner.outbuf.buf ≡ a.inner.outbuf.buf ++ bytes
    pub frozen : a.inner.outbuf.sealed ≡ true → b.inner.outbuf ≡ a.inner.outbuf
    pub closes :
        said_last b.state ≡ true → (said_last a.state ≡ true) ⊎ (b.inner.outbuf.sealed ≡ true)

  pub refl_Advances : (a : Io A I) → Advances a a
  refl_Advances a = record {
    events = [];
    log_grows = sym (append-nil a.inner.log);
    bytes = [];
    output_grows = sym (append-nil a.inner.outbuf.buf);
    frozen = λ h. refl;
    closes = inl;
  }

  closes_trans :
      (a b c : Io A I)
      → Advances a b
      → Advances b c
      → said_last c.state ≡ true
      → (said_last a.state ≡ true) ⊎ (c.inner.outbuf.sealed ≡ true)
  closes_trans a b c p q h = elim (q.closes h) [
    | inr e ↦ inr e
    | inl l ↦ elim (p.closes l) [
      | inl l' ↦ inl l'
      | inr e ↦ inr (ap (λ (o : SealableOutputBuffer). o.sealed) (q.frozen e) ∙ e)
    ]
  ]

  grows_trans :
      {X : Type 0} (x y z : List X) (xs ys : List X)
      → y ≡ x ++ xs
      → z ≡ y ++ ys
      → z ≡ x ++ (xs ++ ys)
  grows_trans x y z xs ys p q = q ∙ ap (λ l. l ++ ys) p ∙ append_assoc x xs ys

  pub trans_Advances : (a b c : Io A I) → Advances a b → Advances b c → Advances a c
  trans_Advances a b c p q = record {
    events = p.events ++ q.events;
    log_grows = grows_trans _ _ _ p.events q.events p.log_grows q.log_grows;
    bytes = p.bytes ++ q.bytes;
    output_grows = grows_trans _ _ _ p.bytes q.bytes p.output_grows q.output_grows;
    frozen =
        λ h. q.frozen (ap (λ (o : SealableOutputBuffer). o.sealed) (p.frozen h) ∙ h) ∙ p.frozen h;
    closes = closes_trans a b c p q;
  }

  pub unchanged :
      (a b : Io A I)
      → b.inner.log ≡ a.inner.log
      → b.inner.outbuf ≡ a.inner.outbuf
      → said_last b.state ≡ said_last a.state
      → Advances a b
  unchanged a b log out state = record {
    events = [];
    log_grows = log ∙ sym (append-nil a.inner.log);
    bytes = [];
    output_grows =
        ap (λ (o : SealableOutputBuffer). o.buf) out ∙ sym (append-nil a.inner.outbuf.buf);
    frozen = λ h. out;
    closes = λ h. inl (sym state ∙ h);
  }

  pub recorded : (e : Event A) (io : Io A I) → Advances io (record_event A I e io)
  recorded e io = record {
    events = e ∷ [];
    log_grows = refl;
    bytes = [];
    output_grows = sym (append-nil io.inner.outbuf.buf);
    frozen = λ h. refl;
    closes = inl;
  }
