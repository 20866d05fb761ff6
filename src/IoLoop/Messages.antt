-- ===== src/IoLoop/Messages.antt =====
-- What the waiting messages of a channel do, against a description of them as a whole.
use amiquip.Prelude.{
  ℕ, suc, ◌≡◌, ◌≢◌, refl, ap, ◌∙◌, Bool, true, false, Bool-cases, inl, inr, List, [], ◌∷◌, ◌++◌,
  append-nil, append_assoc, Option, some, if_pos, if_neg, ite, ℕ_discrete, if◌then◌else◌, arith,
}
use amiquip.HashMap
use amiquip.Errors.{Result, ok, err, event_loop_client_dropped}
use amiquip.IndexSet.{IndexSet}
use amiquip.Protocol.{Amqp}
use amiquip.Serialize.{OutputBuffer, SealableOutputBuffer, append, seal}
use amiquip.ChannelSlots
use amiquip.Inner.{ChannelSlot, Io, seal_writes, slot_put, with_inner}
use amiquip.ChannelHandle.{IoLoopMessage}
use amiquip.IoLoop.{process_channel_message, handle_channel_readable, set_handler, slot_of}

-- The bytes of messages, up to a close of the connection.
unfoldable pub bytes_of : List IoLoopMessage → List ℕ
bytes_of [] = []
bytes_of (IoLoopMessage.send buf ∷ messages) = buf ++ bytes_of messages
bytes_of (IoLoopMessage.connection_close buf ∷ messages) = buf
bytes_of (IoLoopMessage.set_return_handler handler ∷ messages) = bytes_of messages
bytes_of (IoLoopMessage.set_pub_confirm_handler handler ∷ messages) = bytes_of messages

unfoldable pub closes : List IoLoopMessage → Bool
closes [] = false
closes (IoLoopMessage.connection_close buf ∷ messages) = true
closes (IoLoopMessage.send buf ∷ messages) = closes messages
closes (IoLoopMessage.set_return_handler handler ∷ messages) = closes messages
closes (IoLoopMessage.set_pub_confirm_handler handler ∷ messages) = closes messages

-- A sealed buffer stays, and another takes the bytes, and the seal of a close.
unfoldable pub written : SealableOutputBuffer → List IoLoopMessage → SealableOutputBuffer
written s messages =
    if s.sealed then s else record { buf = s.buf ++ bytes_of messages; sealed = closes messages }

-- The handlers that are set last.
unfoldable pub last_return : Option ℕ → List IoLoopMessage → Option ℕ
last_return handler [] = handler
last_return handler (IoLoopMessage.set_return_handler h ∷ messages) = last_return h messages
last_return handler (IoLoopMessage.send buf ∷ messages) = last_return handler messages
last_return handler (IoLoopMessage.connection_close buf ∷ messages) = last_return handler messages
last_return handler (IoLoopMessage.set_pub_confirm_handler h ∷ messages) =
    last_return handler messages

unfoldable pub last_confirm : Option ℕ → List IoLoopMessage → Option ℕ
last_confirm handler [] = handler
last_confirm handler (IoLoopMessage.set_pub_confirm_handler h ∷ messages) = last_confirm h messages
last_confirm handler (IoLoopMessage.send buf ∷ messages) = last_confirm handler messages
last_confirm handler (IoLoopMessage.connection_close buf ∷ messages) = last_confirm handler messages
last_confirm handler (IoLoopMessage.set_return_handler h ∷ messages) = last_confirm handler messages

written-send :
    (s : SealableOutputBuffer) (buf : OutputBuffer) (messages : List IoLoopMessage)
    → written (append s buf) messages ≡ written s (IoLoopMessage.send buf ∷ messages)
unfolding written append bytes_of closes
written-send s buf messages = elim (Bool-cases s.sealed) [
  | inl e ↦ rw e refl
  | inr e ↦ rw e (rw (append_assoc s.buf buf (bytes_of messages)) refl)
]

written-close :
    (s : SealableOutputBuffer) (buf : OutputBuffer) (messages : List IoLoopMessage)
    → written (seal (append s buf)) messages
      ≡ written s (IoLoopMessage.connection_close buf ∷ messages)
unfolding written append seal bytes_of closes
written-close s buf messages = elim (Bool-cases s.sealed) [
  | inl e ↦ ground arith
  | inr e ↦ rw e refl
]

module _ (A : Amqp) (I : IndexSet) where
  abbrev pub with_handlers : ChannelSlot A → List IoLoopMessage → ChannelSlot A
  with_handlers slot messages = record slot {
    return_handler = last_return slot.return_handler messages;
    pub_confirm_handler = last_confirm slot.pub_confirm_handler messages;
  }

  -- What handling the messages of channel `n` leaves.
  pub record Handles (n : ℕ) (slot : ChannelSlot A) (messages : List IoLoopMessage) (hung_up : Bool)
      (io : Io A I) (r : Result (Unit {0}) × Io A I) : Type 0 where
    pub result : r.0 ≡ (if hung_up then err event_loop_client_dropped else ok tt)
    pub outbuf : r.1.inner.outbuf ≡ written io.inner.outbuf messages
    pub own_slot : slot_of A I r.1 n ≡ some (with_handlers slot messages)
    pub other_slots : (m : ℕ) → n ≢ m → slot_of A I r.1 m ≡ slot_of A I io m
    pub same_state : r.1.state ≡ io.state
    pub same_log : r.1.inner.log ≡ io.inner.log

  -- One message in front of others.
  record Front (n : ℕ) (slot : ChannelSlot A) (message : IoLoopMessage) (io : Io A I) : Type 0 where
    next : Io A I
    next_slot : ChannelSlot A
    moved : process_channel_message A I n message io ≡ (ok tt, next)
    present : slot_of A I next n ≡ some next_slot
    others : (m : ℕ) → n ≢ m → slot_of A I next m ≡ slot_of A I io m
    state : next.state ≡ io.state
    log : next.inner.log ≡ io.inner.log
    outbuf :
        (messages : List IoLoopMessage)
        → written next.inner.outbuf messages ≡ written io.inner.outbuf (message ∷ messages)
    handlers :
        (messages : List IoLoopMessage)
        → with_handlers next_slot messages ≡ with_handlers slot (message ∷ messages)

  put_slot : ℕ → ChannelSlot A → Io A I → Io A I
  put_slot n slot io = with_inner A I io (record io.inner {
    chan_slots = ChannelSlots.put I (ChannelSlot A) io.inner.chan_slots n slot;
  })

  get-put :
      (n m : ℕ) (slot : ChannelSlot A) (io : Io A I)
      → slot_of A I (put_slot n slot io) m ≡ ite (ℕ_discrete n m) (some slot) (slot_of A I io m)
  unfolding put_slot ChannelSlots.put ChannelSlots.get
  get-put n m slot io = HashMap.get-insert ℕ_discrete io.inner.chan_slots.slots n m slot

  module _ (k : ℕ) (slot : ChannelSlot A) (io : Io A I)
      (present : slot_of A I io (suc k) ≡ some slot) where
    set_handler-put :
        (change : ChannelSlot A → ChannelSlot A)
        → set_handler A I (suc k) change io ≡ (ok tt, put_slot (suc k) (change slot) io)
    unfolding set_handler slot_put put_slot
    set_handler-put change = rw (set_handler, present) refl

    send-Front : (buf : OutputBuffer) → Front (suc k) slot (IoLoopMessage.send buf) io
    unfolding process_channel_message last_return last_confirm
    send-Front buf = record {
      next = with_inner A I io (record io.inner { outbuf = append io.inner.outbuf buf });
      next_slot = slot;
      moved = refl;
      present = present;
      others = λ m other. refl;
      state = refl;
      log = refl;
      outbuf = written-send io.inner.outbuf buf;
      handlers = λ messages. refl;
    }

    close-Front : (buf : OutputBuffer) → Front (suc k) slot (IoLoopMessage.connection_close buf) io
    unfolding process_channel_message seal_writes last_return last_confirm
    close-Front buf = record {
      next = with_inner A I io (record io.inner { outbuf = seal (append io.inner.outbuf buf) });
      next_slot = slot;
      moved = refl;
      present = present;
      others = λ m other. refl;
      state = refl;
      log = refl;
      outbuf = written-close io.inner.outbuf buf;
      handlers = λ messages. refl;
    }

    return-Front :
        (handler : Option ℕ) → Front (suc k) slot (IoLoopMessage.set_return_handler handler) io
    unfolding process_channel_message last_return last_confirm put_slot written bytes_of closes
    return-Front handler = record {
      next = put_slot (suc k) (record slot { return_handler = handler }) io;
      next_slot = record slot { return_handler = handler };
      moved = set_handler-put (λ s. record s { return_handler = handler });
      present = get-put (suc k) (suc k) _ io ∙ if_pos (ℕ_discrete (suc k) (suc k)) refl _ _;
      others = λ m other. get-put (suc k) m _ io ∙ if_neg (ℕ_discrete (suc k) m) other _ _;
      state = refl;
      log = refl;
      outbuf = λ messages. refl;
      handlers = λ messages. refl;
    }

    confirm-Front :
        (handler : Option ℕ) → Front (suc k) slot (IoLoopMessage.set_pub_confirm_handler handler) io
    unfolding process_channel_message last_return last_confirm put_slot written bytes_of closes
    confirm-Front handler = record {
      next = put_slot (suc k) (record slot { pub_confirm_handler = handler }) io;
      next_slot = record slot { pub_confirm_handler = handler };
      moved = set_handler-put (λ s. record s { pub_confirm_handler = handler });
      present = get-put (suc k) (suc k) _ io ∙ if_pos (ℕ_discrete (suc k) (suc k)) refl _ _;
      others = λ m other. get-put (suc k) m _ io ∙ if_neg (ℕ_discrete (suc k) m) other _ _;
      state = refl;
      log = refl;
      outbuf = λ messages. refl;
      handlers = λ messages. refl;
    }

    front : (message : IoLoopMessage) → Front (suc k) slot message io
    front (IoLoopMessage.send buf) = send-Front buf
    front (IoLoopMessage.connection_close buf) = close-Front buf
    front (IoLoopMessage.set_return_handler handler) = return-Front handler
    front (IoLoopMessage.set_pub_confirm_handler handler) = confirm-Front handler

    nothing-Handles :
        (hung_up : Bool)
        → Handles (suc k) slot [] hung_up io (handle_channel_readable A I (suc k) [] hung_up io)
    unfolding handle_channel_readable written bytes_of closes last_return last_confirm
    nothing-Handles hung_up =
        rw (handle_channel_readable, present)
          (record {
            result = refl;
            outbuf = elim (Bool-cases io.inner.outbuf.sealed) [
              | inl e ↦ rw e refl
              | inr e ↦ ground (arith, append-nil io.inner.outbuf.buf)
            ];
            own_slot = present;
            other_slots = λ m other. refl;
            same_state = refl;
            same_log = refl;
          })

  -- Handling all the messages that wait on an open channel other than channel 0 returns: without
  -- an error unless the client is gone behind them. It appends the bytes of the messages in their
  -- order to an unsealed buffer, up to the first close of the connection, which seals it, and
  -- leaves a sealed buffer as it is; the handlers of the channel are those set last, and no other
  -- channel, no state and no client is touched.
  pub handle_channel_readable-Handles :
      (k : ℕ) (messages : List IoLoopMessage) (hung_up : Bool) (slot : ChannelSlot A) (io : Io A I)
      → slot_of A I io (suc k) ≡ some slot
      → Handles
          (suc k)
          slot
          messages
          hung_up
          io
          (handle_channel_readable A I (suc k) messages hung_up io)
  unfolding handle_channel_readable
  handle_channel_readable-Handles k [] hung_up slot io present =
      nothing-Handles k slot io present hung_up
  handle_channel_readable-Handles k (message ∷ messages) hung_up slot io present =
      let f = front k slot io present message in
      let h = handle_channel_readable-Handles k messages hung_up f.next_slot f.next f.present in
      rw (handle_channel_readable, present, f.moved)
        (record {
          result = h.result;
          outbuf = h.outbuf ∙ f.outbuf messages;
          own_slot = h.own_slot ∙ ap some (f.handlers messages);
          other_slots = λ m other. h.other_slots m other ∙ f.others m other;
          same_state = h.same_state ∙ f.state;
          same_log = h.same_log ∙ f.log;
        })
