-- ===== src/Heartbeats/Silence.antt =====
-- What the I/O thread does about a silent server, and about its own silence.
use amiquip.Prelude.{
  ℕ, suc, ◌+◌, ◌-◌, ◌≤◌, ◌<◌, ◌≡◌, refl, ap, sym, ◌∙◌, Bool, true, false, List, [], ◌∷◌, ◌++◌, leb,
  length, ◌&&◌, ◌||◌, if◌then◌else◌, Bool-cases, inl, inr, arith, some,
}
use amiquip.Errors.{Result, ok, err, missed_server_heartbeats}
use amiquip.Exec.{then_call}
use amiquip.Protocol.{Amqp}
use amiquip.Serialize.{Codec, SealableOutputBuffer, is_empty}
use amiquip.Serialize.Append.{pushed, sealable_push_heartbeat-pushed}
use amiquip.Heartbeats.{
  set_timeout, cancel_timeout, Timer, Heartbeat, HeartbeatKind, RxTxHeartbeat, Beating, fudge,
  judge, fire, set, cancel, fire_rx, fire_tx, after_rx, after_tx, process_timer,
  process_heartbeat_timers,
}

-- The timers that fire while the server is heard: the clock does not go back behind the last time
-- that it was heard, and when the timer for it fires, the deadline is more than 5 ms away.
pub data Heard (last deadline : ℕ) : List (HeartbeatKind × ℕ) → Type 0 where
  nothing : Heard last deadline []
  rx_fired :
      (now : ℕ) (fired : List (HeartbeatKind × ℕ))
      → last ≤ now
      → now + fudge < deadline
      → Heard last deadline fired
      → Heard last deadline ((HeartbeatKind.rx, now) ∷ fired)
  tx_fired :
      (now : ℕ) (fired : List (HeartbeatKind × ℕ))
      → Heard last deadline fired
      → Heard last deadline ((HeartbeatKind.tx, now) ∷ fired)

abbrev pub beating : SealableOutputBuffer → Timer HeartbeatKind → RxTxHeartbeat → Beating
beating buf timer hb = record {
  outbuf = buf;
  heartbeats = record { timer = timer; heartbeats = some hb };
}

-- The timer behind a heartbeat that fired, and the heartbeat.
abbrev armed : Timer HeartbeatKind → Heartbeat HeartbeatKind → ℕ → Timer HeartbeatKind
armed timer self when = record {
  requests = (timer.requests ++ cancel_timeout self.timeout ∷ []) ++ set_timeout when self.val ∷ [];
  next_timeout = suc timer.next_timeout;
}

abbrev again : Timer HeartbeatKind → Heartbeat HeartbeatKind → Heartbeat HeartbeatKind
again timer self = record self { timeout = timer.next_timeout }

-- The deadline of the server.
abbrev pub deadline_of : RxTxHeartbeat → ℕ
deadline_of hb = hb.rx.last + hb.rx.interval

abbrev pub with_timeouts : RxTxHeartbeat → ℕ → ℕ → RxTxHeartbeat
with_timeouts hb rx_timeout tx_timeout = record {
  rx = record hb.rx { timeout = rx_timeout };
  tx = record hb.tx { timeout = tx_timeout };
}

-- Our side was silent for its interval, less 5 ms.
abbrev pub is_due : RxTxHeartbeat → ℕ → Bool
is_due hb now = leb hb.tx.interval ((now - hb.tx.last) + fudge)

-- Some timer for our side fires when our side was silent for so long.
unfoldable pub due : RxTxHeartbeat → List (HeartbeatKind × ℕ) → Bool
due hb [] = false
due hb ((HeartbeatKind.rx, now) ∷ fired) = due hb fired
due hb ((HeartbeatKind.tx, now) ∷ fired) = is_due hb now || due hb fired

module _ (A : Amqp) (C : Codec A) where
  -- The buffer after timers that fired, where `b` says that a heartbeat was due.
  abbrev pub beaten : Bool → SealableOutputBuffer → SealableOutputBuffer
  beaten b s = if b && is_empty s.buf then pushed A C s C.heartbeat_bytes else s

  is_empty-append : (buf bytes : List ℕ) → 1 ≤ length bytes → is_empty (buf ++ bytes) ≡ false
  is_empty-append [] [] h = absurd (omega arith)
  is_empty-append [] (b ∷ bytes) h = refl
  is_empty-append (b ∷ buf) bytes h = refl

  pushed-sealed : (s : SealableOutputBuffer) → s.sealed ≡ true → pushed A C s C.heartbeat_bytes ≡ s
  pushed-sealed s shut = rw shut refl

  -- A heartbeat is not queued behind another.
  beaten_again :
      (b : Bool) (s : SealableOutputBuffer)
      → 1 ≤ length C.heartbeat_bytes
      → is_empty s.buf ≡ true
      → beaten b (pushed A C s C.heartbeat_bytes) ≡ pushed A C s C.heartbeat_bytes
  beaten_again false s h e = refl
  beaten_again true s h e = elim (Bool-cases s.sealed) [
    | inl shut ↦
        let same = pushed-sealed s shut in
        let kept : beaten true s ≡ s = rw e same in ap (beaten true) same ∙ kept ∙ sym same
    | inr open_ ↦
        let full : is_empty ((pushed A C s C.heartbeat_bytes).buf) ≡ false =
          rw open_ (is_empty-append s.buf C.heartbeat_bytes h) in
        rw full refl
  ]

  beaten_both :
      (a b : Bool) (s : SealableOutputBuffer)
      → 1 ≤ length C.heartbeat_bytes
      → beaten b (beaten a s) ≡ beaten (a || b) s
  beaten_both false b s h = refl
  beaten_both true false s h = refl
  beaten_both true true s h = elim (Bool-cases (is_empty s.buf)) [
    | inl e ↦ rw e (beaten_again true s h e)
    | inr e ↦ let kept : beaten true s ≡ s = rw e refl in ap (beaten true) kept
  ]

  -- What timers that fire leave, by whether a heartbeat was due to the server: the buffer with a
  -- heartbeat frame or without, a new timeout for each, and what both directions are judged by.
  pub record Goes (before : Beating) (hb : RxTxHeartbeat) (fires : ℕ) (b : Bool)
      (r : Result (Unit {0}) × Beating) : Type 0 where
    pub timer : Timer HeartbeatKind
    pub rx_timeout : ℕ
    pub tx_timeout : ℕ
    pub outcome :
        r ≡ (ok tt, beating (beaten b before.outbuf) timer (with_timeouts hb rx_timeout tx_timeout))
    pub rearmed : timer.next_timeout ≡ before.heartbeats.timer.next_timeout + fires

  module _ (buf : SealableOutputBuffer) (timer : Timer HeartbeatKind) (hb : RxTxHeartbeat)
      (now : ℕ) where
    pub early-Goes :
        hb.rx.last ≤ now
        → now + fudge < deadline_of hb
        → Goes
            (beating buf timer hb)
            hb
            1
            false
            (process_timer A C HeartbeatKind.rx now (beating buf timer hb))
    unfolding process_timer fire_rx fire judge set cancel after_rx
    early-Goes past early =
        let e : leb hb.rx.interval ((now - hb.rx.last) + fudge) ≡ false = ground arith in
        record {
          timer = armed timer hb.rx (hb.rx.interval - (now - hb.rx.last));
          rx_timeout = timer.next_timeout;
          tx_timeout = hb.tx.timeout;
          outcome = rw e refl;
          rearmed = omega arith;
        }

    pub late-missed :
        deadline_of hb ≤ now + fudge
        → (process_timer A C HeartbeatKind.rx now (beating buf timer hb)).0
          ≡ err missed_server_heartbeats
    unfolding process_timer fire_rx fire judge set cancel after_rx
    late-missed late =
        let e : leb hb.rx.interval ((now - hb.rx.last) + fudge) ≡ true = ground arith in rw e refl

    tx-outcome :
        (b : Bool)
        → is_due hb now ≡ b
        → process_timer A C HeartbeatKind.tx now (beating buf timer hb) ≡ (
          ok tt,
          beating
              (beaten b buf)
              (armed timer hb.tx
                (if b then hb.tx.interval else hb.tx.interval - (now - hb.tx.last)))
              (record hb { tx = again timer hb.tx }),
        )
    unfolding process_timer fire_tx fire judge set cancel after_tx
    tx-outcome false early = rw early refl
    tx-outcome true late = elim (Bool-cases (is_empty buf.buf)) [
      | inl e ↦ rw (late, e, sealable_push_heartbeat-pushed A C buf) refl
      | inr e ↦ rw (late, e) refl
    ]

    pub tx-Goes :
        Goes
          (beating buf timer hb)
          hb
          1
          (is_due hb now)
          (process_timer A C HeartbeatKind.tx now (beating buf timer hb))
    tx-Goes = record {
      timer = armed timer hb.tx _;
      rx_timeout = hb.rx.timeout;
      tx_timeout = timer.next_timeout;
      outcome = tx-outcome (is_due hb now) refl;
      rearmed = omega arith;
    }

  module _ (frame : 1 ≤ length C.heartbeat_bytes) where
    -- One timer in front of others.
    then_call-Goes :
        {fires : ℕ} {a b : Bool} {before : Beating} {hb : RxTxHeartbeat}
        {r : Result (Unit {0}) × Beating} (others : Beating → Result (Unit {0}) × Beating)
        (g : Goes before hb 1 a r)
        → (let after = with_timeouts hb g.rx_timeout g.tx_timeout in
            Goes
              (beating (beaten a before.outbuf) g.timer after)
              after
              fires
              b
              (others (beating (beaten a before.outbuf) g.timer after)))
        → Goes before hb (suc fires) (a || b) (then_call r (λ _. others))
    then_call-Goes {fires} {a} {b} {before} {hb} others g next = record {
      timer = next.timer;
      rx_timeout = next.rx_timeout;
      tx_timeout = next.tx_timeout;
      outcome =
          ap (λ r. then_call r (λ _. others)) g.outcome
          ∙ next.outcome
          ∙ ap
              (λ s.
                (ok tt, beating s next.timer (with_timeouts hb next.rx_timeout next.tx_timeout)))
              (beaten_both a b before.outbuf frame);
      rearmed = omega (arith, next.rearmed, g.rearmed);
    }

    -- While the server is heard, the timers that fire are no error, whatever fires, and leave what
    -- both directions are judged by as it was; each that fires sets one new timeout. A heartbeat
    -- frame is queued exactly where one is due at some time that the timer for our side fires, and
    -- nothing is queued: then one frame, never two, and none in a sealed buffer. A heartbeat frame
    -- has bytes.
    pub process_heartbeat_timers-Goes :
        (last deadline : ℕ) (fired : List (HeartbeatKind × ℕ)) (buf : SealableOutputBuffer)
        (timer : Timer HeartbeatKind) (hb : RxTxHeartbeat)
        → hb.rx.last ≡ last
        → deadline_of hb ≡ deadline
        → Heard last deadline fired
        → Goes
            (beating buf timer hb)
            hb
            (length fired)
            (due hb fired)
            (process_heartbeat_timers A C fired (beating buf timer hb))
    unfolding process_heartbeat_timers due
    process_heartbeat_timers-Goes last deadline _ buf timer hb l d nothing = record {
      timer = timer;
      rx_timeout = hb.rx.timeout;
      tx_timeout = hb.tx.timeout;
      outcome = refl;
      rearmed = omega arith;
    }
    process_heartbeat_timers-Goes last deadline _ buf timer hb l d
          (rx_fired now fired past early heard) =
        let g = early-Goes buf timer hb now (omega arith) (omega arith) in
        then_call-Goes (process_heartbeat_timers A C fired) g (
          process_heartbeat_timers-Goes last deadline fired buf g.timer
            (with_timeouts hb g.rx_timeout g.tx_timeout) l d heard)
    process_heartbeat_timers-Goes last deadline _ buf timer hb l d (tx_fired now fired heard) =
        let g = tx-Goes buf timer hb now in
        then_call-Goes (process_heartbeat_timers A C fired) g (
          process_heartbeat_timers-Goes last deadline fired (beaten (is_due hb now) buf) g.timer
            (with_timeouts hb g.rx_timeout g.tx_timeout) l d heard)
