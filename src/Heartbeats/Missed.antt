-- ===== src/Heartbeats/Missed.antt =====
-- A server that falls silent.
use amiquip.Prelude.{
  ℕ, suc, ◌+◌, ◌*◌, ◌≤◌, ◌≡◌, refl, ap, sym, ◌∙◌, true, List, [], ◌∷◌, ◌++◌, ltb, arith, none, some,
}
use mathlib.Core.Path.{subst}
use amiquip.Errors.{Result, Error, ok, err, panicked, missed_server_heartbeats}
use amiquip.Exec.{then_call}
use amiquip.Protocol.{Amqp}
use amiquip.Serialize.{Codec, SealableOutputBuffer}
use amiquip.Heartbeats.{
  set_timeout, Timer, HeartbeatKind, RxTxHeartbeat, HeartbeatTimers, Beating, fudge, set,
  process_heartbeat_timers, record_activity, record_rx_activity, start, new, start_timers,
  start_heartbeats,
}
use amiquip.Heartbeats.Silence.{
  Heard, nothing, rx_fired, tx_fired, beating, beaten, is_due, with_timeouts, early-Goes,
  late-missed, tx-Goes,
}

module _ (A : Amqp) (C : Codec A) where
  failed_first :
      {e : Error} (r : Result (Unit {0}) × Beating) (others : Beating → Result (Unit {0}) × Beating)
      → r.0 ≡ err e
      → (then_call r (λ _. others)).0 ≡ err e
  failed_first {e} (r, s) others h =
      subst (λ r. (then_call (r, s) (λ _. others)).0 ≡ err e) (sym h) refl

  -- Once the server was not heard for its interval, less 5 ms, the next timer that fires for it
  -- ends the I/O thread with `missed_server_heartbeats`, whatever fired before while the server
  -- was still heard, and whatever comes after.
  pub process_heartbeat_timers-missed :
      (last interval : ℕ) (fired rest : List (HeartbeatKind × ℕ)) (now : ℕ)
      (buf : SealableOutputBuffer) (timer : Timer HeartbeatKind) (hb : RxTxHeartbeat)
      → hb.rx.last ≡ last
      → hb.rx.interval ≡ interval
      → Heard last (last + interval) fired
      → last + interval ≤ now + fudge
      → (process_heartbeat_timers A C
          (fired ++ (HeartbeatKind.rx, now) ∷ rest)
          (beating buf timer hb)).0
        ≡ err missed_server_heartbeats
  unfolding process_heartbeat_timers
  process_heartbeat_timers-missed last interval _ rest now buf timer hb l i nothing late =
      failed_first _ (process_heartbeat_timers A C rest)
        (late-missed A C buf timer hb now (omega arith))
  process_heartbeat_timers-missed last interval _ rest now buf timer hb l i
        (rx_fired at fired past early heard) late =
      let g = early-Goes A C buf timer hb at (omega arith) (omega arith) in
      let others = process_heartbeat_timers A C (fired ++ (HeartbeatKind.rx, now) ∷ rest) in
      ap (λ r. (then_call r (λ _. others)).0) g.outcome
      ∙ process_heartbeat_timers-missed last interval fired rest now buf g.timer
          (with_timeouts hb g.rx_timeout g.tx_timeout) l i heard late
  process_heartbeat_timers-missed last interval _ rest now buf timer hb l i
        (tx_fired at fired heard) late =
      let g = tx-Goes A C buf timer hb at in
      let others = process_heartbeat_timers A C (fired ++ (HeartbeatKind.rx, now) ∷ rest) in
      ap (λ r. (then_call r (λ _. others)).0) g.outcome
      ∙ process_heartbeat_timers-missed last interval fired rest now (beaten A C (is_due hb at) buf)
          g.timer (with_timeouts hb g.rx_timeout g.tx_timeout) l i heard late

  abbrev started_timer : ℕ → Timer HeartbeatKind → Timer HeartbeatKind
  started_timer interval timer = record {
    requests =
        (timer.requests ++ set_timeout (2 * interval) HeartbeatKind.rx ∷ [])
        ++ set_timeout interval HeartbeatKind.tx ∷ [];
    next_timeout = suc (suc timer.next_timeout);
  }

  abbrev started_beats : ℕ → ℕ → ℕ → Timer HeartbeatKind → RxTxHeartbeat
  started_beats interval now_rx now_tx timer = record {
    rx = record {
      val = HeartbeatKind.rx;
      last = now_rx;
      timeout = timer.next_timeout;
      interval = 2 * interval;
    };
    tx = record {
      val = HeartbeatKind.tx;
      last = now_tx;
      timeout = suc timer.next_timeout;
      interval = interval;
    };
  }

  start-positive :
      (kind : HeartbeatKind) (interval now : ℕ) (timer : Timer HeartbeatKind)
      → 1 ≤ interval
      → start kind interval now timer
        ≡ ok (
          record { val = kind; last = now; timeout = timer.next_timeout; interval = interval },
          record {
            requests = timer.requests ++ set_timeout interval kind ∷ [];
            next_timeout = suc timer.next_timeout;
          },
        )
  unfolding start set
  start-positive kind interval now timer h =
      let e : ltb 0 interval ≡ true = ground arith in rw e refl

  new-positive :
      (interval now_rx now_tx : ℕ) (timer : Timer HeartbeatKind)
      → 1 ≤ interval
      → new timer interval now_rx now_tx
        ≡ ok (started_beats interval now_rx now_tx timer, started_timer interval timer)
  unfolding new
  new-positive interval now_rx now_tx timer h =
      rw
        (
          new,
          start-positive HeartbeatKind.rx (2 * interval) now_rx timer (omega arith),
          start-positive HeartbeatKind.tx interval now_tx _ h,
        )
        refl

  -- Heartbeats that the handshake starts with an interval of some seconds watch the server for
  -- twice that time: a server that was last heard at some instant, and whose timer fires 5 ms
  -- before two intervals later or after that, ends the I/O thread with `missed_server_heartbeats`.
  -- An interval of 0 starts nothing, and a second start panics.
  pub start_heartbeats-missed :
      (interval now_rx now_tx heard now : ℕ) (fired rest : List (HeartbeatKind × ℕ))
      (buf : SealableOutputBuffer) (timer : Timer HeartbeatKind) (running : HeartbeatTimers)
      → 1 ≤ interval
      → Heard heard (heard + 2 * (1000000000 * interval)) fired
      → heard + 2 * (1000000000 * interval) ≤ now + fudge
      → ((timers : HeartbeatTimers) × (start_heartbeats interval now_rx now_tx
              (record { timer = timer; heartbeats = none })
            ≡ ok timers)
          × ((process_heartbeat_timers A C
                (fired ++ (HeartbeatKind.rx, now) ∷ rest)
                (record { outbuf = buf; heartbeats = record_rx_activity heard timers })).0
              ≡ err missed_server_heartbeats)
          × (start_heartbeats interval now_rx now_tx timers ≡ panicked))
        × (start_heartbeats 0 now_rx now_tx running ≡ ok running)
  unfolding start_heartbeats start_timers record_rx_activity record_activity
  start_heartbeats-missed interval now_rx now_tx heard now fired rest buf timer running some_ h
        late =
      let positive : ltb 0 interval ≡ true = ground arith in
      (
        (
          record {
            timer = started_timer (1000000000 * interval) timer;
            heartbeats = some (started_beats (1000000000 * interval) now_rx now_tx timer);
          },
          rw
              (
                positive,
                start_timers,
                new-positive (1000000000 * interval) now_rx now_tx timer (omega arith),
              )
              refl,
          process_heartbeat_timers-missed heard (2 * (1000000000 * interval)) fired rest now buf _ _
              refl refl h late,
          rw positive refl,
        ),
        refl,
      )
