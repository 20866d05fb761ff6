-- ===== src/Heartbeats.antt =====
-- heartbeats.rs and io_loop/heartbeat_timers.rs: the timers that watch both directions.
pub mod Deadline
pub mod Silence
pub mod Missed
mod Tests
use amiquip.Prelude.{
  ℕ, suc, ◌+◌, ◌-◌, ◌*◌, Bool, true, false, List, [], ◌∷◌, ◌++◌, Option, none, some, leb, ltb,
  if◌then◌else◌,
}
use amiquip.Errors.{Result, ok, err, panicked, out_of_fuel, missed_server_heartbeats}
use amiquip.Exec.{Exec, pure, fail, ◌>>=◌, ◌>>◌}
use amiquip.Protocol.{Amqp}
use amiquip.Serialize.{Codec, SealableOutputBuffer, is_empty, sealable_push_heartbeat}

pub data HeartbeatState : Type 0 where
  still_running expired : HeartbeatState

-- A timer of mio-extras stands for what was asked of it: a timeout is a number, and the timer
-- keeps the requests, last request last.
pub data Request (T : Type 0) : Type 0 where
  set_timeout : ℕ → T → Request T
  cancel_timeout : ℕ → Request T

pub record Timer (T : Type 0) : Type 0 where
  pub requests : List (Request T)
  pub next_timeout : ℕ

-- Instants and durations are in nanoseconds.
pub record Heartbeat (T : Type 0) : Type 0 where
  pub val : T
  pub last : ℕ
  pub timeout : ℕ
  pub interval : ℕ

-- `Duration::from_millis(5)`
abbrev pub fudge : ℕ
fudge = 5000000

module _ {T : Type 0} where
  unfoldable pub set : Timer T → ℕ → T → ℕ × Timer T
  set timer when val = (
    timer.next_timeout,
    record {
      requests = timer.requests ++ set_timeout when val ∷ [];
      next_timeout = suc timer.next_timeout;
    },
  )

  unfoldable pub cancel : Timer T → ℕ → Timer T
  cancel timer timeout = record timer { requests = timer.requests ++ cancel_timeout timeout ∷ [] }

  -- The clock says `now`.
  unfoldable pub start : T → ℕ → ℕ → Timer T → Result (Heartbeat T × Timer T)
  unfolding set
  start val interval now timer =
      let (timeout, timer') = set timer interval val in
      if ltb 0 interval
      then ok (record { val = val; last = now; timeout = timeout; interval = interval }, timer')
      else panicked

  unfoldable pub record_activity : ℕ → Heartbeat T → Heartbeat T
  record_activity now self = record self { last = now }

  unfoldable pub judge : ℕ → Heartbeat T → ℕ × HeartbeatState
  judge now self =
      let elapsed = now - self.last in
      if leb self.interval (elapsed + fudge)
      then (self.interval, expired)
      else (self.interval - elapsed, still_running)

  unfoldable pub fire : ℕ → Heartbeat T → Timer T → HeartbeatState × (Heartbeat T × Timer T)
  unfolding set cancel judge
  fire now self timer =
      let (when, state) = judge now self in
      let (timeout, timer') = set (cancel timer self.timeout) when self.val in
      (state, (record self { timeout = timeout }, timer'))

abbrev pub max_missed_server_heartbeats : ℕ
max_missed_server_heartbeats = 2

pub data HeartbeatKind : Type 0 where
  rx tx : HeartbeatKind

pub record RxTxHeartbeat : Type 0 where
  pub rx : Heartbeat HeartbeatKind
  pub tx : Heartbeat HeartbeatKind

-- The clock is read twice.
unfoldable pub new : Timer HeartbeatKind → ℕ → ℕ → ℕ → Result (RxTxHeartbeat × Timer HeartbeatKind)
unfolding start
new timer interval now_rx now_tx =
    elim (start HeartbeatKind.rx (max_missed_server_heartbeats * interval) now_rx timer) [
      | ok (receiving, timer') ↦ elim (start HeartbeatKind.tx interval now_tx timer') [
        | ok (sending, timer'') ↦ ok (record { rx = receiving; tx = sending }, timer'')
        | err e ↦ err e
        | panicked ↦ panicked
        | out_of_fuel ↦ out_of_fuel
      ]
      | err e ↦ err e
      | panicked ↦ panicked
      | out_of_fuel ↦ out_of_fuel
    ]

pub record HeartbeatTimers : Type 0 where
  pub timer : Timer HeartbeatKind
  pub heartbeats : Option RxTxHeartbeat

abbrev pub update : (RxTxHeartbeat → RxTxHeartbeat) → HeartbeatTimers → HeartbeatTimers
update f self = elim self.heartbeats [
  | none ↦ self
  | some hb ↦ record self { heartbeats = some (f hb) }
]

unfoldable pub record_rx_activity : ℕ → HeartbeatTimers → HeartbeatTimers
unfolding record_activity
record_rx_activity now = update (λ hb. record hb { rx = record_activity now hb.rx })

unfoldable pub record_tx_activity : ℕ → HeartbeatTimers → HeartbeatTimers
unfolding record_activity
record_tx_activity now = update (λ hb. record hb { tx = record_activity now hb.tx })

unfoldable pub start_timers : ℕ → ℕ → ℕ → HeartbeatTimers → Result HeartbeatTimers
unfolding new
start_timers interval now_rx now_tx self = elim self.heartbeats [
  | none ↦ elim (new self.timer interval now_rx now_tx) [
    | ok (hb, timer) ↦ ok (record { timer = timer; heartbeats = some hb })
    | err e ↦ err e
    | panicked ↦ panicked
    | out_of_fuel ↦ out_of_fuel
  ]
  | some hb ↦ panicked
]

-- `start_heartbeats` of `Inner`: an interval of 0 starts no timer, and another is in seconds.
unfoldable pub start_heartbeats : ℕ → ℕ → ℕ → HeartbeatTimers → Result HeartbeatTimers
unfolding start_timers
start_heartbeats interval now_rx now_tx self =
    if ltb 0 interval then start_timers (1000000000 * interval) now_rx now_tx self else ok self

unfoldable pub fire_rx : ℕ → Exec HeartbeatTimers HeartbeatState
unfolding fire
fire_rx now self = elim self.heartbeats [
  | none ↦ (panicked, self)
  | some hb ↦
      let (state, (receiving, timer)) = fire now hb.rx self.timer in
      (ok state, record { timer = timer; heartbeats = some (record hb { rx = receiving }) })
]

unfoldable pub fire_tx : ℕ → Exec HeartbeatTimers HeartbeatState
unfolding fire
fire_tx now self = elim self.heartbeats [
  | none ↦ (panicked, self)
  | some hb ↦
      let (state, (sending, timer)) = fire now hb.tx self.timer in
      (ok state, record { timer = timer; heartbeats = some (record hb { tx = sending }) })
]

-- What `process_heartbeat_timers` touches of `Inner`.
pub record Beating : Type 0 where
  pub outbuf : SealableOutputBuffer
  pub heartbeats : HeartbeatTimers

abbrev pub on_timers : {B : Type 0} → Exec HeartbeatTimers B → Exec Beating B
on_timers m s = let (r, timers) = m s.heartbeats in (r, record s { heartbeats = timers })

module _ (A : Amqp) (C : Codec A) where
  abbrev queued : Beating → Result SealableOutputBuffer → Result (Unit {0}) × Beating
  queued s (ok buf) = (ok tt, record s { outbuf = buf })
  queued s (err e) = (err e, s)
  queued s panicked = (panicked, s)
  queued s out_of_fuel = (out_of_fuel, s)

  unfoldable pub after_rx : HeartbeatState → Exec Beating (Unit {0})
  after_rx still_running = pure tt
  after_rx expired = fail missed_server_heartbeats

  -- Data that is queued already stands for a heartbeat.
  unfoldable pub after_tx : HeartbeatState → Exec Beating (Unit {0})
  after_tx still_running s = (ok tt, s)
  after_tx expired s =
      if is_empty s.outbuf.buf then queued s (sealable_push_heartbeat A C s.outbuf) else (ok tt, s)

  unfoldable pub process_timer : HeartbeatKind → ℕ → Exec Beating (Unit {0})
  unfolding fire_rx fire_tx after_rx after_tx
  process_timer HeartbeatKind.rx now = do state ← on_timers (fire_rx now); after_rx state
  process_timer HeartbeatKind.tx now = do state ← on_timers (fire_tx now); after_tx state

  -- What `timer.poll()` gave, each with what the clock said when it was handled.
  unfoldable pub process_heartbeat_timers : List (HeartbeatKind × ℕ) → Exec Beating (Unit {0})
  unfolding process_timer
  process_heartbeat_timers [] = pure tt
  process_heartbeat_timers ((kind, now) ∷ fired) = do
    process_timer kind now
    process_heartbeat_timers fired
