-- ===== src/Heartbeats/Tests.antt =====
-- Heartbeats of one second, in nanoseconds.
use amiquip.Prelude.{ℕ, ◌+◌, ◌≡◌, refl, true, false, List, [], ◌∷◌, none, arith}
use amiquip.Errors.{ok}
use amiquip.Serialize.{SealableOutputBuffer}
use amiquip.Serialize.Plain.{plain_amqp, plain_codec}
use amiquip.Heartbeats.{
  HeartbeatKind, Timer, HeartbeatTimers, RxTxHeartbeat, process_heartbeat_timers, start_heartbeats,
  expired,
}
use amiquip.Heartbeats.Deadline.{Fired, fire-deadline}
use amiquip.Heartbeats.Silence.{
  Heard, nothing, rx_fired, tx_fired, Goes, beating, due, process_heartbeat_timers-Goes,
}
use amiquip.Heartbeats.Missed.{start_heartbeats-missed}

abbrev fresh : Timer HeartbeatKind
fresh = record { requests = []; next_timeout = 0 }

abbrev beats : RxTxHeartbeat
beats = record {
  rx = record { val = HeartbeatKind.rx; last = 50; timeout = 0; interval = 2000000000 };
  tx = record { val = HeartbeatKind.tx; last = 50; timeout = 1; interval = 1000000000 };
}

fire-deadline_example : Fired 1000000050 (beats.tx) fresh expired 1000000000
fire-deadline_example = (fire-deadline 1000000050 beats.tx fresh (omega arith)).0 (omega arith)

abbrev empty : SealableOutputBuffer
empty = record { buf = []; sealed = false }

abbrev fired : List (HeartbeatKind × ℕ)
fired = (HeartbeatKind.tx, 1000000050) ∷ (HeartbeatKind.rx, 1000000060) ∷ []

fired-Heard : Heard 50 (50 + 2000000000) fired
fired-Heard = tx_fired 1000000050 _ (rx_fired 1000000060 _ (omega arith) (omega arith) nothing)

process_heartbeat_timers-Goes_example :
    Goes plain_amqp plain_codec
      (beating empty fresh beats)
      beats
      2
      true
      (process_heartbeat_timers plain_amqp plain_codec fired (beating empty fresh beats))
unfolding due
process_heartbeat_timers-Goes_example =
    process_heartbeat_timers-Goes plain_amqp plain_codec (omega arith) 50 (50 + 2000000000) fired
      empty fresh beats refl refl fired-Heard

abbrev none_running : HeartbeatTimers
none_running = record { timer = fresh; heartbeats = none }

start_heartbeats-missed_example : start_heartbeats 0 50 50 none_running ≡ ok none_running
start_heartbeats-missed_example =
    (start_heartbeats-missed plain_amqp plain_codec 1 50 50 50 2000000050 fired [] empty fresh
      none_running (omega arith) fired-Heard (omega arith)).1
