-- ===== src/IoLoop/Receiving/Tests.antt =====
-- A frame without content in two reads, and a handler that starts no timer.
use amiquip.Prelude.{ℕ, ◌≡◌, refl, List, [], ◌∷◌, ◌++◌, Option, some, arith}
use amiquip.Errors.{Result, ok}
use amiquip.Exec.{Exec}
use amiquip.Heartbeats.{HeartbeatTimers, HeartbeatKind}
use amiquip.FrameBuffer.{FrameKind, complete}
use amiquip.FrameBuffer.Amqp.{amqp_frame_kind, parse_size, parse_frame}
use amiquip.FrameBuffer.Decoding.{Decodes, done, frame}
use amiquip.FrameBuffer.Frames.{handle_all}
use amiquip.FrameBuffer.Chunks.{start}
use amiquip.IoLoop.Receiving.{read_from_stream, listened, heard, read_from_stream-listened}

abbrev whole : List ℕ → Option (List ℕ × List ℕ)
whole bytes = some ([], bytes)

abbrev kind : FrameKind
kind = amqp_frame_kind whole

abbrev gather : List ℕ → Exec (HeartbeatTimers × List (List ℕ)) (Unit {0})
gather f (timers, got) = (ok tt, (timers, got ++ f ∷ []))

abbrev eight : List ℕ
eight = 8 ∷ 0 ∷ 0 ∷ 0 ∷ 0 ∷ 0 ∷ 0 ∷ 206 ∷ []

abbrev cut_up : List (List ℕ)
cut_up = (8 ∷ 0 ∷ 0 ∷ []) ∷ (0 ∷ 0 ∷ 0 ∷ 0 ∷ 206 ∷ []) ∷ []

-- Both directions were last active at 50.
abbrev timers : HeartbeatTimers
timers = record {
  timer = record { requests = []; next_timeout = 2 };
  heartbeats = some (record {
    rx = record { val = HeartbeatKind.rx; last = 50; timeout = 0; interval = 2000000000 };
    tx = record { val = HeartbeatKind.tx; last = 50; timeout = 1; interval = 1000000000 };
  });
}

eight_Decodes : Decodes kind (ok tt) [] eight (eight ∷ [])
unfolding complete parse_size parse_frame
eight_Decodes = frame _ 8 eight [] refl refl (done _ refl refl refl)

abbrev after : Result (Unit {0}) × (HeartbeatTimers × List (List ℕ))
after = (ok tt, heard 90 (timers, eight ∷ []))

read_from_stream-listened_example :
    (let out = read_from_stream kind gather 20 90 (start kind gather [] cut_up (timers, [])) in
      (out.0, out.1.handled))
    ≡ after
unfolding listened handle_all
read_from_stream-listened_example =
    read_from_stream-listened kind gather 20 90 [] cut_up (timers, []) (ok tt) [] (eight ∷ [])
      (omega arith) (omega arith) eight_Decodes
