-- ===== src/FrameBuffer/Tests.antt =====
-- A frame of ten bytes in three reads, as in the source's test `split_frames`.
use amiquip.Prelude.{ℕ, ◌≡◌, refl, List, [], ◌∷◌, ◌++◌, Option, some, arith}
use amiquip.Errors.{ok}
use amiquip.Exec.{Exec}
use amiquip.FrameBuffer.{FrameKind, read_from, complete, take_frame}
use amiquip.FrameBuffer.Amqp.{amqp_frame_kind, parse_size, parse_frame}
use amiquip.FrameBuffer.Decoding.{Decodes, done, frame}
use amiquip.FrameBuffer.Chunks.{start, verdict, read_from-chunks, read_from-Shows}
use amiquip.FrameBuffer.Frames.{handle_all, Shows}

-- A parser that takes all bytes for the frame, and a handler that collects frames.
abbrev whole : List ℕ → Option (List ℕ × List ℕ)
whole bytes = some ([], bytes)

abbrev kind : FrameKind
kind = amqp_frame_kind whole

abbrev gather : List ℕ → Exec (List (List ℕ)) (Unit {0})
gather f got = (ok tt, got ++ f ∷ [])

abbrev ten : List ℕ
ten = 1 ∷ 0 ∷ 1 ∷ 0 ∷ 0 ∷ 0 ∷ 2 ∷ 7 ∷ 8 ∷ 206 ∷ []

abbrev cut_up : List (List ℕ)
cut_up = (1 ∷ 0 ∷ []) ∷ (1 ∷ 0 ∷ 0 ∷ 0 ∷ 2 ∷ []) ∷ (7 ∷ 8 ∷ 206 ∷ 1 ∷ []) ∷ []

ten_read : (read_from kind gather 20 (start kind gather [] cut_up [])).0 ≡ ok 11
unfolding read_from complete parse_size parse_frame take_frame
ten_read = refl

read_from-chunks_example :
    (let out = read_from kind gather 20 (start kind gather [] cut_up []) in
      verdict kind gather (out.0, out.1.handled))
    ≡ (let out = read_from kind gather 20 (start kind gather [] ((ten ++ 1 ∷ []) ∷ []) []) in
        verdict kind gather (out.0, out.1.handled))
read_from-chunks_example =
    read_from-chunks kind gather [] [] cut_up ((ten ++ 1 ∷ []) ∷ []) [] 20 20 (omega arith)
      (omega arith) refl (omega arith) (omega arith)

ten_Decodes : Decodes kind (ok tt) (1 ∷ []) (ten ++ 1 ∷ []) (ten ∷ [])
unfolding complete parse_size parse_frame
ten_Decodes = frame _ 10 ten [] refl refl (done _ refl refl refl)

read_from-Shows_example :
    Shows kind gather
      (ok tt)
      (1 ∷ [])
      11
      (handle_all kind gather (ten ∷ []) [])
      (read_from kind gather 20 (start kind gather [] cut_up []))
read_from-Shows_example =
    read_from-Shows kind gather 20 [] cut_up [] (ok tt) (1 ∷ []) (ten ∷ []) (omega arith)
      (omega arith) ten_Decodes
