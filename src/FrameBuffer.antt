-- ===== src/FrameBuffer.antt =====
-- frame_buffer.rs: frames out of the bytes of a stream, however these are cut into reads.
pub mod Decoding
pub mod Frames
pub mod Chunks
pub mod Amqp
mod Tests
use amiquip.Prelude.{
  ℕ, zero, suc, ◌+◌, ◌≤◌, ◌≡◌, ◌⊎◌, List, [], ◌∷◌, ◌++◌, Option, none, some, leb, length, take,
  drop, if◌then◌else◌,
}
use amiquip.Errors.{
  Result, Error, ok, err, panicked, out_of_fuel, unexpected_socket_close, io_error_reading_socket,
}
use amiquip.Exec.{Exec, then_call, ◌>>=◌, ◌>>◌}

-- `FrameKind`, with what its comments demand: a size that the front of the buffer shows stays as
-- bytes are added behind, no frame is empty, and parsing yields a frame or an error.
pub record FrameKind : Type 1 where
  pub Frame : Type 0
  pub parse_size : List ℕ → Option ℕ
  pub parse_frame : List ℕ → Result Frame
  pub size_stays :
      (bytes more : List ℕ) (n : ℕ)
      → parse_size bytes ≡ some n
      → parse_size (bytes ++ more) ≡ some n
  pub size_pos : (bytes : List ℕ) (n : ℕ) → parse_size bytes ≡ some n → 1 ≤ n
  pub parses :
      (bytes : List ℕ)
      → ((f : Frame) × (parse_frame bytes ≡ ok f)) ⊎ ((e : Error) × (parse_frame bytes ≡ err e))

-- What a read of the stream may answer. A read of no bytes is the end of the stream.
pub data Read : Type 0 where
  bytes : List ℕ → Read
  would_block failed : Read

-- The buffer, the answers that the stream is about to give (it blocks behind them), and the state
-- of the handler.
pub record Reading (T : Type 0) : Type 0 where
  pub buf : List ℕ
  pub reads : List Read
  pub handled : T

module _ (K : FrameKind) where
  -- The size of the frame at the front, if the buffer holds all of it.
  unfoldable pub complete : List ℕ → Option ℕ
  complete buf = elim (K.parse_size buf) [
    | some frame_size ↦ if leb frame_size (length buf) then some frame_size else none
    | none ↦ none
  ]

module _ (K : FrameKind) {T : Type 0} (handler : K.Frame → Exec T (Unit {0})) where
  unfoldable pub handle : K.Frame → Exec (Reading T) (Unit {0})
  handle frame s = let (r, t) = handler frame s.handled in (r, record s { handled = t })

  abbrev pub given : {B : Type 0} → Result B → Exec (Reading T) B
  given r s = (r, s)

  abbrev pub advance : ℕ → Exec (Reading T) (Unit {0})
  advance n s = (ok tt, record s { buf = drop n s.buf })

  -- A frame that is there: it leaves the buffer once the handler has returned.
  unfoldable pub take_frame : ℕ → Exec (Reading T) (Unit {0})
  unfolding handle
  take_frame frame_size s =
      (do frame ← given (K.parse_frame (take frame_size s.buf)); handle frame; advance frame_size) s

  -- A read of the stream, for want of a whole frame.
  unfoldable pub read_more : (ℕ → Exec (Reading T) ℕ) → ℕ → List Read → Exec (Reading T) ℕ
  read_more others bytes_read [] s = (ok bytes_read, s)
  read_more others bytes_read (would_block ∷ reads) s = (ok bytes_read, record s { reads = reads })
  read_more others bytes_read (failed ∷ reads) s =
      (err io_error_reading_socket, record s { reads = reads })
  read_more others bytes_read (bytes [] ∷ reads) s =
      (err unexpected_socket_close, record s { reads = reads })
  read_more others bytes_read (bytes (b ∷ more) ∷ reads) s =
      others (bytes_read + length (b ∷ more)) (record s { buf = s.buf ++ b ∷ more; reads = reads })

  unfoldable pub read_round : (ℕ → Exec (Reading T) ℕ) → ℕ → Option ℕ → Exec (Reading T) ℕ
  unfolding read_more
  read_round others bytes_read (some frame_size) s =
      then_call (take_frame frame_size s) (λ _. others bytes_read)
  read_round others bytes_read none s = read_more others bytes_read s.reads s

  -- The loop of `read_from`, on fuel, with the bytes read so far.
  unfoldable pub read_on : ℕ → ℕ → Exec (Reading T) ℕ
  unfolding read_round
  read_on zero bytes_read s = (out_of_fuel, s)
  read_on (suc fuel) bytes_read s = read_round (read_on fuel) bytes_read (complete K s.buf) s

  unfoldable pub read_from : ℕ → Exec (Reading T) ℕ
  unfolding read_on
  read_from fuel = read_on fuel 0
