-- ===== src/WriteStream.antt =====
-- `write_to_stream` of io_loop/mod.rs, less the note of the activity for the heartbeats.
pub mod Conservation
mod Tests
use amiquip.Prelude.{ℕ, zero, suc, ◌+◌, List, [], ◌++◌, ltb, length, take, drop, if◌then◌else◌}
use amiquip.Errors.{Result, ok, err, panicked, out_of_fuel, io_error_writing_socket}
use amiquip.Serialize.{OutputBuffer, drain_written}

-- What `stream.write` may answer.
pub data WriteOutcome : Type 0 where
  wrote : ℕ → WriteOutcome
  would_block failed : WriteOutcome

-- A stream answers by the number of the call and the bytes that are offered.
abbrev pub Stream : Type 0
Stream = ℕ → List ℕ → WriteOutcome

-- The result, the bytes that the stream took, and the buffer afterwards.
pub record Outcome : Type 0 where
  pub result : Result (Unit {0})
  pub taken : List ℕ
  pub outbuf : OutputBuffer

unfoldable pub blocked : OutputBuffer → Result OutputBuffer → Outcome
blocked buf (ok left) = record { result = ok tt; taken = []; outbuf = left }
blocked buf (err e) = record { result = err e; taken = []; outbuf = buf }
blocked buf panicked = record { result = panicked; taken = []; outbuf = buf }
blocked buf out_of_fuel = record { result = out_of_fuel; taken = []; outbuf = buf }

-- The `while` loop from `pos` on, on fuel, with the number of the next call.
unfoldable pub write_from : ℕ → Stream → ℕ → OutputBuffer → ℕ → Outcome
unfolding blocked drain_written
write_from zero stream k buf pos = record { result = out_of_fuel; taken = []; outbuf = buf }
write_from (suc fuel) stream k buf pos =
    if ltb pos (length buf)
    then (elim (stream k (drop pos buf)) [
      | wrote n ↦
          let rest = write_from fuel stream (suc k) buf (pos + n) in
          record rest { taken = take n (drop pos buf) ++ rest.taken }
      | would_block ↦ blocked buf (drain_written buf pos)
      | failed ↦ record { result = err io_error_writing_socket; taken = []; outbuf = buf }
    ])
    else record { result = ok tt; taken = []; outbuf = [] }

unfoldable pub write_to_stream : ℕ → Stream → OutputBuffer → Outcome
unfolding write_from
write_to_stream fuel stream buf = write_from fuel stream 0 buf 0
