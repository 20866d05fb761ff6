-- ===== src/Serialize.antt =====
-- serialize.rs: the buffer of outgoing bytes, its sealed form, and the loop that grows the buffer
-- until amq-protocol's generators fit.
pub mod Append
pub mod Plain
pub mod Conversions
mod Tests
use amiquip.Prelude.{
  ℕ, zero, suc, ◌+◌, ◌-◌, ◌≤◌, ◌<◌, ◌≡◌, Bool, true, false, List, [], ◌∷◌, ◌++◌, leb, ltb, length,
  take, drop, replicate, if◌then◌else◌,
}
use amiquip.Errors.{Result, ok, err, panicked, out_of_fuel, frame_unexpected, ◌>>=◌}
use amiquip.Protocol.{
  Amqp, AmqpClass, ConnectionMethod, ChannelMethod, BasicMethod, ConfirmMethod, QueueMethod,
  ExchangeMethod, AmqpFrame, method,
}
use amiquip.Protocol

-- A generator's answer: the buffer as it wrote it, the length that it wants, or another error.
pub data GenResult : Type 0 where
  written : List ℕ → GenResult
  buffer_too_small : ℕ → GenResult
  other_error : GenResult

-- A generator writes into a buffer from a position on.
abbrev pub Gen : Type 0
Gen = List ℕ → ℕ → GenResult

-- What cookie-factory's generators do: where the bytes fit they are written at the position, and
-- else the generator asks for a longer buffer, of at most the length that it needs.
pub record Writes (g : Gen) (bytes : List ℕ) : Type 0 where
  pub fits :
      (buf : List ℕ) (pos : ℕ)
      → pos + length bytes ≤ length buf
      → g buf pos ≡ written (take pos buf ++ (bytes ++ drop (pos + length bytes) buf))
  pub wants :
      (buf : List ℕ) (pos : ℕ)
      → length buf < pos + length bytes
      → (n : ℕ) × (g buf pos ≡ buffer_too_small n) × (length buf < n) × (n ≤ pos + length bytes)

-- `buf.resize(n, 0)`
abbrev pub resize : List ℕ → ℕ → List ℕ
resize buf n = if leb n (length buf) then take n buf else buf ++ replicate (n - length buf) 0

-- The loop of `serialize`, on fuel.
unfoldable pub serialize_from : ℕ → List ℕ → ℕ → Gen → Result (List ℕ)
serialize_from zero buf pos g = out_of_fuel
serialize_from (suc fuel) buf pos g = elim (g buf pos) [
  | written buf' ↦ ok buf'
  | buffer_too_small resize_to ↦ serialize_from fuel (resize buf resize_to) pos g
  | other_error ↦ panicked
]

-- `pos` is `buf.len()`.
unfoldable pub serialize : ℕ → List ℕ → Gen → Result (List ℕ)
unfolding serialize_from
serialize fuel buf g = serialize_from fuel buf (length buf) g

-- amq-protocol's generators, with the bytes that each writes.
pub record Codec (A : Amqp) : Type 0 where
  pub gen_heartbeat_frame : Gen
  pub gen_method_frame : ℕ → AmqpClass A → Gen
  pub gen_content_header_frame : ℕ → ℕ → ℕ → A.Properties → Gen
  pub gen_content_body_frame : ℕ → List ℕ → Gen
  pub heartbeat_bytes : List ℕ
  pub method_bytes : ℕ → AmqpClass A → List ℕ
  pub header_bytes : ℕ → ℕ → ℕ → A.Properties → List ℕ
  pub body_bytes : ℕ → List ℕ → List ℕ
  pub heartbeat_Writes : Writes gen_heartbeat_frame heartbeat_bytes
  pub method_Writes : (n : ℕ) (c : AmqpClass A) → Writes (gen_method_frame n c) (method_bytes n c)
  pub header_Writes :
      (n class_id length : ℕ) (p : A.Properties)
      → Writes (gen_content_header_frame n class_id length p) (header_bytes n class_id length p)
  pub body_Writes :
      (n : ℕ) (content : List ℕ) → Writes (gen_content_body_frame n content) (body_bytes n content)

abbrev pub OutputBuffer : Type 0
OutputBuffer = List ℕ

-- "AMQP\x00\x00\x09\x01"
abbrev pub with_protocol_header : OutputBuffer
with_protocol_header = b'A' ∷ b'M' ∷ b'Q' ∷ b'P' ∷ 0 ∷ 0 ∷ 9 ∷ 1 ∷ []

-- The new buffer, and what is left of the old one.
abbrev pub drain_into_new_buf : OutputBuffer → OutputBuffer × OutputBuffer
drain_into_new_buf buf = (buf, [])

abbrev pub is_empty : OutputBuffer → Bool
is_empty [] = true
is_empty (b ∷ buf) = false

-- `self.0.drain(0..n)`, which panics past the end.
unfoldable pub drain_written : OutputBuffer → ℕ → Result OutputBuffer
drain_written buf n = if leb n (length buf) then ok (drop n buf) else panicked

module _ (A : Amqp) (C : Codec A) where
  open C use {
    gen_heartbeat_frame, gen_method_frame, gen_content_header_frame, gen_content_body_frame,
    heartbeat_bytes, method_bytes, header_bytes, body_bytes,
  }

  -- The fuel of a push is what its bytes want.
  unfoldable pub push_heartbeat : OutputBuffer → Result OutputBuffer
  unfolding serialize
  push_heartbeat buf = serialize (suc (length heartbeat_bytes)) buf gen_heartbeat_frame

  unfoldable pub push_method : OutputBuffer → ℕ → AmqpClass A → Result OutputBuffer
  unfolding serialize
  push_method buf channel_id class =
      serialize (suc (length (method_bytes channel_id class))) buf
        (gen_method_frame channel_id class)

  unfoldable pub push_content_header : OutputBuffer → ℕ → ℕ → ℕ → A.Properties → Result OutputBuffer
  unfolding serialize
  push_content_header buf channel_id class_id len properties =
      serialize (suc (length (header_bytes channel_id class_id len properties))) buf
        (gen_content_header_frame channel_id class_id len properties)

  unfoldable pub push_content_body : OutputBuffer → ℕ → List ℕ → Result OutputBuffer
  unfolding serialize
  push_content_body buf channel_id content =
      serialize (suc (length (body_bytes channel_id content))) buf
        (gen_content_body_frame channel_id content)

pub record SealableOutputBuffer : Type 0 where
  pub buf : OutputBuffer
  pub sealed : Bool

unfoldable pub new : OutputBuffer → SealableOutputBuffer
new buf = record { buf = buf; sealed = false }

unfoldable pub seal : SealableOutputBuffer → SealableOutputBuffer
seal s = record s { sealed = true }

unfoldable pub clear : SealableOutputBuffer → SealableOutputBuffer
clear s = record s { buf = [] }

unfoldable pub append : SealableOutputBuffer → OutputBuffer → SealableOutputBuffer
append s other = if s.sealed then s else record s { buf = s.buf ++ other }

module _ (A : Amqp) (C : Codec A) where
  unfoldable pub sealable_push_heartbeat : SealableOutputBuffer → Result SealableOutputBuffer
  sealable_push_heartbeat s =
      if s.sealed then ok s else (do buf ← push_heartbeat A C s.buf; ok (record s { buf = buf }))

  unfoldable pub sealable_push_method :
      SealableOutputBuffer → ℕ → AmqpClass A → Result SealableOutputBuffer
  sealable_push_method s channel_id class =
      if s.sealed
      then ok s
      else (do buf ← push_method A C s.buf channel_id class; ok (record s { buf = buf }))
