-- ===== src/Serialize/Plain.antt =====
-- A codec for tests: generators that write fixed bytes and ask for what they need.
use amiquip.Prelude.{ℕ, ◌+◌, List, [], ◌∷◌, ◌++◌, leb, length, take, drop, if◌then◌else◌, arith}
use amiquip.Protocol.{Amqp}
use amiquip.Serialize.{Gen, Writes, written, buffer_too_small, Codec}

unfoldable pub write_bytes : List ℕ → Gen
write_bytes bytes buf pos =
    if leb (pos + length bytes) (length buf)
    then written (take pos buf ++ (bytes ++ drop (pos + length bytes) buf))
    else buffer_too_small (pos + length bytes)

pub write_bytes-Writes : (bytes : List ℕ) → Writes (write_bytes bytes) bytes
unfolding write_bytes
write_bytes-Writes bytes = record {
  fits = λ buf pos h. ground arith;
  wants = λ buf pos h. (pos + length bytes, ground arith, ground arith, ground arith);
}

abbrev pub plain_amqp : Amqp
plain_amqp = record { Properties = ℕ; FieldTable = ℕ; Payload = ℕ }

abbrev pub plain_codec : Codec plain_amqp
plain_codec = record {
  gen_heartbeat_frame = write_bytes (8 ∷ 0 ∷ 206 ∷ []);
  gen_method_frame = λ n class. write_bytes (1 ∷ n ∷ 206 ∷ []);
  gen_content_header_frame = λ n class_id len p. write_bytes (2 ∷ n ∷ len ∷ 206 ∷ []);
  gen_content_body_frame = λ n content. write_bytes (3 ∷ n ∷ content);
  heartbeat_bytes = 8 ∷ 0 ∷ 206 ∷ [];
  method_bytes = λ n class. 1 ∷ n ∷ 206 ∷ [];
  header_bytes = λ n class_id len p. 2 ∷ n ∷ len ∷ 206 ∷ [];
  body_bytes = λ n content. 3 ∷ n ∷ content;
  heartbeat_Writes = write_bytes-Writes _;
  method_Writes = λ n class. write_bytes-Writes _;
  header_Writes = λ n class_id len p. write_bytes-Writes _;
  body_Writes = λ n content. write_bytes-Writes _;
}
