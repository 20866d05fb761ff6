-- ===== src/Serialize/Append.antt =====
-- Pushing a frame appends its bytes, unless the buffer is sealed.
use mathlib.Core.Path.{subst}
use amiquip.Prelude.{
  ℕ, zero, suc, ◌+◌, ◌-◌, ◌≤◌, ◌<◌, ◌≡◌, refl, ap, List, [], ◌∷◌, ◌++◌, append-nil, append_assoc,
  leb, length, take, drop, replicate, length-append, length-replicate, if◌then◌else◌, arith,
  Bool-cases, inl, inr,
}
use amiquip.Errors.{ok}
use amiquip.Protocol.{Amqp, AmqpClass}
use amiquip.Serialize.{
  Gen, Writes, resize, serialize_from, serialize, Codec, push_heartbeat, push_method,
  push_content_header, push_content_body, SealableOutputBuffer, sealable_push_heartbeat,
  sealable_push_method,
}

take-length-append : (xs ys : List ℕ) → take (length xs) (xs ++ ys) ≡ xs
take-length-append [] ys = refl
take-length-append (x ∷ xs) ys = ap (◌∷◌ x) (take-length-append xs ys)

drop_all : (n : ℕ) (xs : List ℕ) → length xs ≤ n → drop n xs ≡ []
drop_all zero [] h = refl
drop_all zero (x ∷ xs) h = absurd (omega arith)
drop_all (suc n) [] h = refl
drop_all (suc n) (x ∷ xs) h = drop_all n xs (omega arith)

resize-longer :
    (buf : List ℕ) (n : ℕ) → length buf < n → resize buf n ≡ buf ++ replicate (n - length buf) 0
resize-longer buf n h = ground arith

module _ (g : Gen) (bytes : List ℕ) (w : Writes g bytes) where
  -- `buf`, then what earlier rounds added, never more than the bytes need.
  serialize_from-padded :
      (fuel : ℕ) (buf pad : List ℕ)
      → length pad ≤ length bytes
      → length bytes - length pad < fuel
      → serialize_from fuel (buf ++ pad) (length buf) g ≡ ok (buf ++ bytes)
  unfolding serialize_from
  serialize_from-padded zero buf pad within room = absurd (omega arith)
  serialize_from-padded (suc fuel) buf pad within room =
      elim (Bool-cases (leb (length bytes) (length pad))) [
        | inl full ↦
            let total = length-append buf pad in
            let covers : length bytes ≤ length pad = ground arith in
            let e = w.fits (buf ++ pad) (length buf) (omega arith) in
            let tail : drop (length buf + length bytes) (buf ++ pad) ≡ [] =
              drop_all (length buf + length bytes) (buf ++ pad) (omega arith) in
            rw (e, serialize_from) (rw (tail, take-length-append buf pad, append-nil bytes) refl)
        | inr short ↦
            let total = length-append buf pad in
            let room' : length pad < length bytes = ground arith in
            let (n, e, grows, most) = w.wants (buf ++ pad) (length buf) (omega arith) in
            let more = n - length (buf ++ pad) in
            let longer = length-append pad (replicate more 0) in
            let count = length-replicate more (let z : ℕ = 0 in z) in
            let next =
              serialize_from-padded fuel buf (pad ++ replicate more 0) (omega arith)
                (omega arith) in
            rw
              (
                e,
                serialize_from,
                resize-longer (buf ++ pad) n grows,
                append_assoc buf pad (replicate more 0),
              )
              next
      ]

  serialize-append : (buf : List ℕ) → serialize (suc (length bytes)) buf g ≡ ok (buf ++ bytes)
  unfolding serialize
  serialize-append buf =
      let same : buf ++ [] ≡ buf = append-nil buf in
      subst (λ b. serialize_from (suc (length bytes)) b (length buf) g ≡ ok (buf ++ bytes)) same
        (serialize_from-padded (suc (length bytes)) buf [] (omega arith) (omega arith))

module _ (A : Amqp) (C : Codec A) where
  pub push_method-append :
      (buf : List ℕ) (n : ℕ) (c : AmqpClass A)
      → push_method A C buf n c ≡ ok (buf ++ C.method_bytes n c)
  unfolding push_method
  push_method-append buf n c =
      serialize-append (C.gen_method_frame n c) (C.method_bytes n c) (C.method_Writes n c) buf

  pub push_heartbeat-append :
      (buf : List ℕ) → push_heartbeat A C buf ≡ ok (buf ++ C.heartbeat_bytes)
  unfolding push_heartbeat
  push_heartbeat-append buf =
      serialize-append C.gen_heartbeat_frame C.heartbeat_bytes C.heartbeat_Writes buf

  pub push_content_header-append :
      (buf : List ℕ) (n class_id len : ℕ) (p : A.Properties)
      → push_content_header A C buf n class_id len p ≡ ok (buf ++ C.header_bytes n class_id len p)
  unfolding push_content_header
  push_content_header-append buf n class_id len p =
      serialize-append (C.gen_content_header_frame n class_id len p)
        (C.header_bytes n class_id len p) (C.header_Writes n class_id len p) buf

  pub push_content_body-append :
      (buf : List ℕ) (n : ℕ) (content : List ℕ)
      → push_content_body A C buf n content ≡ ok (buf ++ C.body_bytes n content)
  unfolding push_content_body
  push_content_body-append buf n content =
      serialize-append (C.gen_content_body_frame n content) (C.body_bytes n content)
        (C.body_Writes n content) buf

  -- Whatever the buffer holds, every push returns and appends exactly the bytes of its frame.
  pub pushes-append :
      (buf content : List ℕ) (n class_id len : ℕ) (c : AmqpClass A) (p : A.Properties)
      → (push_heartbeat A C buf ≡ ok (buf ++ C.heartbeat_bytes))
        × (push_method A C buf n c ≡ ok (buf ++ C.method_bytes n c))
        × (push_content_header A C buf n class_id len p
            ≡ ok (buf ++ C.header_bytes n class_id len p))
        × (push_content_body A C buf n content ≡ ok (buf ++ C.body_bytes n content))
  pushes-append buf content n class_id len c p = (
    push_heartbeat-append buf,
    push_method-append buf n c,
    push_content_header-append buf n class_id len p,
    push_content_body-append buf n content,
  )

  -- What a push leaves: the buffer as it was if it is sealed, and else the bytes at its end.
  abbrev pub pushed : SealableOutputBuffer → List ℕ → SealableOutputBuffer
  pushed s bytes = if s.sealed then s else record s { buf = s.buf ++ bytes }

  pub sealable_push_method-pushed :
      (s : SealableOutputBuffer) (n : ℕ) (c : AmqpClass A)
      → sealable_push_method A C s n c ≡ ok (pushed s (C.method_bytes n c))
  unfolding sealable_push_method
  sealable_push_method-pushed s n c = elim (Bool-cases s.sealed) [
    | inl e ↦ ground arith
    | inr e ↦ ground (arith, push_method-append s.buf n c)
  ]

  pub sealable_push_heartbeat-pushed :
      (s : SealableOutputBuffer) → sealable_push_heartbeat A C s ≡ ok (pushed s C.heartbeat_bytes)
  unfolding sealable_push_heartbeat
  sealable_push_heartbeat-pushed s = elim (Bool-cases s.sealed) [
    | inl e ↦ ground arith
    | inr e ↦ ground (arith, push_heartbeat-append s.buf)
  ]
