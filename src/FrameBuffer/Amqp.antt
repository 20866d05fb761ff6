-- ===== src/FrameBuffer/Amqp.antt =====
-- `AmqpFrameKind`: the size of an AMQP frame, and its parsing by amq-protocol.
use amiquip.Prelude.{
  ℕ, ◌+◌, ◌*◌, ◌≤◌, ◌≡◌, refl, ◌⊎◌, inl, inr, List, [], ◌∷◌, ◌++◌, Option, none, some, arith,
}
use amiquip.Errors.{Result, Error, ok, err, malformed_frame}
use amiquip.FrameBuffer.{FrameKind}

-- `parse_long_uint` on the four bytes of the size.
abbrev long_uint : ℕ → ℕ → ℕ → ℕ → ℕ
long_uint a b c d = ((a * 256 + b) * 256 + c) * 256 + d

-- Bytes 3 to 6 hold the size, less the seven bytes of the header and the byte of the end.
unfoldable pub parse_size : List ℕ → Option ℕ
parse_size (x ∷ y ∷ z ∷ a ∷ b ∷ c ∷ d ∷ more) = some (long_uint a b c d + 8)
parse_size _ = none

module _ {F : Type 0} (parser : List ℕ → Option (List ℕ × F)) where
  parsed : Option (List ℕ × F) → Result F
  parsed none = err malformed_frame
  parsed (some ([], frame)) = ok frame
  parsed (some (b ∷ rest, frame)) = err malformed_frame

  -- A frame that does not take up all of its bytes is malformed too.
  unfoldable pub parse_frame : List ℕ → Result F
  unfolding parsed
  parse_frame bytes = parsed (parser bytes)

  parsed-ok_or_err :
      (o : Option (List ℕ × F)) → ((f : F) × (parsed o ≡ ok f)) ⊎ ((e : Error) × (parsed o ≡ err e))
  unfolding parsed
  parsed-ok_or_err none = inr (malformed_frame, refl)
  parsed-ok_or_err (some ([], frame)) = inl (frame, refl)
  parsed-ok_or_err (some (b ∷ rest, frame)) = inr (malformed_frame, refl)

  pub parse_frame-ok_or_err :
      (bytes : List ℕ)
      → ((f : F) × (parse_frame bytes ≡ ok f)) ⊎ ((e : Error) × (parse_frame bytes ≡ err e))
  unfolding parse_frame
  parse_frame-ok_or_err bytes = parsed-ok_or_err (parser bytes)

pub size_stays :
    (bytes more : List ℕ) (n : ℕ) → parse_size bytes ≡ some n → parse_size (bytes ++ more) ≡ some n
unfolding parse_size
size_stays (x ∷ y ∷ z ∷ a ∷ b ∷ c ∷ d ∷ rest) more n h = h
size_stays _ more n h = cc

pub size_pos : (bytes : List ℕ) (n : ℕ) → parse_size bytes ≡ some n → 1 ≤ n
unfolding parse_size
size_pos (x ∷ y ∷ z ∷ a ∷ b ∷ c ∷ d ∷ rest) n h = ground arith
size_pos _ n h = cc

abbrev pub amqp_frame_kind : {F : Type 0} → (List ℕ → Option (List ℕ × F)) → FrameKind
amqp_frame_kind {F} parser = record {
  Frame = F;
  parse_size = parse_size;
  parse_frame = parse_frame parser;
  size_stays = size_stays;
  size_pos = size_pos;
  parses = parse_frame-ok_or_err parser;
}
