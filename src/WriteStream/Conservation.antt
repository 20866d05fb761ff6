-- ===== src/WriteStream/Conservation.antt =====
-- No byte is lost, repeated or reordered on the way to the stream.
use amiquip.Prelude.{
  ℕ, zero, suc, ◌+◌, ◌≤◌, ◌<◌, ◌≡◌, refl, sym, ap, ◌∙◌, List, [], ◌∷◌, ◌++◌, append_assoc, length,
  take, drop, take-append-drop, length-drop, ltb, leb, true, Bool-cases, ◌⊎◌, inl, inr, arith,
}
use amiquip.Errors.{ok, err, io_error_writing_socket}
use amiquip.Serialize.{drain_written}
use amiquip.WriteStream.{
  WriteOutcome, wrote, would_block, failed, Stream, Outcome, blocked, write_from, write_to_stream,
}

-- What `Write` promises: of the bytes offered, some are taken.
pub record Writer (stream : Stream) : Type 0 where
  pub some_taken :
      (k n : ℕ) (offered : List ℕ) → 1 ≤ length offered → stream k offered ≡ wrote n → 1 ≤ n
  pub not_more : (k n : ℕ) (offered : List ℕ) → stream k offered ≡ wrote n → n ≤ length offered

-- Of `todo`, what was taken and what the buffer holds afterwards, or on an error the old buffer.
pub data Conserves (buf todo : List ℕ) (o : Outcome) : Type 0 where
  kept : o.result ≡ ok tt → todo ≡ o.taken ++ o.outbuf → Conserves buf todo o
  broken :
      (rest : List ℕ)
      → o.result ≡ err io_error_writing_socket
      → o.outbuf ≡ buf
      → todo ≡ o.taken ++ rest
      → Conserves buf todo o

drop-nil : (n : ℕ) → ◌≡◌ {A = List ℕ} (drop n []) []
drop-nil zero = refl
drop-nil (suc n) = refl

drop-add : (m n : ℕ) (xs : List ℕ) → drop (m + n) xs ≡ drop n (drop m xs)
drop-add zero n xs = let p : 0 + n ≡ n = omega arith in ap (λ k. drop k xs) p
drop-add (suc m) n [] = drop-nil (suc m + n) ∙ sym (drop-nil n)
drop-add (suc m) n (x ∷ xs) =
    let p : suc m + n ≡ suc (m + n) = omega arith in ap (λ k. drop k (x ∷ xs)) p ∙ drop-add m n xs

empty-by_length : (l : List ℕ) → length l ≡ 0 → l ≡ []
empty-by_length [] h = refl
empty-by_length (x ∷ l) h = absurd (omega arith)

WriteOutcome-cases :
    (o : WriteOutcome) → ((n : ℕ) × (o ≡ wrote n)) ⊎ ((o ≡ would_block) ⊎ (o ≡ failed))
WriteOutcome-cases (wrote n) = inl (n, refl)
WriteOutcome-cases would_block = inr (inl refl)
WriteOutcome-cases failed = inr (inr refl)

-- A write in front of the others.
Conserves-wrote :
    (buf todo rest : List ℕ) (n : ℕ) (o : Outcome)
    → rest ≡ drop n todo
    → Conserves buf rest o
    → Conserves buf todo (record o { taken = take n todo ++ o.taken })
Conserves-wrote buf todo rest n o e (kept r c) = kept r (
    sym (take-append-drop n todo)
    ∙ ap (λ l. take n todo ++ l) (sym e ∙ c)
    ∙ sym (append_assoc (take n todo) o.taken o.outbuf))
Conserves-wrote buf todo rest n o e (broken more r b c) = broken more r b (
    sym (take-append-drop n todo)
    ∙ ap (λ l. take n todo ++ l) (sym e ∙ c)
    ∙ sym (append_assoc (take n todo) o.taken more))

blocked-Conserves :
    (buf : List ℕ) (pos : ℕ)
    → pos < length buf
    → Conserves buf (drop pos buf) (blocked buf (drain_written buf pos))
unfolding blocked drain_written
blocked-Conserves buf pos h =
    let e : leb pos (length buf) ≡ true = ground arith in rw e (kept refl refl)

module _ (stream : Stream) (W : Writer stream) where
  write_from-Conserves :
      (fuel k : ℕ) (buf : List ℕ) (pos : ℕ)
      → length buf < fuel + pos
      → pos ≤ length buf
      → Conserves buf (drop pos buf) (write_from fuel stream k buf pos)
  unfolding write_from
  write_from-Conserves zero k buf pos f h = absurd (omega arith)
  write_from-Conserves (suc fuel) k buf pos f h = elim (Bool-cases (ltb pos (length buf))) [
    | inr e ↦ rw e (kept refl (empty-by_length (drop pos buf) (length-drop pos buf ∙ ground arith)))
    | inl e ↦ rw e (elim (WriteOutcome-cases (stream k (drop pos buf))) [
      | inl (n, w) ↦ rw w (
          Conserves-wrote buf (drop pos buf) (drop (pos + n) buf) n _ (drop-add pos n buf) (
            write_from-Conserves fuel (suc k) buf (pos + n)
              (ground
                (arith, W.some_taken k n (drop pos buf) (ground (arith, length-drop pos buf)) w))
              (ground (arith, W.not_more k n (drop pos buf) w, length-drop pos buf))))
      | inr (inl w) ↦ rw w (blocked-Conserves buf pos (ground arith))
      | inr (inr w) ↦ rw w (broken (drop pos buf) refl refl refl)
    ])
  ]

  -- Where the stream keeps what `Write` promises, the call returns within the length of the buffer
  -- and one more round: either without an error, and what the stream took and what is left in the
  -- buffer make up the old buffer, or with the error of the stream, the buffer unchanged, and what
  -- the stream took is a beginning of it.
  pub write_to_stream-Conserves :
      (fuel : ℕ) (buf : List ℕ)
      → length buf < fuel
      → Conserves buf buf (write_to_stream fuel stream buf)
  unfolding write_to_stream
  write_to_stream-Conserves fuel buf h =
      write_from-Conserves fuel 0 buf 0 (omega arith) (omega arith)
