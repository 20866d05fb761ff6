-- ===== src/FrameBuffer/Chunks.antt =====
-- The cuts between reads make no difference.
use amiquip.Prelude.{
  ℕ, zero, suc, ◌+◌, ◌≤◌, ◌≡◌, refl, sym, ap, ◌∙◌, List, [], ◌∷◌, ◌++◌, map, append-nil,
  append_assoc, Option, none, some, length, length-append, length-drop, drop, arith,
}
use mathlib.Core.Path.{subst}
use amiquip.Errors.{Result, ok, err, panicked, out_of_fuel, ◌>>=◌}
use amiquip.Exec.{Exec}
use amiquip.FrameBuffer.{
  FrameKind, bytes, Reading, complete, read_more, read_round, read_on, read_from,
}
use amiquip.FrameBuffer.Decoding.{Decodes, done, broken, frame, complete-size, decodes}
use amiquip.FrameBuffer.Frames.{
  concat, NonEmpty, rounds, rounds_pos, pending-map, handle_all, ended, Shows, Shows-complete,
}

module _ (K : FrameKind) {T : Type 0} (handler : K.Frame → Exec T (Unit {0})) where
  open K use {Frame, parse_frame}

  -- A run of the loop sees what the decoding of all the bytes says.
  abbrev Follows : ℕ → (ℕ → Exec (Reading T) ℕ) → Type 0
  Follows fuel others =
      (total : ℕ) (buf : List ℕ) (cs : List (List ℕ)) (t : T) (end : Result (Unit {0}))
      (rest : List ℕ) (frames : List Frame)
      → NonEmpty cs
      → length buf + rounds cs ≤ fuel
      → Decodes K end rest (buf ++ concat cs) frames
      → Shows K handler end rest (total + length (concat cs)) (handle_all K handler frames t)
          (others total (record { buf = buf; reads = map bytes cs; handled = t }))

  none_whole :
      (buf all : List ℕ) (m : ℕ) → complete K buf ≡ none → all ≡ buf → complete K all ≡ some m → ⊥
  none_whole buf all m e same c =
      let c' : complete K buf ≡ some m = subst (λ l. complete K l ≡ some m) same c in cc

  -- No whole frame is left, and nothing to read.
  Shows-end :
      (buf all : List ℕ) (t : T) (end : Result (Unit {0})) (rest : List ℕ) (frames : List Frame)
      (total : ℕ)
      → complete K buf ≡ none
      → all ≡ buf
      → Decodes K end rest all frames
      → Shows K handler end rest
          (total + 0)
          (handle_all K handler frames t)
          (ok total, record { buf = buf; reads = []; handled = t })
  unfolding handle_all
  Shows-end buf all t end rest _ total e same (done _ c p q) = record {
    seen =
        ap (λ (x : Result (Unit {0})). (x >>= λ _. ok total, t)) (sym p)
        ∙ ap (λ k. (end >>= λ _. ok k, t)) (omega arith);
    left = λ h. q ∙ same ∙ sym (append-nil buf);
  }
  Shows-end buf all t end rest _ total e same (broken _ m x c parsed p q) =
      absurd (none_whole buf all m e same c)
  Shows-end buf all t end rest _ total e same (frame _ m f frames c parsed d) =
      absurd (none_whole buf all m e same c)

  read_more-Shows :
      (fuel : ℕ) (others : ℕ → Exec (Reading T) ℕ)
      → Follows fuel others
      → (total : ℕ) (buf : List ℕ) (cs : List (List ℕ)) (t : T) (end : Result (Unit {0}))
        (rest : List ℕ) (frames : List Frame)
      → complete K buf ≡ none
      → NonEmpty cs
      → length buf + rounds cs ≤ suc fuel
      → Decodes K end rest (buf ++ concat cs) frames
      → Shows K handler end rest (total + length (concat cs)) (handle_all K handler frames t) (
          read_more K handler others total
            (map bytes cs)
            (record { buf = buf; reads = map bytes cs; handled = t }))
  unfolding read_more handle_all
  read_more-Shows fuel others ih total buf [] t end rest frames e filled h d =
      Shows-end buf (buf ++ []) t end rest frames total e (append-nil buf) d
  read_more-Shows fuel others ih total buf ((b ∷ c) ∷ cs) t end rest frames e (some_bytes, filled) h
        d =
      subst
        (λ k. Shows K handler end rest k (handle_all K handler frames t) (
          others (total + suc (length c))
            (record { buf = buf ++ b ∷ c; reads = map bytes cs; handled = t })))
        (omega (arith, length-append c (concat cs)))
        (ih (total + suc (length c)) (buf ++ b ∷ c) cs t end rest frames filled
          (omega (arith, length-append buf (b ∷ c)))
          (subst (λ l. Decodes K end rest l frames) (sym (append_assoc buf (b ∷ c) (concat cs))) d))
  read_more-Shows fuel others ih total buf ([] ∷ cs) t end rest frames e (some_bytes, filled) h d =
      absurd (omega arith)

  read_round-Shows :
      (fuel : ℕ) (others : ℕ → Exec (Reading T) ℕ)
      → Follows fuel others
      → (total : ℕ) (buf : List ℕ) (cs : List (List ℕ)) (t : T) (end : Result (Unit {0}))
        (rest : List ℕ) (frames : List Frame)
      → NonEmpty cs
      → length buf + rounds cs ≤ suc fuel
      → Decodes K end rest (buf ++ concat cs) frames
      → (o : Option ℕ) → complete K buf ≡ o
      → Shows K handler end rest (total + length (concat cs)) (handle_all K handler frames t) (
          read_round K handler others total o
            (record { buf = buf; reads = map bytes cs; handled = t }))
  unfolding read_round
  read_round-Shows fuel others ih total buf cs t end rest frames filled h d none e =
      read_more-Shows fuel others ih total buf cs t end rest frames e filled h d
  read_round-Shows fuel others ih total buf cs t end rest frames filled h d (some n) e =
      let (size, le, pos) = complete-size K buf n e in
      Shows-complete K handler n (record { buf = buf; reads = map bytes cs; handled = t }) end rest
        (buf ++ concat cs) frames (total + length (concat cs)) (others total) e
        (ap (λ l. buf ++ l) (sym (pending-map cs))) d
        (λ t' frames' d'.
          ih total (drop n buf) cs t' end rest frames' filled (omega (arith, length-drop n buf))
            (subst (λ l. Decodes K end rest (drop n buf ++ l) frames') (pending-map cs) d'))

  read_on-Follows : (fuel : ℕ) → Follows fuel (read_on K handler fuel)
  unfolding read_on
  read_on-Follows zero total buf cs t end rest frames filled h d =
      absurd (omega (arith, rounds_pos cs))
  read_on-Follows (suc fuel) total buf cs t end rest frames filled h d =
      read_round-Shows fuel (read_on K handler fuel) (read_on-Follows fuel) total buf cs t end rest
        frames filled h d (complete K buf) refl

  abbrev pub start : List ℕ → List (List ℕ) → T → Reading T
  start buf cs t = record { buf = buf; reads = map bytes cs; handled = t }

  -- With more rounds than bytes and reads, and no empty read, `read_from` returns: it calls the
  -- handler on the frames that the bytes of the buffer and of the reads decode to, in their order
  -- and up to the first error of the handler. Without such an error the result is the number of
  -- bytes read, or the error of a frame that does not parse, and what is left in the buffer and
  -- unread are the bytes behind the frames.
  pub read_from-Shows :
      (fuel : ℕ) (buf : List ℕ) (cs : List (List ℕ)) (t : T) (end : Result (Unit {0}))
      (rest : List ℕ) (frames : List Frame)
      → NonEmpty cs
      → length buf + rounds cs ≤ fuel
      → Decodes K end rest (buf ++ concat cs) frames
      → Shows K handler end rest
          (length (concat cs))
          (handle_all K handler frames t)
          (read_from K handler fuel (start buf cs t))
  unfolding read_from
  read_from-Shows fuel buf cs t end rest frames filled h d =
      subst
        (λ k.
          Shows K handler end rest k (handle_all K handler frames t)
            (read_on K handler fuel 0 (start buf cs t)))
        (omega arith) (read_on-Follows fuel 0 buf cs t end rest frames filled h d)

  -- The result without the number of bytes, and the state in which the run leaves the handler.
  abbrev pub verdict : Result ℕ × T → Result (Unit {0}) × T
  verdict out = (out.0 >>= λ _. ok tt, out.1)

  verdict-ended :
      (end : Result (Unit {0})) (m n : ℕ) (want : Result (Unit {0}) × T)
      → verdict (ended K handler end m want) ≡ verdict (ended K handler end n want)
  verdict-ended (ok a) m n (ok b, t) = refl
  verdict-ended (err e) m n (ok b, t) = refl
  verdict-ended panicked m n (ok b, t) = refl
  verdict-ended out_of_fuel m n (ok b, t) = refl
  verdict-ended end m n (err e, t) = refl
  verdict-ended end m n (panicked, t) = refl
  verdict-ended end m n (out_of_fuel, t) = refl

  -- Let the same bytes come in two ways, some of them in the buffer and the others in reads of
  -- which none is empty. With enough rounds both runs end alike, but for the number of bytes that
  -- they count, and leave the handler in the same state.
  pub read_from-chunks :
      (buf buf' : List ℕ) (cs cs' : List (List ℕ)) (t : T) (fuel fuel' : ℕ)
      → NonEmpty cs
      → NonEmpty cs'
      → buf ++ concat cs ≡ buf' ++ concat cs'
      → length buf + rounds cs ≤ fuel
      → length buf' + rounds cs' ≤ fuel'
      → (let out = read_from K handler fuel (start buf cs t) in verdict (out.0, out.1.handled))
        ≡ (let out = read_from K handler fuel' (start buf' cs' t) in verdict (out.0, out.1.handled))
  read_from-chunks buf buf' cs cs' t fuel fuel' filled filled' same h h' =
      let (end, rest, frames, d) = decodes K (buf ++ concat cs) in
      let s = read_from-Shows fuel buf cs t end rest frames filled h d in
      let s' =
        read_from-Shows fuel' buf' cs' t end rest frames filled' h'
          (subst (λ l. Decodes K end rest l frames) same d) in
      ap verdict s.seen
      ∙ verdict-ended end (length (concat cs)) (length (concat cs')) (handle_all K handler frames t)
      ∙ sym (ap verdict s'.seen)
