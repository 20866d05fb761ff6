-- ===== src/FrameBuffer/Decoding.antt =====
-- The frames that a string of bytes holds, whatever reads they come in.
use amiquip.Prelude.{
  ℕ, zero, suc, ◌≤◌, ◌<◌, ◌≡◌, refl, inl, inr, List, [], ◌∷◌, ◌++◌, none, some, Option-cases,
  length, length-append, length-drop, take, drop, arith,
}
use amiquip.Errors.{Result, Error, ok, err}
use amiquip.FrameBuffer.{FrameKind, complete}

module _ (K : FrameKind) where
  open K use {Frame, parse_size, parse_frame, size_stays, size_pos, parses}

  -- The frames at the front of the bytes; how it ends, by bytes that hold no whole frame or by one
  -- that does not parse; and the bytes from there on.
  pub data Decodes (end : Result (Unit {0})) (rest : List ℕ) : List ℕ → List Frame → Type 0 where
    done :
        (bytes : List ℕ)
        → complete K bytes ≡ none
        → end ≡ ok tt
        → rest ≡ bytes
        → Decodes end rest bytes []
    broken :
        (bytes : List ℕ) (n : ℕ) (e : Error)
        → complete K bytes ≡ some n
        → parse_frame (take n bytes) ≡ err e
        → end ≡ err e
        → rest ≡ bytes
        → Decodes end rest bytes []
    frame :
        (bytes : List ℕ) (n : ℕ) (f : Frame) (frames : List Frame)
        → complete K bytes ≡ some n
        → parse_frame (take n bytes) ≡ ok f
        → Decodes end rest (drop n bytes) frames
        → Decodes end rest bytes (f ∷ frames)

  complete_of_size :
      (bytes : List ℕ) (n : ℕ)
      → parse_size bytes ≡ some n
      → n ≤ length bytes
      → complete K bytes ≡ some n
  unfolding complete
  complete_of_size bytes n h le = ground arith

  -- A whole frame has its size, lies in the bytes, and is not empty.
  pub complete-size :
      (bytes : List ℕ) (n : ℕ)
      → complete K bytes ≡ some n
      → (parse_size bytes ≡ some n) × (n ≤ length bytes) × (1 ≤ n)
  unfolding complete
  complete-size bytes n h = elim (Option-cases (parse_size bytes)) [
    | inl e ↦ ground arith
    | inr (m, e) ↦ ground (arith, size_pos bytes m)
  ]

  pub complete-append :
      (bytes more : List ℕ) (n : ℕ)
      → complete K bytes ≡ some n
      → complete K (bytes ++ more) ≡ some n
  complete-append bytes more n h =
      let (size, le, pos) = complete-size bytes n h in
      complete_of_size (bytes ++ more) n (size_stays bytes more n size)
        (omega (arith, length-append bytes more))

  -- Every string of bytes decodes.
  decodes_within :
      (fuel : ℕ) (bytes : List ℕ)
      → length bytes < fuel
      → (end : Result (Unit {0})) × (rest : List ℕ) × (frames : List Frame) × Decodes end rest bytes
          frames
  decodes_within zero bytes h = absurd (omega arith)
  decodes_within (suc fuel) bytes h = elim (Option-cases (complete K bytes)) [
    | inl e ↦ (ok tt, bytes, [], done bytes e refl refl)
    | inr (n, e) ↦ elim (parses (take n bytes)) [
      | inr (x, p) ↦ (err x, bytes, [], broken bytes n x e p refl refl)
      | inl (f, p) ↦
          let (size, le, pos) = complete-size bytes n e in
          let (end, rest, frames, d) =
            decodes_within fuel (drop n bytes) (omega (arith, length-drop n bytes)) in
          (end, rest, f ∷ frames, frame bytes n f frames e p d)
    ]
  ]

  pub decodes :
      (bytes : List ℕ)
      → (end : Result (Unit {0})) × (rest : List ℕ) × (frames : List Frame) × Decodes end rest bytes
          frames
  decodes bytes = decodes_within (suc (length bytes)) bytes (omega arith)
