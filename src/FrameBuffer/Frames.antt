-- ===== src/FrameBuffer/Frames.antt =====
-- One frame at the front of the buffer, and what a run of frames shows.
use amiquip.Prelude.{
  ℕ, suc, ◌+◌, ◌≤◌, ◌≡◌, refl, sym, ap, ◌∙◌, List, [], ◌∷◌, ◌++◌, map, some, length, take, drop,
  drop-append_le, take-append_le, arith,
}
use mathlib.Core.Path.{subst}
use amiquip.Errors.{Result, Error, ok, err, panicked, out_of_fuel, ◌>>=◌}
use amiquip.Exec.{Exec, then_call}
use amiquip.FrameBuffer.{FrameKind, Read, bytes, Reading, complete, handle, advance, take_frame}
use amiquip.FrameBuffer.Decoding.{Decodes, done, broken, frame, complete-size, complete-append}

abbrev pub concat : List (List ℕ) → List ℕ
concat [] = []
concat (c ∷ cs) = c ++ concat cs

abbrev pub NonEmpty : List (List ℕ) → Type 0
NonEmpty [] = Unit {0}
NonEmpty (c ∷ cs) = (1 ≤ length c) × NonEmpty cs

abbrev pub rounds : List (List ℕ) → ℕ
rounds [] = 1
rounds (c ∷ cs) = suc (length c + rounds cs)

pub rounds_pos : (cs : List (List ℕ)) → 1 ≤ rounds cs
rounds_pos [] = omega arith
rounds_pos (c ∷ cs) = omega arith

-- The bytes that the stream is about to give.
abbrev pub pending : List Read → List ℕ
pending [] = []
pending (bytes c ∷ reads) = c ++ pending reads
pending (_ ∷ reads) = pending reads

pub pending-map : (cs : List (List ℕ)) → pending (map bytes cs) ≡ concat cs
pending-map [] = refl
pending-map (c ∷ cs) = ap (λ l. c ++ l) (pending-map cs)

module _ (K : FrameKind) {T : Type 0} (handler : K.Frame → Exec T (Unit {0})) where
  open K use {Frame, parse_frame}

  -- The handler on one frame after the other, up to an error.
  unfoldable pub handle_all : List Frame → Exec T (Unit {0})
  handle_all [] t = (ok tt, t)
  handle_all (f ∷ frames) t = then_call (handler f t) (λ _. handle_all frames)

  -- How a run ends that handles all frames: as the decoding does, with the bytes read.
  abbrev pub ended : Result (Unit {0}) → ℕ → Result (Unit {0}) × T → Result ℕ × T
  ended end total want = then_call want (λ _ t. (end >>= λ _. ok total, t))

  pub record Shows (end : Result (Unit {0})) (rest : List ℕ) (total : ℕ)
      (want : Result (Unit {0}) × T) (out : Result ℕ × Reading T) : Type 0 where
    pub seen : (out.0, out.1.handled) ≡ ended end total want
    pub left : want.0 ≡ ok tt → rest ≡ out.1.buf ++ pending out.1.reads

  take_frame-handled :
      (n : ℕ) (f : Frame) (s : Reading T) (p : Result (Unit {0}) × T)
      → parse_frame (take n s.buf) ≡ ok f
      → handler f s.handled ≡ p
      → take_frame K handler n s
        ≡ then_call (p.0, record s { handled = p.1 }) (λ _. advance K handler n)
  unfolding take_frame handle
  take_frame-handled n f s p parsed handled =
      ap
        (λ r.
          then_call (r, s)
            (λ g. λ s'. then_call (handle K handler g s') (λ _. advance K handler n)))
        parsed
      ∙ ap (λ q. then_call (q.0, record s { handled = q.1 }) (λ _. advance K handler n)) handled

  -- A frame is taken, and the others follow.
  Shows-frame :
      (n : ℕ) (f : Frame) (frames : List Frame) (s : Reading T) (end : Result (Unit {0}))
      (rest : List ℕ) (total : ℕ) (others : Exec (Reading T) ℕ) (p : Result (Unit {0}) × T)
      → parse_frame (take n s.buf) ≡ ok f
      → handler f s.handled ≡ p
      → ((t : T)
          → Shows end rest total
              (handle_all frames t)
              (others (record s { buf = drop n s.buf; handled = t })))
      → Shows end rest total
          (handle_all (f ∷ frames) s.handled)
          (then_call (take_frame K handler n s) (λ _. others))
  unfolding handle_all
  Shows-frame n f frames s end rest total others p parsed handled follow =
      subst
        (λ q.
          Shows end rest total (then_call q (λ _. handle_all frames))
            (then_call (take_frame K handler n s) (λ _. others)))
        (sym handled)
        (subst
          (λ q.
            Shows end rest total (then_call p (λ _. handle_all frames)) (then_call q (λ _. others)))
          (sym (take_frame-handled n f s p parsed handled)) (shown p))
    where
      shown :
          (q : Result (Unit {0}) × T)
          → Shows end rest total (then_call q (λ _. handle_all frames)) (
              then_call
                (then_call (q.0, record s { handled = q.1 }) (λ _. advance K handler n))
                (λ _. others))
      shown (ok a, t) = follow t
      shown (err e, t) = record { seen = refl; left = λ h. cc }
      shown (panicked, t) = record { seen = refl; left = λ h. cc }
      shown (out_of_fuel, t) = record { seen = refl; left = λ h. cc }

  Shows-broken :
      (n : ℕ) (e : Error) (s : Reading T) (end : Result (Unit {0})) (rest : List ℕ) (total : ℕ)
      (others : Exec (Reading T) ℕ)
      → parse_frame (take n s.buf) ≡ err e
      → end ≡ err e
      → rest ≡ s.buf ++ pending s.reads
      → Shows end rest total (ok tt, s.handled) (then_call (take_frame K handler n s) (λ _. others))
  unfolding take_frame
  Shows-broken n e s end rest total others parsed ends left =
      subst
        (λ r.
          Shows end rest total (ok tt, s.handled)
            (then_call
              (then_call (r, s)
                (λ f. λ s'. then_call (handle K handler f s') (λ _. advance K handler n)))
              (λ _. others)))
        (sym parsed)
        (record {
          seen = ap (λ (x : Result (Unit {0})). ((x >>= λ _. ok total), s.handled)) (sym ends);
          left = λ h. left;
        })

  module _ (n : ℕ) (s : Reading T) (all : List ℕ) (whole : complete K s.buf ≡ some n)
      (e : all ≡ s.buf ++ pending s.reads) where
    front : take n all ≡ take n s.buf
    front =
        let (size, le, pos) = complete-size K s.buf n whole in
        ap (take n) e ∙ take-append_le n s.buf (pending s.reads) le

    behind : drop n all ≡ drop n s.buf ++ pending s.reads
    behind =
        let (size, le, pos) = complete-size K s.buf n whole in
        ap (drop n) e ∙ drop-append_le n s.buf (pending s.reads) le

    complete_all : complete K all ≡ some n
    complete_all =
        subst (λ l. complete K l ≡ some n) (sym e)
          (complete-append K s.buf (pending s.reads) n whole)

    same_size : (m : ℕ) → complete K all ≡ some m → n ≡ m
    same_size m c = cc (complete_all)

  -- A whole frame is at the front of the buffer.
  pub Shows-complete :
      (n : ℕ) (s : Reading T) (end : Result (Unit {0})) (rest all : List ℕ) (frames : List Frame)
      (total : ℕ) (others : Exec (Reading T) ℕ)
      → complete K s.buf ≡ some n
      → all ≡ s.buf ++ pending s.reads
      → Decodes K end rest all frames
      → ((t : T) (frames : List Frame)
          → Decodes K end rest (drop n s.buf ++ pending s.reads) frames
          → Shows end rest total
              (handle_all frames t)
              (others (record s { buf = drop n s.buf; handled = t })))
      → Shows end rest total
          (handle_all frames s.handled)
          (then_call (take_frame K handler n s) (λ _. others))
  unfolding handle_all
  Shows-complete n s end rest all _ total others whole e (done _ c p q) follow =
      cc (complete_all n s all whole e)
  Shows-complete n s end rest all _ total others whole e (broken _ m x c parsed p q) follow =
      Shows-broken n x s end rest total others
        (sym (ap parse_frame (front n s all whole e))
          ∙ ap (λ k. parse_frame (take k all)) (same_size n s all whole e m c)
          ∙ parsed)
        p (q ∙ e)
  Shows-complete n s end rest all _ total others whole e (frame _ m f frames c parsed d) follow =
      Shows-frame n f frames s end rest total others (handler f s.handled)
        (sym (ap parse_frame (front n s all whole e))
          ∙ ap (λ k. parse_frame (take k all)) (same_size n s all whole e m c)
          ∙ parsed)
        refl
        (λ t. follow t frames (
          subst (λ l. Decodes K end rest l frames)
            (ap (λ k. drop k all) (sym (same_size n s all whole e m c)) ∙ behind n s all whole e)
            d))
