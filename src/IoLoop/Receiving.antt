-- ===== src/IoLoop/Receiving.antt =====
-- `read_from_stream` of io_loop/mod.rs: what a read means to the heartbeats.
mod Tests
use amiquip.Prelude.{
  ℕ, ◌+◌, ◌≤◌, ◌≡◌, refl, ap, ◌∙◌, Bool, true, false, List, [], ◌∷◌, ◌++◌, length, ltb,
  if◌then◌else◌, arith,
}
use amiquip.Errors.{Result, ok, err, panicked, out_of_fuel}
use amiquip.Exec.{Exec, then_call, ◌>>=◌}
use amiquip.Heartbeats.{HeartbeatTimers, record_rx_activity}
use amiquip.FrameBuffer.{FrameKind, Reading, read_from}
use amiquip.FrameBuffer.Decoding.{Decodes}
use amiquip.FrameBuffer.Frames.{concat, NonEmpty, rounds, handle_all, ended}
use amiquip.FrameBuffer.Chunks.{start, read_from-Shows}

-- Of `Inner` the timers, which a handler may start, are apart from the rest.
module _ {U : Type 0} where
  unfoldable pub heard : ℕ → HeartbeatTimers × U → HeartbeatTimers × U
  heard now (timers, inner) = (record_rx_activity now timers, inner)

  -- `n` bytes came, and then the clock says `now`.
  unfoldable pub note : ℕ → ℕ → Exec (HeartbeatTimers × U) (Unit {0})
  note now n t = (ok tt, if ltb 0 n then heard now t else t)

module _ (K : FrameKind) {U : Type 0}
    (handler : K.Frame → Exec (HeartbeatTimers × U) (Unit {0})) where
  open K use {Frame}

  abbrev pub on_inner :
      Exec (HeartbeatTimers × U) (Unit {0}) → Exec (Reading (HeartbeatTimers × U)) (Unit {0})
  on_inner call s = let (r, t) = call s.handled in (r, record s { handled = t })

  unfoldable pub read_from_stream : ℕ → ℕ → Exec (Reading (HeartbeatTimers × U)) (Unit {0})
  read_from_stream fuel now = read_from K handler fuel >>= λ n. on_inner (note now n)

  -- What a read should come to, where the frames are handled as `want` says and the bytes behind
  -- them are in order or not, as `end` says.
  unfoldable pub listened :
      ℕ
      → List ℕ
      → Result (Unit {0})
      → Result (Unit {0}) × (HeartbeatTimers × U)
      → Result (Unit {0}) × (HeartbeatTimers × U)
  listened now [] (ok _) (ok _, t) = (ok tt, t)
  listened now (b ∷ bytes) (ok _) (ok _, t) = (ok tt, heard now t)
  listened now bytes (err e) (ok _, t) = (err e, t)
  listened now bytes panicked (ok _, t) = (panicked, t)
  listened now bytes out_of_fuel (ok _, t) = (out_of_fuel, t)
  listened now bytes end (err e, t) = (err e, t)
  listened now bytes end (panicked, t) = (panicked, t)
  listened now bytes end (out_of_fuel, t) = (out_of_fuel, t)

  noted :
      (now : ℕ) (r : Result ℕ) (s : Reading (HeartbeatTimers × U))
      → (let out = then_call (r, s) (λ n. on_inner (note now n)) in (out.0, out.1.handled))
        ≡ then_call (r, s.handled) (λ n. note now n)
  noted now (ok n) s = refl
  noted now (err e) s = refl
  noted now panicked s = refl
  noted now out_of_fuel s = refl

  ended-listened :
      (now : ℕ) (bytes : List ℕ) (end : Result (Unit {0}))
      (want : Result (Unit {0}) × (HeartbeatTimers × U))
      → then_call (ended K handler end (length bytes) want) (λ n. note now n)
        ≡ listened now bytes end want
  unfolding note listened
  ended-listened now [] (ok _) (ok _, t) = refl
  ended-listened now (b ∷ bytes) (ok _) (ok _, t) = ground arith
  ended-listened now bytes (err e) (ok _, t) = refl
  ended-listened now bytes panicked (ok _, t) = refl
  ended-listened now bytes out_of_fuel (ok _, t) = refl
  ended-listened now bytes end (err e, t) = refl
  ended-listened now bytes end (panicked, t) = refl
  ended-listened now bytes end (out_of_fuel, t) = refl

  -- With more rounds than bytes and reads, and no empty read, a read of the stream calls the
  -- handler on the frames that the bytes decode to, up to its first error. The server counts as
  -- heard, at the time behind the last frame, exactly where bytes came and nothing went wrong: not
  -- if none came, nor behind an error of the handler or a frame that does not parse.
  pub read_from_stream-listened :
      (fuel now : ℕ) (buf : List ℕ) (cs : List (List ℕ)) (t : HeartbeatTimers × U)
      (end : Result (Unit {0})) (rest : List ℕ) (frames : List Frame)
      → NonEmpty cs
      → length buf + rounds cs ≤ fuel
      → Decodes K end rest (buf ++ concat cs) frames
      → (let out = read_from_stream fuel now (start K handler buf cs t) in (out.0, out.1.handled))
        ≡ listened now (concat cs) end (handle_all K handler frames t)
  unfolding read_from_stream
  read_from_stream-listened fuel now buf cs t end rest frames filled h d =
      let s = read_from K handler fuel (start K handler buf cs t) in
      noted now s.0 s.1
      ∙ ap (λ p. then_call p (λ n. note now n))
          ((read_from-Shows K handler fuel buf cs t end rest frames filled h d).seen)
      ∙ ended-listened now (concat cs) end (handle_all K handler frames t)
