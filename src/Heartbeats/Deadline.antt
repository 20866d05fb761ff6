-- ===== src/Heartbeats/Deadline.antt =====
-- When a heartbeat is expired, and when its timer fires next.
use amiquip.Prelude.{
  ℕ, suc, ◌+◌, ◌-◌, ◌≤◌, ◌<◌, ◌≡◌, refl, List, [], ◌∷◌, ◌++◌, arith, append_assoc,
}
use amiquip.Heartbeats.{
  HeartbeatState, still_running, expired, Request, set_timeout, cancel_timeout, Timer, Heartbeat,
  fudge, judge, fire, set, cancel,
}

-- What is asked of the timer when a heartbeat fires: its old timeout goes and a new one comes.
abbrev pub rearmed : {T : Type 0} → Timer T → Heartbeat T → ℕ → List (Request T)
rearmed timer self when =
    timer.requests ++ cancel_timeout self.timeout ∷ set_timeout when self.val ∷ []

module _ {T : Type 0} (now : ℕ) (self : Heartbeat T) (timer : Timer T) where
  -- The fields of what `fire` leaves.
  abbrev pub Fired : HeartbeatState → ℕ → Type 0
  Fired state when =
      (fire now self timer ≡ (
        state,
        (
          record self { timeout = timer.next_timeout },
          record { requests = rearmed timer self when; next_timeout = suc timer.next_timeout },
        ),
      ))

  late : self.interval ≤ (now - self.last) + fudge → judge now self ≡ (self.interval, expired)
  unfolding judge
  late h = ground arith

  early :
      (now - self.last) + fudge < self.interval
      → judge now self ≡ (self.interval - (now - self.last), still_running)
  unfolding judge
  early h = ground arith

  fired : (when : ℕ) (state : HeartbeatState) → judge now self ≡ (when, state) → Fired state when
  unfolding fire set cancel
  fired when state e =
      rw
        (
          e,
          append_assoc timer.requests (cancel_timeout self.timeout ∷ [])
              (set_timeout when self.val ∷ []),
        )
        refl

  -- A heartbeat whose timer fires is expired exactly when its interval, less 5 ms, has gone by
  -- since its last activity. The old timeout is cancelled and one new timeout is set: for the
  -- whole interval if it is expired, and else for more than 5 ms, such that it comes at one
  -- interval after the last activity.
  pub fire-deadline :
      self.last ≤ now
      → (self.last + self.interval ≤ now + fudge → Fired expired self.interval)
        × (now + fudge < self.last + self.interval
            → (when : ℕ) × Fired still_running when
              × (now + when ≡ self.last + self.interval)
              × (fudge < when))
  fire-deadline past = (
    λ h. fired self.interval expired (late (omega arith)),
    λ h. (
      self.interval - (now - self.last),
      fired _ still_running (early (omega arith)),
      omega arith,
      omega arith,
    ),
  )
