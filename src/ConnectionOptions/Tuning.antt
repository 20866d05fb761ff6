-- ===== src/ConnectionOptions/Tuning.antt =====
-- What the two sides agree on.
use amiquip.Prelude.{
  ℕ, ◌≤◌, ◌<◌, ◌≡◌, ◌≢◌, ◌⊎◌, refl, inl, inr, ltb, ◌==◌, if◌then◌else◌, min, arith, Bool-cases,
}
use amiquip.Errors.{Result, ok, err, frame_max_too_small}
use amiquip.Protocol.{Tune}
use amiquip.ConnectionOptions.{
  Sasl, ConnectionOptions, frame_min_size, u16_max, u32_max, make_tune_ok,
}

-- `agreed` is the lower of the two limits, where 0 stands for no limit, and `top` if there is none.
pub data Agrees (top server client agreed : ℕ) : Type 0 where
  unlimited : server ≡ 0 → client ≡ 0 → agreed ≡ top → Agrees top server client agreed
  by_server :
      server ≢ 0
      → (client ≡ 0) ⊎ (server ≤ client)
      → agreed ≡ server
      → Agrees top server client agreed
  by_client :
      client ≢ 0
      → (server ≡ 0) ⊎ (client ≤ server)
      → agreed ≡ client
      → Agrees top server client agreed

-- The parameters lie in their types.
pub record InRange (t : Tune) : Type 0 where
  pub channel_max : t.channel_max ≤ u16_max
  pub frame_max : t.frame_max ≤ u32_max
  pub heartbeat : t.heartbeat ≤ u16_max

agreement :
    (top server client : ℕ)
    → server ≤ top
    → client ≤ top
    → Agrees top server client
        (min (if server == 0 then top else server) (if client == 0 then top else client))
agreement top server client s c = elim (Bool-cases (server == 0)) [
  | inl s0 ↦ elim (Bool-cases (client == 0)) [
    | inl c0 ↦ unlimited (ground arith) (ground arith) (ground arith)
    | inr c1 ↦ by_client (ground arith) (inl (ground arith)) (ground arith)
  ]
  | inr s1 ↦ elim (Bool-cases (client == 0)) [
    | inl c0 ↦ by_server (ground arith) (inl (ground arith)) (ground arith)
    | inr c1 ↦ elim (Bool-cases (ltb client server)) [
      | inl less ↦ by_client (ground arith) (inr (ground arith)) (ground arith)
      | inr more ↦ by_server (ground arith) (inr (ground arith)) (ground arith)
    ]
  ]
]

module _ {S : Sasl} (o : ConnectionOptions S) (t : Tune) where
  -- The outcome of the negotiation.
  pub data Tuned (r : Result Tune) : Type 0 where
    tuned :
        (a : Tune)
        → r ≡ ok a
        → Agrees u16_max t.channel_max o.channel_max a.channel_max
        → Agrees u32_max t.frame_max o.frame_max a.frame_max
        → frame_min_size ≤ a.frame_max
        → 1 ≤ a.channel_max
        → (a.heartbeat ≤ t.heartbeat)
          × (a.heartbeat ≤ o.heartbeat)
          × ((a.heartbeat ≡ t.heartbeat) ⊎ (a.heartbeat ≡ o.heartbeat))
        → InRange a
        → Tuned r
    too_small :
        (n : ℕ)
        → r ≡ err (frame_max_too_small frame_min_size n)
        → Agrees u32_max t.frame_max o.frame_max n
        → n < frame_min_size
        → Tuned r

  -- The server's parameters and the options settle each limit: the channel and frame maxima are
  -- the lower of the two sides' limits, where 0 means none, and never 0; the heartbeat is the
  -- lower of the two, where 0 means that there is none. It fails exactly if the frame maximum so
  -- agreed is under the minimum of AMQP.
  pub make_tune_ok-Tuned :
      InRange t
      → o.channel_max ≤ u16_max
      → o.frame_max ≤ u32_max
      → o.heartbeat ≤ u16_max
      → Tuned (make_tune_ok o t)
  unfolding make_tune_ok
  make_tune_ok-Tuned range c f h =
      let channels = agreement u16_max t.channel_max o.channel_max range.channel_max c in
      let frames = agreement u32_max t.frame_max o.frame_max range.frame_max f in
      elim (Bool-cases (
        ltb
          (min (if t.frame_max == 0 then u32_max else t.frame_max)
            (if o.frame_max == 0 then u32_max else o.frame_max))
          frame_min_size)) [
            | inl small ↦ rw small (too_small _ refl frames (ground arith))
            | inr enough ↦ rw enough (
                tuned _ refl channels frames (ground arith) (ground arith)
                  (ground arith, ground arith, ground arith)
                  (record {
                    channel_max = ground arith;
                    frame_max = ground arith;
                    heartbeat = ground arith;
                  }))
          ]
