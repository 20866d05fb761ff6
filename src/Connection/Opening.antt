-- ===== src/Connection/Opening.antt =====
-- The room that the negotiation leaves for content.
use amiquip.Prelude.{ℕ, ◌+◌, ◌-◌, ◌≤◌, ◌≡◌, refl, true, false, ltb, ◌==◌, arith, if◌then◌else◌}
use amiquip.Errors
use amiquip.Errors.{
  Result, Error, ok, err, event_loop_dropped, unavailable_channel_id, panicked, out_of_fuel,
}
use amiquip.Protocol.{Tune}
use amiquip.ConnectionOptions.{Sasl, ConnectionOptions, make_tune_ok, frame_min_size}
use amiquip.ChannelHandle.{IoLoopHandle}
use amiquip.Connection.{Channel0Handle, new, frame_overhead}

room :
    (handle : IoLoopHandle) (frame_max : ℕ)
    → handle.channel_id ≡ 0
    → frame_min_size ≤ frame_max
    → new handle frame_max ≡ ok (record { handle = handle; frame_max = frame_max - frame_overhead })
unfolding new
room handle frame_max zero_ least =
    let e : (handle.channel_id == 0) ≡ true = ground arith in
    let f : (frame_max == 0) ≡ false = ground arith in
    let g : ltb frame_max frame_overhead ≡ false = ground arith in rw (e, f, g) refl

ok_least :
    (frame_max : ℕ) (a t : Tune)
    → (if ltb frame_max frame_min_size
        then err (Errors.frame_max_too_small frame_min_size frame_max)
        else ok a)
      ≡ ok t
    → a.frame_max ≡ frame_max
    → frame_min_size ≤ t.frame_max
ok_least frame_max a t h same = ground arith

-- What a client negotiates leaves room for content: if the parameters are agreed on, the handle of
-- channel 0 is made from them without a panic, and a body frame may have at least 4088 bytes of
-- content and, with the 8 bytes around them, no more than the frame size that was agreed on.
pub make_tune_ok-room :
    {S : Sasl} (o : ConnectionOptions S) (offer t : Tune) (handle : IoLoopHandle)
    → handle.channel_id ≡ 0
    → make_tune_ok o offer ≡ ok t
    → (c : Channel0Handle) × (new handle t.frame_max ≡ ok c)
      × (4088 ≤ c.frame_max)
      × (c.frame_max + frame_overhead ≡ t.frame_max)
unfolding make_tune_ok
make_tune_ok-room o offer t handle zero_ agreed =
    let least = ok_least _ _ t agreed refl in
    (
      record { handle = handle; frame_max = t.frame_max - frame_overhead },
      room handle t.frame_max zero_ least,
      omega arith,
      omega arith,
    )
