-- ===== src/IoLoop/Watermarks.antt =====
-- Fast publishers are held back.
use amiquip.Prelude.{
  ℕ, ◌≤◌, ◌<◌, ◌≡◌, refl, ap, Bool, true, false, not, List, [], ◌∷◌, ◌++◌, length, leb, ltb,
  Bool-cases, inl, inr, arith,
}
use amiquip.Serialize.{OutputBuffer, is_empty}
use amiquip.IoLoop.{
  Polling, PollRequest, deregister_nonzero_channels, reregister_nonzero_channels, watermarks,
  reregister_socket, end_of_round,
}

-- What the poll is asked for about the channels, by whether they were and are listened to.
unfoldable pub channel_requests : Bool → Bool → List PollRequest
channel_requests true false = deregister_nonzero_channels ∷ []
channel_requests false true = reregister_nonzero_channels ∷ []
channel_requests true true = []
channel_requests false false = []

watermarks-requests :
    (high low len : ℕ) (listening : Bool)
    → (watermarks high low len listening).0
      ≡ channel_requests listening ((watermarks high low len listening).1)
unfolding watermarks channel_requests
watermarks-requests high low len true = elim (Bool-cases (ltb high len)) [
  | inl e ↦ rw e refl
  | inr e ↦ rw e refl
]
watermarks-requests high low len false = elim (Bool-cases (leb len low)) [
  | inl e ↦ rw e refl
  | inr e ↦ rw e refl
]

-- A round ends with the channels listened to only if no more is queued than the high water mark,
-- and with the channels ignored only if more is queued than the low one. The channels are
-- listened to again after they were ignored only once the queue is down to the low water mark, and
-- ignored after they were listened to only once it is above the high one. The poll is asked to
-- deregister the channels exactly in a round that stops listening, and to register them again
-- exactly in a round that starts, before it is asked for the socket. A low water mark is at most
-- the high one.
pub end_of_round-bounds :
    (high low : ℕ) (had_data : Bool) (outbuf : OutputBuffer) (polling : Polling)
    → low ≤ high
    → let (requests, polling') = end_of_round high low had_data outbuf polling in
      let before = polling.listening_to_channels in
      let after = polling'.listening_to_channels in
      (after ≡ true → length outbuf ≤ high)
      × (after ≡ false → low < length outbuf)
      × (before ≡ false → after ≡ true → length outbuf ≤ low)
      × (before ≡ true → after ≡ false → high < length outbuf)
      × (requests
          ≡ channel_requests before after
            ++ (reregister_socket
                (not (is_empty outbuf))
                had_data
                polling.have_written_to_socket).0)
unfolding end_of_round watermarks reregister_socket
end_of_round-bounds high low had_data outbuf polling h =
    let socket =
      (reregister_socket (not (is_empty outbuf)) had_data polling.have_written_to_socket).0 in
    (
      ground arith,
      ground arith,
      ground arith,
      ground arith,
      ap (λ r. r ++ socket)
          (watermarks-requests high low (length outbuf) polling.listening_to_channels),
    )
