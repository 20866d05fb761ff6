-- ===== src/IoLoop/Ending.antt =====
-- How the I/O thread ends.
use amiquip.Prelude.{ℕ, ◌≡◌, refl, Bool, true, false, not, List, inl, inr, arith}
use amiquip.Errors.{ok}
use amiquip.IndexSet.{IndexSet}
use amiquip.Protocol.{Amqp, AmqpFrame}
use amiquip.Serialize.{Codec, is_empty}
use amiquip.Inner.{ConnectionState, Env, Io}
use amiquip.ConnectionState.{process_all}
use amiquip.ConnectionState.Advances.{said_last}
use amiquip.ConnectionState.Closing.{process_all-Advances}
use amiquip.IoLoop.{is_connection_done, is_sealed}

module _ (A : Amqp) (I : IndexSet) (C : Codec A) (env : Env A) where
  -- Whether the connection is done, in words.
  unfoldable pub done : ConnectionState A → List ℕ → Bool
  done (ConnectionState.steady ch0) outbuf = false
  done ConnectionState.client_closed outbuf = true
  done (ConnectionState.server_closing close) outbuf = is_empty outbuf
  done ConnectionState.client_exception outbuf = is_empty outbuf

  double_negation : (b : Bool) → not (not b) ≡ b
  double_negation true = refl
  double_negation false = refl

  done_in :
      (state : ConnectionState A) (io : Io A I)
      → io.state ≡ state
      → (said_last A I C env state ≡ true → is_sealed A I io ≡ true)
      → is_connection_done A I io ≡ ok (done state io.inner.outbuf.buf)
  unfolding is_connection_done said_last done
  done_in (ConnectionState.steady ch0) io e sealed = rw (is_connection_done, e) refl
  done_in ConnectionState.client_closed io e sealed = rw (is_connection_done, e) refl
  done_in (ConnectionState.server_closing close) io e sealed =
      rw (is_connection_done, e, sealed refl, double_negation (is_empty io.inner.outbuf.buf)) refl
  done_in ConnectionState.client_exception io e sealed =
      rw (is_connection_done, e, sealed refl, double_negation (is_empty io.inner.outbuf.buf)) refl

  -- Behind any frames that a connection handled which was not about to close, the question whether
  -- it is done has an answer, and its assertion that the writes are sealed never panics: it is not
  -- done while it is steady, it is done once the server has answered the close of the client, and
  -- with a last frame of ours it is done when all that was queued is written.
  pub is_connection_done-total :
      (frames : List (AmqpFrame A)) (io : Io A I)
      → said_last A I C env io.state ≡ false
      → let io' = (process_all A I C env frames io).1 in
        is_connection_done A I io' ≡ ok (done io'.state io'.inner.outbuf.buf)
  is_connection_done-total frames io steady =
      let io' = (process_all A I C env frames io).1 in
      let a = process_all-Advances A I C env frames io in
      done_in io'.state io' refl
        (λ last. elim (a.closes last) [ inl before ↦ absurd (ground arith) | inr sealed ↦ sealed ])
