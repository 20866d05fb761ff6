-- ===== src/IoLoop/Publishing.antt =====
-- A message on its way from `basic_publish` to the bytes that wait for the socket.
use amiquip.Prelude.{
  ℕ, suc, ◌≤◌, ◌≡◌, refl, ap, ◌∙◌, true, false, String, List, [], ◌∷◌, ◌++◌, map, length, some,
}
use amiquip.Errors.{ok}
use amiquip.IndexSet.{IndexSet}
use amiquip.Protocol.{Amqp}
use amiquip.Serialize.{Codec, SealableOutputBuffer}
use amiquip.Inner.{ChannelSlot, Io}
use amiquip.Options.{Publish}
use amiquip.ChannelHandle.{IoLoopMessage, Peer}
use amiquip.ChannelHandle.SendContent.{IsCut, body_message}
use amiquip.Channel.{basic_class, basic_publish}
use amiquip.Channel.Calls.{waiting}
use amiquip.Channel.Publishing.{publish_method, message_frames, basic_publish-Publishes}
use amiquip.IoLoop.{handle_channel_readable, slot_of}
use amiquip.IoLoop.Messages.{bytes_of, closes, written, handle_channel_readable-Handles}

module _ (A : Amqp) (C : Codec A) (peer : Peer A)
    (all : (log : List IoLoopMessage) → peer.takes log ≡ true) (I : IndexSet) where
  -- The body frames of the pieces.
  unfoldable pub body_frames : ℕ → List (List ℕ) → List ℕ
  body_frames n [] = []
  body_frames n (piece ∷ pieces) = C.body_bytes n piece ++ body_frames n pieces

  bytes_of-bodies :
      (n : ℕ) (pieces : List (List ℕ))
      → bytes_of (map (body_message A C peer all n) pieces) ≡ body_frames n pieces
  unfolding bytes_of body_frames
  bytes_of-bodies n [] = refl
  bytes_of-bodies n (piece ∷ pieces) =
      ap (λ b. C.body_bytes n piece ++ b) (bytes_of-bodies n pieces)

  closes-bodies :
      (n : ℕ) (pieces : List (List ℕ)) → closes (map (body_message A C peer all n) pieces) ≡ false
  unfolding closes
  closes-bodies n [] = refl
  closes-bodies n (piece ∷ pieces) = closes-bodies n pieces

  -- The frames of a message: the method, the header and the body.
  unfoldable pub frames : ℕ → String → Publish A → List (List ℕ) → List ℕ
  frames n exchange publish pieces =
      C.method_bytes n (publish_method A C peer all exchange publish)
      ++ (C.header_bytes n basic_class (length publish.body) publish.properties
          ++ body_frames n pieces)

  written-frames :
      (s : SealableOutputBuffer) (n : ℕ) (exchange : String) (publish : Publish A)
      (pieces : List (List ℕ))
      → s.sealed ≡ false
      → written s (message_frames A C peer all n exchange publish pieces)
        ≡ record { buf = s.buf ++ frames n exchange publish pieces; sealed = false }
  unfolding written bytes_of closes frames
  written-frames s n exchange publish pieces open_ =
      rw (open_, bytes_of-bodies n pieces, closes-bodies n pieces) refl

  pub record Arrives (n : ℕ) (log : List IoLoopMessage) (answers frame_max : ℕ) (exchange : String)
      (publish : Publish A) (io : Io A I) : Type 0 where
    pub pieces : List (List ℕ)
    pub cut : IsCut frame_max publish.body pieces
    pub sent : List IoLoopMessage
    pub published :
        basic_publish A C peer exchange publish (waiting A C peer n log answers frame_max false)
        ≡ (ok tt, waiting A C peer n (log ++ sent) answers frame_max false)
    pub handled : (handle_channel_readable A I n sent false io).0 ≡ ok tt
    pub queued :
        ((handle_channel_readable A I n sent false io).1).inner.outbuf
        ≡ record { buf = io.inner.outbuf.buf ++ frames n exchange publish pieces; sealed = false }

  -- A message that is published on an open channel arrives: `basic_publish` returns, and once the
  -- I/O thread, whose writes are not sealed, has handled what that sent, it has queued for the
  -- socket, behind all it had, exactly the publish method, the content header with the length of
  -- the body, and body frames for the pieces of the body in its order. The thread takes every
  -- message, and a frame has room for content.
  pub basic_publish-Arrives :
      (k : ℕ) (log : List IoLoopMessage) (answers frame_max : ℕ) (exchange : String)
      (publish : Publish A) (slot : ChannelSlot A) (io : Io A I)
      → 1 ≤ frame_max
      → slot_of A I io (suc k) ≡ some slot
      → io.inner.outbuf.sealed ≡ false
      → Arrives (suc k) log answers frame_max exchange publish io
  basic_publish-Arrives k log answers frame_max exchange publish slot io room present open_ =
      let p =
        basic_publish-Publishes A C peer all (suc k) log answers frame_max exchange publish room in
      let sent = message_frames A C peer all (suc k) exchange publish p.pieces in
      let h = handle_channel_readable-Handles A I k sent false slot io present in
      record {
        pieces = p.pieces;
        cut = p.cut;
        sent = sent;
        published = p.outcome;
        handled = h.result;
        queued = h.outbuf ∙ written-frames io.inner.outbuf (suc k) exchange publish p.pieces open_;
      }
