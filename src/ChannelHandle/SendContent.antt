-- ===== src/ChannelHandle/SendContent.antt =====
-- The frames that content is sent in.
use amiquip.Prelude.{
  ℕ, zero, suc, ◌≤◌, ◌<◌, ◌≡◌, refl, sym, ap, ◌∙◌, true, List, [], ◌∷◌, ◌++◌, map, append-nil,
  append_assoc, length, take, drop, take-append-drop, length-take, length-drop, ltb, Bool-cases,
  inl, inr, arith,
}
use mathlib.Core.Path.{subst}
use amiquip.Errors.{Result, ok}
use amiquip.Exec.{then_call, ◌>>◌}
use amiquip.Protocol.{Amqp}
use amiquip.Serialize.{Codec}
use amiquip.Serialize.Append.{push_content_body-append, push_content_header-append}
use amiquip.ChannelHandle.{
  IoLoopMessage, IoLoopHandle, Peer, send_message, drained, send_content_body, send_content_header,
  send_pieces, send_content, last_piece,
}

-- The pieces of content: none of them is empty, and all but the last are as long as a frame can be.
pub data IsCut (frame_max : ℕ) : List ℕ → List (List ℕ) → Type 0 where
  nothing : IsCut frame_max [] []
  last :
      (piece : List ℕ)
      → 1 ≤ length piece
      → length piece ≤ frame_max
      → IsCut frame_max piece (piece ∷ [])
  full :
      (piece rest content : List ℕ) (pieces : List (List ℕ))
      → length piece ≡ frame_max
      → 1 ≤ length rest
      → content ≡ piece ++ rest
      → IsCut frame_max rest pieces
      → IsCut frame_max content (piece ∷ pieces)

module _ (A : Amqp) (C : Codec A) (peer : Peer A)
    (all : (log : List IoLoopMessage) → peer.takes log ≡ true) where
  -- A handle between two calls.
  abbrev pub idle : ℕ → List IoLoopMessage → ℕ → IoLoopHandle
  idle n log k = record { channel_id = n; buf = []; sent = log; received = k }

  send_message-taken :
      (message : IoLoopMessage) (h : IoLoopHandle)
      → send_message A C peer message h ≡ (ok tt, record h { sent = h.sent ++ message ∷ [] })
  unfolding send_message
  send_message-taken message h = rw (all h.sent) refl

  abbrev pub body_message : ℕ → List ℕ → IoLoopMessage
  body_message n piece = IoLoopMessage.send (C.body_bytes n piece)

  send_content_body-idle :
      (piece : List ℕ) (n : ℕ) (log : List IoLoopMessage) (k : ℕ)
      → send_content_body A C peer piece (idle n log k)
        ≡ (ok tt, idle n (log ++ body_message n piece ∷ []) k)
  unfolding send_content_body
  send_content_body-idle piece n log k =
      ap
        (λ r.
          then_call (drained A C peer r (idle n log k))
            (λ buf. send_message A C peer (IoLoopMessage.send buf)))
        (push_content_body-append A C [] n piece)
      ∙ send_message-taken _ _

  pub record Sends (n : ℕ) (log : List IoLoopMessage) (k frame_max : ℕ) (content : List ℕ)
      (r : Result (Unit {0}) × IoLoopHandle) : Type 0 where
    pub pieces : List (List ℕ)
    pub cut : IsCut frame_max content pieces
    pub outcome : r ≡ (ok tt, idle n (log ++ map (body_message n) pieces) k)

  send_last :
      (content : List ℕ) (n : ℕ) (log : List IoLoopMessage) (k frame_max : ℕ)
      → length content ≤ frame_max
      → Sends n log k frame_max content (last_piece A C peer content (idle n log k))
  unfolding last_piece
  send_last [] n log k frame_max h = record {
    pieces = [];
    cut = nothing;
    outcome = ap (λ l. (ok tt, idle n l k)) (sym (append-nil log));
  }
  send_last (b ∷ content) n log k frame_max h = record {
    pieces = (b ∷ content) ∷ [];
    cut = last (b ∷ content) (omega arith) h;
    outcome = send_content_body-idle (b ∷ content) n log k;
  }

  -- One full piece in front of the others.
  send_full :
      (piece rest content : List ℕ) (n : ℕ) (log : List IoLoopMessage) (k frame_max : ℕ)
      (others : IoLoopHandle → Result (Unit {0}) × IoLoopHandle)
      → length piece ≡ frame_max
      → 1 ≤ length rest
      → content ≡ piece ++ rest
      → Sends n
          (log ++ body_message n piece ∷ [])
          k
          frame_max
          rest
          (others (idle n (log ++ body_message n piece ∷ []) k))
      → Sends n log k frame_max content
          ((send_content_body A C peer piece >> others) (idle n log k))
  send_full piece rest content n log k frame_max others size more whole s = record {
    pieces = piece ∷ s.pieces;
    cut = full piece rest content s.pieces size more whole s.cut;
    outcome =
        ap (λ r. then_call r (λ _. others)) (send_content_body-idle piece n log k)
        ∙ s.outcome
        ∙ ap (λ l. (ok tt, idle n l k))
            (append_assoc log (body_message n piece ∷ []) (map (body_message n) s.pieces));
  }

  send_pieces-Sends :
      (fuel frame_max : ℕ) (content : List ℕ) (n : ℕ) (log : List IoLoopMessage) (k : ℕ)
      → 1 ≤ frame_max
      → length content < fuel
      → Sends n log k frame_max content (send_pieces A C peer fuel frame_max content (idle n log k))
  unfolding send_pieces
  send_pieces-Sends zero frame_max content n log k f h = absurd (omega arith)
  send_pieces-Sends (suc fuel) frame_max content n log k f h =
      elim (Bool-cases (ltb frame_max (length content))) [
        | inl long ↦ rw long (
            send_full (take frame_max content) (drop frame_max content) content n log k frame_max
              (send_pieces A C peer fuel frame_max (drop frame_max content))
              (length-take frame_max content ∙ ground arith)
              (ground (arith, length-drop frame_max content))
              (sym (take-append-drop frame_max content))
              (send_pieces-Sends fuel frame_max (drop frame_max content) n _ k f
                (ground (arith, length-drop frame_max content))))
        | inr short ↦ rw short (send_last content n log k frame_max (ground arith))
      ]

  abbrev pub header_message : ℕ → ℕ → ℕ → A.Properties → IoLoopMessage
  header_message n class_id len properties =
      IoLoopMessage.send (C.header_bytes n class_id len properties)

  send_content_header-idle :
      (class_id len : ℕ) (properties : A.Properties) (n : ℕ) (log : List IoLoopMessage) (k : ℕ)
      → send_content_header A C peer class_id len properties (idle n log k)
        ≡ (ok tt, idle n (log ++ header_message n class_id len properties ∷ []) k)
  unfolding send_content_header
  send_content_header-idle class_id len properties n log k =
      ap
        (λ r.
          then_call (drained A C peer r (idle n log k))
            (λ buf. send_message A C peer (IoLoopMessage.send buf)))
        (push_content_header-append A C [] n class_id len properties)
      ∙ send_message-taken _ _

  -- While the I/O thread takes every message, and a frame has room for content, content is sent
  -- whole: `send_content` returns, and behind the header with the length of the content come body
  -- frames whose pieces, none of them empty and all but the last of the full size, make up the
  -- content in its order. The fuel is to exceed the length of the content.
  pub send_content-Sends :
      (fuel frame_max : ℕ) (content : List ℕ) (class_id : ℕ) (properties : A.Properties) (n : ℕ)
      (log : List IoLoopMessage) (k : ℕ)
      → 1 ≤ frame_max
      → length content < fuel
      → Sends n
          (log ++ header_message n class_id (length content) properties ∷ [])
          k
          frame_max
          content
          (send_content A C peer fuel frame_max content class_id properties (idle n log k))
  unfolding send_content
  send_content-Sends fuel frame_max content class_id properties n log k f h =
      subst
        (λ r.
          Sends n (log ++ header_message n class_id (length content) properties ∷ []) k frame_max
            content (then_call r (λ _. send_pieces A C peer fuel frame_max content)))
        (sym (send_content_header-idle class_id (length content) properties n log k))
        (send_pieces-Sends fuel frame_max content n _ k f h)
