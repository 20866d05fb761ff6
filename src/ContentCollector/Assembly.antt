-- ===== src/ContentCollector/Assembly.antt =====
-- A method, a header and body frames give the message whose body is their concatenation.
use amiquip.Prelude.{
  ℕ, ◌<◌, ◌≡◌, ap, ◌∙◌, List, [], ◌∷◌, ◌++◌, append-nil, append_assoc, Option, none, some, ltb,
  ◌==◌, if◌then◌else◌, length, length-append, arith,
}
use amiquip.Errors.{Result, ok, err, panicked, out_of_fuel, frame_unexpected}
use amiquip.Protocol.{Amqp, Deliver, AmqpReturn, GetOk, ContentHeader}
use amiquip.Content.{new_delivery, new_return, new_get}
use amiquip.ContentCollector.{
  capacity_limit, start, body, Kind, CollectorResult, ContentCollector, begin, collect_header,
  collect_body,
}

module _ (A : Amqp) where
  open A use {Properties}

  -- The method that starts a message.
  pub data Opening : Type 0 where
    deliver : Deliver → Opening
    return_ : AmqpReturn → Opening
    get_ok : GetOk → Opening

  abbrev pub started : Opening → Kind A
  started (deliver d) = Kind.delivery (start d)
  started (return_ r) = Kind.return_ (start r)
  started (get_ok g) = Kind.get (start g)

  -- The header has come, and `buf` of the body.
  abbrev pub partial : Opening → ContentHeader A → List ℕ → Kind A
  partial (deliver d) h buf = Kind.delivery (body d h buf)
  partial (return_ r) h buf = Kind.return_ (body r h buf)
  partial (get_ok g) h buf = Kind.get (body g h buf)

  -- The message of a method, a body and properties.
  abbrev pub message : ℕ → Opening → List ℕ → Properties → CollectorResult A
  message channel_id (deliver d) buf p =
      CollectorResult.delivery (new_delivery A channel_id d buf p)
  message channel_id (return_ r) buf p = CollectorResult.return_ (new_return A channel_id r buf p)
  message channel_id (get_ok g) buf p = CollectorResult.get (new_get A channel_id g buf p)

  abbrev pub Step : Type 0
  Step = Result (Option (CollectorResult A)) × ContentCollector A

  abbrev pub idle : ContentCollector A → ContentCollector A
  idle c = record c { kind = none }

  -- What the collector does with a further piece, as far as the sizes say.
  abbrev pub by_size : ContentCollector A → Opening → ContentHeader A → List ℕ → Step
  by_size c o h buf =
      if length buf == h.body_size
      then (ok (some (message c.channel_id o buf h.properties)), idle c)
      else if ltb (length buf) h.body_size
      then (ok none, record c { kind = some (partial o h buf) })
      else (err frame_unexpected, idle c)

  collect_body-partial :
      (c : ContentCollector A) (o : Opening) (h : ContentHeader A) (buf piece : List ℕ)
      → collect_body A (record c { kind = some (partial o h buf) }) piece
        ≡ by_size c o h (buf ++ piece)
  unfolding collect_body
  collect_body-partial c (deliver d) h buf piece = ground arith
  collect_body-partial c (return_ r) h buf piece = ground arith
  collect_body-partial c (get_ok g) h buf piece = ground arith

  -- The next call, if the one before asked for more.
  abbrev pub continue : Step → (ContentCollector A → Step) → Step
  continue (ok none, c) k = k c
  continue (ok (some m), c) k = (ok (some m), c)
  continue (err e, c) k = (err e, c)
  continue (panicked, c) k = (panicked, c)
  continue (out_of_fuel, c) k = (out_of_fuel, c)

  -- Body frames up to the first answer that is not "need more".
  unfoldable pub feed : ContentCollector A → List (List ℕ) → Step
  feed c [] = (ok none, c)
  feed c (piece ∷ pieces) = continue (collect_body A c piece) (λ c'. feed c' pieces)

  abbrev pub begun : Result (Unit {0}) × ContentCollector A → Step
  begun (ok _, c) = (ok none, c)
  begun (err e, c) = (err e, c)
  begun (panicked, c) = (panicked, c)
  begun (out_of_fuel, c) = (out_of_fuel, c)

  -- A whole message: the method, the header and the body frames.
  unfoldable pub receive : ContentCollector A → Opening → ContentHeader A → List (List ℕ) → Step
  receive c o h pieces =
      continue (begun (begin A c (started o)))
        λ c1. continue (collect_header A c1 h) (λ c2. feed c2 pieces)

  abbrev pub concat : List (List ℕ) → List ℕ
  concat [] = []
  concat (p ∷ ps) = p ++ concat ps

  by_size_short :
      (c : ContentCollector A) (o : Opening) (h : ContentHeader A) (buf : List ℕ)
      → length buf < h.body_size
      → by_size c o h buf ≡ (ok none, record c { kind = some (partial o h buf) })
  by_size_short c o h buf short = ground arith

  shorter : (buf p q : List ℕ) (n : ℕ) → length (buf ++ p ++ q) < n → length (buf ++ p) < n
  shorter buf p q n h = omega (arith, length-append (buf ++ p) q)

  feed-partial :
      (c : ContentCollector A) (o : Opening) (h : ContentHeader A) (pieces : List (List ℕ))
      (buf piece : List ℕ)
      → length (buf ++ concat pieces) < h.body_size
      → feed (record c { kind = some (partial o h buf) }) (pieces ++ piece ∷ [])
        ≡ by_size c o h ((buf ++ concat pieces) ++ piece)
  unfolding feed
  feed-partial c o h [] buf piece short =
      rw (collect_body-partial c o h buf piece, append-nil buf) (ground arith)
  feed-partial c o h (p ∷ pieces) buf piece short =
      let next = feed-partial c o h pieces (buf ++ p) piece (rw append_assoc short) in
      let same : (buf ++ p) ++ concat pieces ≡ buf ++ (p ++ concat pieces) =
        append_assoc buf p (concat pieces) in
      let short' : length (buf ++ p) < h.body_size =
        shorter buf p (concat pieces) h.body_size (rw same short) in
      rw (collect_body-partial c o h buf p, by_size_short c o h (buf ++ p) short')
        (next ∙ ap (λ l. by_size c o h (l ++ piece)) same)

  begin-started :
      (c : ContentCollector A) (o : Opening)
      → c.kind ≡ none
      → begin A c (started o) ≡ (ok tt, record c { kind = some (started o) })
  unfolding begin
  begin-started c o e = ground arith

  collect_header-started :
      (c : ContentCollector A) (o : Opening) (h : ContentHeader A)
      → 0 < h.body_size
      → h.body_size < capacity_limit
      → collect_header A (record c { kind = some (started o) }) h
        ≡ (ok none, record c { kind = some (partial o h []) })
  unfolding collect_header
  collect_header-started c (deliver d) h some_body fits = ground arith
  collect_header-started c (return_ r) h some_body fits = ground arith
  collect_header-started c (get_ok g) h some_body fits = ground arith

  -- An idle collector is given a method, a header for a body that is not empty and of fewer than
  -- 2 ^ 63 bytes, the most that `Vec` may hold, and body frames, of which all but the last are too short together. If the last fills
  -- the body exactly, it hands out the message of that method with the frames' concatenation for
  -- its body, and is idle again; if the body is still too short it asks for more; and if it is
  -- too long it fails with `FrameUnexpected`, and is idle.
  pub receive-by_size :
      (c : ContentCollector A) (o : Opening) (h : ContentHeader A) (pieces : List (List ℕ))
      (piece : List ℕ)
      → c.kind ≡ none
      → 0 < h.body_size
      → h.body_size < capacity_limit
      → length (concat pieces) < h.body_size
      → receive c o h (pieces ++ piece ∷ []) ≡ by_size c o h (concat pieces ++ piece)
  unfolding receive
  receive-by_size c o h pieces piece ready some_body fits short =
      rw (begin-started c o ready, collect_header-started c o h some_body fits)
        (feed-partial c o h pieces [] piece short)
