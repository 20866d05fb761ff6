-- ===== src/ContentCollector.antt =====
-- io_loop/content_collector.rs: a content message is put together from its method, its header and
-- its body frames.
pub mod Assembly
mod Tests
use amiquip.Prelude.{
  ℕ, ◌^◌, String, List, [], ◌++◌, Option, none, some, Bool, ltb, leb, ◌==◌, if◌then◌else◌, length,
}
use amiquip.Errors.{Result, Error, ok, err, panicked, out_of_fuel, frame_unexpected}
use amiquip.Protocol.{Amqp, Deliver, AmqpReturn, GetOk, ContentHeader}
use amiquip.Content.{Delivery, Return, Get, new_delivery, new_return, new_get}

-- `Vec::with_capacity` panics beyond `isize::MAX` bytes.
abbrev pub capacity_limit : ℕ
capacity_limit = 2 ^ 63

module _ (A : Amqp) where
  open A use {Properties}

  -- `State` and `Content`, over the method that starts the message and the message.
  pub data State (S : Type 0) : Type 0 where
    start : S → State S
    body : S → ContentHeader A → List ℕ → State S

  pub data Content (S F : Type 0) : Type 0 where
    done : F → Content S F
    need_more : State S → Content S F

  module _ {S F : Type 0} (new : ℕ → S → List ℕ → Properties → F) (channel_id : ℕ) where
    unfoldable pub state_collect_header : State S → ContentHeader A → Result (Content S F)
    state_collect_header (start s) header =
        if header.body_size == 0
        then ok (done (new channel_id s [] header.properties))
        else if leb capacity_limit header.body_size
        then panicked
        else ok (need_more (body s header []))
    state_collect_header (body _ _ _) header = err frame_unexpected

    unfoldable pub state_collect_body : State S → List ℕ → Result (Content S F)
    state_collect_body (start _) piece = err frame_unexpected
    state_collect_body (body s header buf) piece =
        let buf' = buf ++ piece in
        if length buf' == header.body_size
        then ok (done (new channel_id s buf' header.properties))
        else if ltb (length buf') header.body_size
        then ok (need_more (body s header buf'))
        else err frame_unexpected

  pub data Kind : Type 0 where
    delivery : State Deliver → Kind
    return_ : State AmqpReturn → Kind
    get : State GetOk → Kind

  pub data CollectorResult : Type 0 where
    delivery : String × Delivery A → CollectorResult
    return_ : Return A → CollectorResult
    get : Get A → CollectorResult

  pub record ContentCollector : Type 0 where
    pub channel_id : ℕ
    pub kind : Option Kind

  unfoldable pub new : ℕ → ContentCollector
  new channel_id = record { channel_id = channel_id; kind = none }

  -- `collect_deliver`, `collect_return` and `collect_get`: the kind is taken, also on an error.
  unfoldable pub begin : ContentCollector → Kind → Result (Unit {0}) × ContentCollector
  begin c kind = elim c.kind [
    | none ↦ (ok tt, record c { kind = some kind })
    | some _ ↦ (err frame_unexpected, record c { kind = none })
  ]

  abbrev pub collect_deliver : ContentCollector → Deliver → Result (Unit {0}) × ContentCollector
  collect_deliver c deliver = begin c (Kind.delivery (start deliver))

  abbrev pub collect_return : ContentCollector → AmqpReturn → Result (Unit {0}) × ContentCollector
  collect_return c ret = begin c (Kind.return_ (start ret))

  abbrev pub collect_get : ContentCollector → GetOk → Result (Unit {0}) × ContentCollector
  collect_get c get_ok = begin c (Kind.get (start get_ok))

  -- What `collect_header` and `collect_body` do with the outcome of the state.
  unfoldable pub settle :
      {S F : Type 0}
      → (State S → Kind)
      → (F → CollectorResult)
      → ContentCollector
      → Result (Content S F)
      → Result (Option CollectorResult) × ContentCollector
  settle keep finish c (ok (done f)) = (ok (some (finish f)), record c { kind = none })
  settle keep finish c (ok (need_more s)) = (ok none, record c { kind = some (keep s) })
  settle keep finish c (err e) = (err e, record c { kind = none })
  settle keep finish c panicked = (panicked, record c { kind = none })
  settle keep finish c out_of_fuel = (out_of_fuel, record c { kind = none })

  unfoldable pub collect_header :
      ContentCollector → ContentHeader A → Result (Option CollectorResult) × ContentCollector
  unfolding state_collect_header settle
  collect_header c header = elim c.kind [
    | some (Kind.delivery s) ↦
        settle Kind.delivery CollectorResult.delivery c
          (state_collect_header (new_delivery A) c.channel_id s header)
    | some (Kind.return_ s) ↦
        settle Kind.return_ CollectorResult.return_ c
          (state_collect_header (new_return A) c.channel_id s header)
    | some (Kind.get s) ↦
        settle Kind.get CollectorResult.get c
          (state_collect_header (new_get A) c.channel_id s header)
    | none ↦ (err frame_unexpected, c)
  ]

  unfoldable pub collect_body :
      ContentCollector → List ℕ → Result (Option CollectorResult) × ContentCollector
  unfolding state_collect_body settle
  collect_body c piece = elim c.kind [
    | some (Kind.delivery s) ↦
        settle Kind.delivery CollectorResult.delivery c
          (state_collect_body (new_delivery A) c.channel_id s piece)
    | some (Kind.return_ s) ↦
        settle Kind.return_ CollectorResult.return_ c
          (state_collect_body (new_return A) c.channel_id s piece)
    | some (Kind.get s) ↦
        settle Kind.get CollectorResult.get c (state_collect_body (new_get A) c.channel_id s piece)
    | none ↦ (err frame_unexpected, c)
  ]
