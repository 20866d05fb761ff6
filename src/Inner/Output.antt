-- ===== src/Inner/Output.antt =====
-- What a push through `Inner` does to the state of the I/O thread.
use amiquip.Prelude.{ℕ, ◌≡◌, ap}
use amiquip.Errors.{ok}
use amiquip.IndexSet.{IndexSet}
use amiquip.Protocol.{Amqp, AmqpClass}
use amiquip.Serialize.{Codec}
use amiquip.Serialize.Append.{pushed, sealable_push_method-pushed}
use amiquip.Inner.{Io, push_method, pushed_or, with_inner}

module _ (A : Amqp) (I : IndexSet) (C : Codec A) where
  abbrev pub after_push : Io A I → ℕ → AmqpClass A → Io A I
  after_push io n class =
      with_inner A I io
        (record io.inner { outbuf = pushed A C io.inner.outbuf (C.method_bytes n class) })

  pub push_method-after_push :
      (io : Io A I) (n : ℕ) (class : AmqpClass A)
      → push_method A I C n class io ≡ (ok tt, after_push io n class)
  unfolding push_method pushed_or
  push_method-after_push io n class =
      ap (pushed_or A I C io) (sealable_push_method-pushed A C io.inner.outbuf n class)
