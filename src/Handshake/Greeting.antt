-- ===== src/Handshake/Greeting.antt =====
-- What was written at each stage of the handshake.
use amiquip.Prelude.{ℕ, false, ◌≡◌, List, ◌++◌}
use amiquip.Errors.{ok}
use amiquip.Protocol.{Amqp, AmqpClass, ConnectionMethod, Tune, Start, StartOk}
use amiquip.Serialize.{Codec, SealableOutputBuffer, seal}
use amiquip.ConnectionOptions.{
  Sasl, ConnectionOptions, ClientInfo, make_start_ok, make_tune_ok, make_open,
}
use amiquip.Handshake.{HandshakeState, Handshake}

module _ (A : Amqp) (S : Sasl) (C : Codec A) (info : ClientInfo A) where
  abbrev pub bytes_of : ConnectionMethod A → List ℕ
  bytes_of m = C.method_bytes 0 (AmqpClass.connection m)

  abbrev pub unsealed : List ℕ → SealableOutputBuffer
  unsealed b = record { buf = b; sealed = false }

  module _ (o : ConnectionOptions S) (base : List ℕ) where
    -- The answer to some `Start` was written.
    pub record Hello (b : List ℕ) (table : A.FieldTable) : Type 0 where
      pub hello : Start A
      pub start_ok : StartOk A
      pub answered : make_start_ok A info o hello ≡ ok (start_ok, table)
      pub written : b ≡ base ++ bytes_of (ConnectionMethod.start_ok start_ok)

    -- Then the answer to some `Tune`, and `Open`.
    pub record Agreed (b : List ℕ) (tune_ok : Tune) (table : A.FieldTable) : Type 0 where
      pub before : List ℕ
      pub greeted : Hello before table
      pub offer : Tune
      pub answered : make_tune_ok o offer ≡ ok tune_ok
      pub written :
          b
          ≡ (before ++ bytes_of (ConnectionMethod.tune_ok tune_ok))
            ++ bytes_of (ConnectionMethod.open_ (make_open A info o))

    unfoldable pub Stage : HandshakeState A S → SealableOutputBuffer → Type 0
    Stage (HandshakeState.start o') out = (o' ≡ o) × (out ≡ unsealed base)
    Stage (HandshakeState.secure o' table) out =
        (o' ≡ o) × ((b : List ℕ) × Hello b table × (out ≡ unsealed b))
    Stage (HandshakeState.tune o' table) out =
        (o' ≡ o) × ((b : List ℕ) × Hello b table × (out ≡ unsealed b))
    Stage (HandshakeState.open_ tune_ok table) out =
        (b : List ℕ) × Agreed b tune_ok table × (out ≡ unsealed b)
    Stage (HandshakeState.done tune_ok table) out =
        (b : List ℕ) × Agreed b tune_ok table × (out ≡ unsealed b)
    Stage (HandshakeState.server_closing close) out =
        (b : List ℕ) × (tune_ok : Tune) × (table : A.FieldTable) × Agreed b tune_ok table
        × (out ≡ seal (unsealed (b ++ bytes_of ConnectionMethod.close_ok)))

    unfoldable pub IsGreeted : Handshake A S → Type 0
    IsGreeted h = Stage h.state h.outbuf
