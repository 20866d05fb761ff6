-- ===== src/AmqpUrl/Parameters.antt =====
-- The parameters of a query, against the last value of each, and the first one that is bad.
use amiquip.Prelude.{
  ℕ, ◌≡◌, ◌≢◌, refl, ◌∙◌, String, List, [], ◌∷◌, ◌++◌, Option, none, some, ite, if_neg,
  string_discrete,
}
use amiquip.Errors.{
  Error, ok, err, url_parse_heartbeat, url_parse_channel_max, url_parse_connection_timeout,
  url_invalid_auth_mechanism, url_unsupported_parameter,
}
use amiquip.Auth.{Auth, external}
use amiquip.ConnectionOptions.{u16_max}
use amiquip.ConnectionOptions.Builder
use amiquip.AmqpUrl.{Options, parse_unsigned, u64_max, parameter, parameters}

pub data IsParameter : String → String → Type 0 where
  heartbeat : (v : String) (n : ℕ) → parse_unsigned u16_max v ≡ some n → IsParameter "heartbeat" v
  channel_max :
      (v : String) (n : ℕ) → parse_unsigned u16_max v ≡ some n → IsParameter "channel_max" v
  connection_timeout :
      (v : String) (n : ℕ) → parse_unsigned u64_max v ≡ some n → IsParameter "connection_timeout" v
  auth_mechanism : IsParameter "auth_mechanism" "external"

pub data AreParameters : List (String × String) → Type 0 where
  nothing : AreParameters []
  also :
      (k v : String) (pairs : List (String × String))
      → IsParameter k v
      → AreParameters pairs
      → AreParameters ((k, v) ∷ pairs)

-- What a parameter is refused with.
pub data IsBad : String → String → Error → Type 0 where
  heartbeat :
      (v : String) → parse_unsigned u16_max v ≡ none → IsBad "heartbeat" v url_parse_heartbeat
  channel_max :
      (v : String) → parse_unsigned u16_max v ≡ none → IsBad "channel_max" v url_parse_channel_max
  connection_timeout :
      (v : String)
      → parse_unsigned u64_max v ≡ none
      → IsBad "connection_timeout" v url_parse_connection_timeout
  auth_mechanism :
      (v : String) → v ≢ "external" → IsBad "auth_mechanism" v (url_invalid_auth_mechanism v)
  unknown :
      (k v : String)
      → k ≢ "heartbeat"
      → k ≢ "channel_max"
      → k ≢ "connection_timeout"
      → k ≢ "auth_mechanism"
      → IsBad k v (url_unsupported_parameter k)

-- The number that a parameter has last, or the one before.
unfoldable pub last_number : ℕ → String → Option ℕ → List (String × String) → Option ℕ
last_number max_value key before [] = before
last_number max_value key before ((k, v) ∷ pairs) =
    last_number max_value key (ite (string_discrete k key) (parse_unsigned max_value v) before)
      pairs

unfoldable pub last_auth : Auth → List (String × String) → Auth
last_auth before [] = before
last_auth before ((k, v) ∷ pairs) =
    last_auth (ite (string_discrete k "auth_mechanism") external before) pairs

abbrev or_zero : Option ℕ → ℕ
or_zero none = 0
or_zero (some n) = n

-- The options with the last value of each parameter.
abbrev pub with_last : List (String × String) → Options → Options
with_last pairs options = record options {
  heartbeat = or_zero (last_number u16_max "heartbeat" (some options.heartbeat) pairs);
  channel_max = or_zero (last_number u16_max "channel_max" (some options.channel_max) pairs);
  connection_timeout = last_number u64_max "connection_timeout" options.connection_timeout pairs;
  auth = last_auth options.auth pairs;
}

module _ (v : String) (options : Options) where
  parameter-heartbeat :
      (n : ℕ)
      → parse_unsigned u16_max v ≡ some n
      → parameter "heartbeat" v options ≡ ok (Builder.heartbeat n options)
  unfolding parameter string_discrete
  parameter-heartbeat n e = rw e refl

  parameter-channel_max :
      (n : ℕ)
      → parse_unsigned u16_max v ≡ some n
      → parameter "channel_max" v options ≡ ok (Builder.channel_max n options)
  unfolding parameter string_discrete
  parameter-channel_max n e = rw e refl

  parameter-connection_timeout :
      (n : ℕ)
      → parse_unsigned u64_max v ≡ some n
      → parameter "connection_timeout" v options ≡ ok (Builder.connection_timeout (some n) options)
  unfolding parameter string_discrete
  parameter-connection_timeout n e = rw e refl

  parameter-bad : (k : String) (e : Error) → IsBad k v e → parameter k v options ≡ err e
  unfolding parameter string_discrete
  parameter-bad _ _ (heartbeat _ h) = rw h refl
  parameter-bad _ _ (channel_max _ h) = rw h refl
  parameter-bad _ _ (connection_timeout _ h) = rw h refl
  parameter-bad _ _ (auth_mechanism _ h) = if_neg (string_discrete v "external") h _ _
  parameter-bad k _ (unknown _ _ a b c d) =
      if_neg (string_discrete k "heartbeat") a _ _
      ∙ if_neg (string_discrete k "channel_max") b _ _
      ∙ if_neg (string_discrete k "connection_timeout") c _ _
      ∙ if_neg (string_discrete k "auth_mechanism") d _ _

-- A query of known parameters with valid values is accepted, and every option is then what its
-- last parameter says: the heartbeat, the channel limit, the timeout in milliseconds, and the
-- external mechanism if it is asked for. The other options stay as they were.
pub parameters-last :
    (pairs : List (String × String)) (options : Options)
    → AreParameters pairs
    → parameters pairs options ≡ ok (with_last pairs options)
unfolding parameters last_number last_auth string_discrete parameter Builder.heartbeat
    Builder.channel_max Builder.connection_timeout Builder.auth
parameters-last _ options nothing = refl
parameters-last _ options (also _ v pairs (heartbeat _ n e) others) =
    rw (parameters, parameter-heartbeat v options n e)
      (parameters-last pairs (Builder.heartbeat n options) others ∙ rw e refl)
parameters-last _ options (also _ v pairs (channel_max _ n e) others) =
    rw (parameters, parameter-channel_max v options n e)
      (parameters-last pairs (Builder.channel_max n options) others ∙ rw e refl)
parameters-last _ options (also _ v pairs (connection_timeout _ n e) others) =
    rw (parameters, parameter-connection_timeout v options n e)
      (parameters-last pairs (Builder.connection_timeout (some n) options) others ∙ rw e refl)
parameters-last _ options (also _ _ pairs auth_mechanism others) =
    parameters-last pairs (Builder.auth external options) others

-- A query is refused with the error of its first bad parameter, whatever comes after: a number
-- that does not parse or is too large, another mechanism than `external`, or an unknown name.
pub parameters-first_bad :
    (pairs rest : List (String × String)) (k v : String) (e : Error) (options : Options)
    → AreParameters pairs
    → IsBad k v e
    → parameters (pairs ++ (k, v) ∷ rest) options ≡ err e
unfolding parameters string_discrete
parameters-first_bad _ rest k v e options nothing bad =
    rw (parameters, parameter-bad v options k e bad) refl
parameters-first_bad _ rest k v e options (also _ w pairs (heartbeat _ n g) others) bad =
    rw (parameters, parameter-heartbeat w options n g)
      (parameters-first_bad pairs rest k v e (Builder.heartbeat n options) others bad)
parameters-first_bad _ rest k v e options (also _ w pairs (channel_max _ n g) others) bad =
    rw (parameters, parameter-channel_max w options n g)
      (parameters-first_bad pairs rest k v e (Builder.channel_max n options) others bad)
parameters-first_bad _ rest k v e options (also _ w pairs (connection_timeout _ n g) others) bad =
    rw (parameters, parameter-connection_timeout w options n g)
      (parameters-first_bad pairs rest k v e (Builder.connection_timeout (some n) options) others
        bad)
parameters-first_bad _ rest k v e options (also _ _ pairs auth_mechanism others) bad =
    parameters-first_bad pairs rest k v e (Builder.auth external options) others bad
