-- ===== src/AmqpUrl/Tests.antt =====
-- URLs with two addresses, of which the first one refuses.
use amiquip.Prelude.{
  ℕ, ◌≡◌, refl, String, true, false, List, [], ◌∷◌, ◌++◌, none, some, ◌==◌, if◌then◌else◌, arith,
}
use amiquip.Errors.{Result, ok, err, failed_to_connect, url_unsupported_parameter}
use text.Mathlib.TextEquality.{eq_iff}
use amiquip.Auth.{default_auth}
use amiquip.ConnectionOptions.{u16_max}
use amiquip.ConnectionOptions.Builder
use amiquip.AmqpUrl.{
  UrlCrate, Options, Connect, parse_unsigned, parameters, open_amqp, open_amqps, open_,
}
use amiquip.AmqpUrl.Parameters.{
  heartbeat, auth_mechanism, unknown, IsBad, AreParameters, nothing, also, with_last,
  parameters-last, parameters-first_bad,
}
use amiquip.AmqpUrl.Addresses.{Tries, opens, failed, all_failed, open_addrs-first, open_-secure}

abbrev plain_url : UrlCrate
plain_url = record {
  Url = String;
  parse = λ s. some s;
  has_host = λ u. true;
  host_str = λ u. some u;
  set_host = λ u h. some h;
  scheme = λ u. "amqp";
  port = λ u. none;
  set_port = λ u n. some u;
  path_segments = λ u. none;
  username = λ u. "";
  password = λ u. none;
  query_pairs = λ u. [];
  percent_decode = λ s. s;
  to_socket_addrs = λ u. some (1 ∷ 2 ∷ []);
  domain = λ u. some u;
}

unfoldable options : Options
unfolding Builder.default
options = Builder.default default_auth

abbrev connect : ℕ → Options → Result ℕ
connect addr o = if addr == 2 then ok 7 else err failed_to_connect

parsed : parse_unsigned u16_max "+65535" ≡ some 65535
unfolding parse_unsigned
parsed = refl

too_large : parse_unsigned u16_max "65536" ≡ none
unfolding parse_unsigned
too_large = refl

abbrev pairs : List (String × String)
pairs = ("heartbeat", "13") ∷ ("auth_mechanism", "external") ∷ ("heartbeat", "30") ∷ []

pairs-AreParameters : AreParameters pairs
unfolding parse_unsigned
pairs-AreParameters =
    also _ _ _ (heartbeat "13" 13 refl)
      (also _ _ _ auth_mechanism (also _ _ _ (heartbeat "30" 30 refl) nothing))

parameters-last_example : parameters pairs options ≡ ok (with_last pairs options)
parameters-last_example = parameters-last pairs options pairs-AreParameters

frame_max-IsBad : IsBad "frame_max" "1" (url_unsupported_parameter "frame_max")
frame_max-IsBad =
    unknown "frame_max" "1" (ground (arith, eq_iff "frame_max" "heartbeat"))
      (ground (arith, eq_iff "frame_max" "channel_max"))
      (ground (arith, eq_iff "frame_max" "connection_timeout"))
      (ground (arith, eq_iff "frame_max" "auth_mechanism"))

parameters-first_bad_example :
    parameters (pairs ++ ("frame_max", "1") ∷ []) options
    ≡ err (url_unsupported_parameter "frame_max")
parameters-first_bad_example =
    parameters-first_bad pairs [] "frame_max" "1" (url_unsupported_parameter "frame_max") options
      pairs-AreParameters frame_max-IsBad

-- No server speaks TLS.
abbrev connect_tls : String → Connect plain_url ℕ
connect_tls domain addr o = err failed_to_connect

plain_Tries : Tries plain_url options connect (1 ∷ 2 ∷ []) none (ok 7)
plain_Tries =
    failed 1 (2 ∷ []) failed_to_connect none (ok 7) refl
      (opens 2 [] (some failed_to_connect) 7 refl)

tls_Tries :
    (domain : String)
    → Tries plain_url options (connect_tls domain) (1 ∷ 2 ∷ []) none (err failed_to_connect)
tls_Tries domain = failed 1 (2 ∷ []) failed_to_connect none _ refl (
    failed 2 [] failed_to_connect (some failed_to_connect) _ refl
      (all_failed (some failed_to_connect)))

open_addrs-first_example :
    (open_amqp plain_url connect "host" options ≡ ok 7)
    × (open_amqps plain_url (some tt) connect_tls "host" options ≡ err failed_to_connect)
open_addrs-first_example =
    open_addrs-first plain_url options (some tt) connect connect_tls "host" (1 ∷ 2 ∷ []) (ok 7)
      (λ domain. err failed_to_connect) refl plain_Tries tls_Tries

open_-secure_example :
    open_ plain_url (some tt) connect_tls connect "amqp://host" false
    ≡ open_ plain_url (some tt) connect_tls (λ addr o. ok 9) "amqp://host" false
open_-secure_example =
    open_-secure plain_url (some tt) connect_tls connect (λ addr o. ok 9) "amqp://host"
