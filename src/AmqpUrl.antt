-- ===== src/AmqpUrl.antt =====
-- `amqp_url` of connection.rs: a connection by its URL.
pub mod Parameters
pub mod Addresses
mod Tests
use Prim.Native.Char.{Char, code}
use Prim.Native.String.{[], ◌∷◌}
use amiquip.Prelude.{
  ℕ, zero, suc, ◌+◌, ◌-◌, ◌*◌, ◌^◌, String, Bool, true, false, not, List, Option, none, some, leb,
  ◌==◌, ◌&&◌, ◌||◌, if◌then◌else◌, ite, string_discrete,
}
use mathlib.Core.List
use amiquip.Errors.{
  Result, Error, ok, err, panicked, out_of_fuel, url_parse_error, specify_url_port,
  invalid_url_scheme, extra_url_path_segments, url_parse_heartbeat, url_parse_channel_max,
  url_parse_connection_timeout, url_invalid_auth_mechanism, url_unsupported_parameter, insecure_url,
  url_no_socket_addrs, create_tls_connector, url_missing_domain, resolve_url_to_socket_addr,
  failed_to_connect, ◌>>=◌, ◌>>◌,
}
use amiquip.Auth.{Auth, plain, external, default_auth, auth_sasl}
use amiquip.ConnectionOptions.{ConnectionOptions, u16_max}
use amiquip.ConnectionOptions.Builder

abbrev pub u64_max : ℕ
u64_max = 2 ^ 64 - 1

abbrev pub Options : Type 0
Options = ConnectionOptions auth_sasl

-- `str::parse` for an unsigned type, by its largest value: digits, maybe behind a `+`.
unfoldable pub parse_digits : ℕ → ℕ → String → Option ℕ
parse_digits max_value acc [] = some acc
parse_digits max_value acc (c ∷ s) =
    let next = acc * 10 + (code c - b'0') in
    let rest = parse_digits max_value next s in
    if leb b'0' (code c) && (leb (code c) b'9' && leb next max_value) then rest else none

unfoldable pub parse_some_digits : ℕ → String → Option ℕ
unfolding parse_digits
parse_some_digits max_value [] = none
parse_some_digits max_value (c ∷ s) = parse_digits max_value 0 (c ∷ s)

unfoldable pub parse_unsigned : ℕ → String → Option ℕ
unfolding parse_some_digits
parse_unsigned max_value [] = none
parse_unsigned max_value (c ∷ s) =
    if code c == b'+' then parse_some_digits max_value s else parse_some_digits max_value (c ∷ s)

abbrev pub or_error : {B : Type 0} → Error → Option B → Result B
or_error e none = err e
or_error e (some b) = ok b

abbrev pub unwrap_or : {B : Type 0} → B → Option B → B
unwrap_or b none = b
unwrap_or b (some b') = b'

-- One parameter of the query.
unfoldable pub parameter : String → String → Options → Result Options
unfolding parse_unsigned Builder.heartbeat Builder.channel_max Builder.connection_timeout
    Builder.auth
parameter k v options =
    ite (string_discrete k "heartbeat")
      (do
        n ← or_error url_parse_heartbeat (parse_unsigned u16_max v)
        ok (Builder.heartbeat n options))
      (ite (string_discrete k "channel_max")
        (do
          n ← or_error url_parse_channel_max (parse_unsigned u16_max v)
          ok (Builder.channel_max n options))
        (ite (string_discrete k "connection_timeout")
          (do
            n ← or_error url_parse_connection_timeout (parse_unsigned u64_max v)
            ok (Builder.connection_timeout (some n) options))
          (ite (string_discrete k "auth_mechanism")
            (ite (string_discrete v "external") (ok (Builder.auth external options))
              (err (url_invalid_auth_mechanism v)))
            (err (url_unsupported_parameter k)))))

-- The loop over `query_pairs`.
unfoldable pub parameters : List (String × String) → Options → Result Options
unfolding parameter
parameters List.[] options = ok options
parameters (List.◌∷◌ (k, v) pairs) options = do
  options' ← parameter k v options
  parameters pairs options'

-- The crate `url`, and the resolution of addresses, which are names.
pub record UrlCrate : Type 1 where
  pub Url : Type 0
  pub parse : String → Option Url
  pub has_host : Url → Bool
  pub host_str : Url → Option String
  pub set_host : Url → String → Option Url
  pub scheme : Url → String
  pub port : Url → Option ℕ
  pub set_port : Url → ℕ → Option Url
  pub path_segments : Url → Option (List String)
  pub username : Url → String
  pub password : Url → Option String
  pub query_pairs : Url → List (String × String)
  pub percent_decode : String → String
  pub to_socket_addrs : Url → Option (List ℕ)
  pub domain : Url → Option String

pub data Scheme : Type 0 where
  amqp amqps : Scheme

module _ (U : UrlCrate) where
  open U use {Url}

  unfoldable pub is_text : Option String → String → Bool
  is_text none s = false
  is_text (some t) s = ite (string_discrete t s) true false

  unfoldable pub with_host : Url → Result Url
  unfolding is_text
  with_host url =
      if not (U.has_host url) || is_text (U.host_str url) ""
      then or_error url_parse_error (U.set_host url "localhost")
      else ok url

  unfoldable pub with_port : ℕ → Url → Result Url
  with_port default_port url =
      or_error specify_url_port (U.set_port url (unwrap_or default_port (U.port url)))

  -- The URL afterwards, with its scheme.
  unfoldable pub populate_host_and_port : Url → Result (Url × Scheme)
  unfolding with_host with_port
  populate_host_and_port url = do
    hosted ← with_host url
    ite (string_discrete (U.scheme hosted) "amqp")
        (do url' ← with_port 5672 hosted; ok (url', amqp))
        (ite (string_discrete (U.scheme hosted) "amqps")
          (do url' ← with_port 5671 hosted; ok (url', amqps)) (err invalid_url_scheme))

  unfoldable pub decode_path : Option (List String) → Options → Result Options
  unfolding Builder.virtual_host
  decode_path none options = ok options
  decode_path (some List.[]) options = panicked
  decode_path (some (List.◌∷◌ vhost List.[])) options = ok (
      ite (string_discrete vhost "") options
        (Builder.virtual_host (U.percent_decode vhost) options))
  decode_path (some (List.◌∷◌ vhost (List.◌∷◌ extra others))) options = err extra_url_path_segments

  abbrev pub is_some : Option String → Bool
  is_some none = false
  is_some (some s) = true

  unfoldable pub decode_user : String → Option String → Options → Options
  unfolding Builder.auth is_text
  decode_user username password options =
      if not (is_text (some username) "") || is_some password
      then Builder.auth
          (plain (U.percent_decode (ite (string_discrete username "") "guest" username))
            (U.percent_decode (unwrap_or "guest" password)))
          options
      else options

  unfoldable pub decode : Url → Result Options
  unfolding Builder.default decode_path decode_user parameters
  decode url = do
    options ← decode_path (U.path_segments url) (Builder.default default_auth)
    parameters (U.query_pairs url) (decode_user (U.username url) (U.password url) options)

  -- What a connection to an address comes to.
  abbrev pub Connect : Type 0 → Type 0
  Connect Connection = ℕ → Options → Result Connection

  module _ {Connection : Type 0} where
    unfoldable pub open_addrs :
        Connect Connection → List ℕ → Option Error → Options → Result Connection
    open_addrs connect List.[] last_err options = err (unwrap_or url_no_socket_addrs last_err)
    open_addrs connect (List.◌∷◌ addr addrs) last_err options = elim (connect addr options) [
      | ok connection ↦ ok connection
      | err e ↦ open_addrs connect addrs (some e) options
      | panicked ↦ panicked
      | out_of_fuel ↦ out_of_fuel
    ]

    -- `TcpStream::connect`, and then `insecure_open_stream` with the options.
    unfoldable pub open_amqp : Connect Connection → Url → Options → Result Connection
    unfolding open_addrs
    open_amqp connect url options = do
      addrs ← or_error resolve_url_to_socket_addr (U.to_socket_addrs url)
      open_addrs connect addrs none options

    -- With the feature `native-tls`, which is on by default: `TlsConnector::new`, and
    -- `TcpStream::connect` and `open_tls_stream` with the domain.
    module _ (connector : Option (Unit {0})) (connect_tls : String → Connect Connection) where
      unfoldable pub open_amqps : Url → Options → Result Connection
      unfolding open_addrs
      open_amqps url options = do
        or_error create_tls_connector connector
        domain ← or_error url_missing_domain (U.domain url)
        addrs ← or_error resolve_url_to_socket_addr (U.to_socket_addrs url)
        open_addrs (connect_tls domain) addrs none options

      unfoldable pub open_ : Connect Connection → String → Bool → Result Connection
      unfolding populate_host_and_port decode open_amqp open_amqps
      open_ connect text allow_insecure = do
        url ← or_error url_parse_error (U.parse text)
        (url', scheme) ← populate_host_and_port url
        options ← decode url'
        elim scheme [
          | amqp ↦ if allow_insecure then open_amqp connect url' options else err insecure_url
          | amqps ↦ open_amqps url' options
        ]
