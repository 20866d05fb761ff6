-- ===== src/ConnectionOptions.antt =====
-- connection_options.rs: the options of a connection, and the client's side of the handshake.
pub mod Tuning
pub mod Builder
mod Tests
use Prim.Native.Char.{Char, code}
use Prim.Native.String.{[], ◌∷◌}
use amiquip.Prelude.{
  ℕ, ◌-◌, ◌^◌, String, Bool, true, false, List, Option, none, some, ltb, ◌==◌, ◌||◌, if◌then◌else◌,
  ite, min, not, string_discrete,
}
use mathlib.Core.List
use amiquip.Errors.{
  Result, ok, err, frame_max_too_small, unsupported_auth_mechanism, unsupported_locale,
}
use amiquip.Protocol.{Amqp, Start, StartOk, Tune, Open}

-- `FRAME_MIN_SIZE` of amq-protocol, as the documentation of `frame_max` gives it.
abbrev pub frame_min_size : ℕ
frame_min_size = 4096

abbrev pub u16_max : ℕ
u16_max = 2 ^ 16 - 1

abbrev pub u32_max : ℕ
u32_max = 2 ^ 32 - 1

-- The trait `Sasl`.
pub record Sasl : Type 1 where
  pub Auth : Type 0
  pub mechanism : Auth → String
  pub response : Auth → String

-- `connection_timeout` is in milliseconds.
pub record ConnectionOptions (S : Sasl) : Type 0 where
  pub auth : S.Auth
  pub virtual_host : String
  pub locale : String
  pub channel_max : ℕ
  pub frame_max : ℕ
  pub heartbeat : ℕ
  pub connection_timeout : Option ℕ
  pub information : Option String

-- `promote_0_u16` and `promote_0_u32`.
abbrev pub promote_0 : ℕ → ℕ → ℕ
promote_0 max_value val = if val == 0 then max_value else val

unfoldable pub make_tune_ok : {S : Sasl} → ConnectionOptions S → Tune → Result Tune
make_tune_ok self tune =
    let chan_max0 = promote_0 u16_max tune.channel_max in
    let chan_max1 = promote_0 u16_max self.channel_max in
    let frame_max0 = promote_0 u32_max tune.frame_max in
    let frame_max1 = promote_0 u32_max self.frame_max in
    let frame_max = min frame_max0 frame_max1 in
    if ltb frame_max frame_min_size
    then err (frame_max_too_small frame_min_size frame_max)
    else ok (record {
      channel_max = min chan_max0 chan_max1;
      frame_max = frame_max;
      heartbeat = min tune.heartbeat self.heartbeat;
    })

-- `str::split(' ')`
pub cons_first : Char → List String → List String
cons_first c List.[] = List.◌∷◌ (c ∷ []) List.[]
cons_first c (List.◌∷◌ w ws) = List.◌∷◌ (c ∷ w) ws

unfoldable pub split : String → List String
unfolding cons_first
split [] = List.◌∷◌ [] List.[]
split (c ∷ s) =
    let words = split s in if code c == b' ' then List.◌∷◌ [] words else cons_first c words

unfoldable pub any_eq : List String → String → Bool
any_eq List.[] client = false
any_eq (List.◌∷◌ w ws) client = ite (string_discrete w client) true (any_eq ws client)

unfoldable pub server_supports : String → String → Bool
unfolding split any_eq
server_supports server client = any_eq (split server) client

-- amq-protocol's field tables, and the facts about the build that the client reports.
pub record ClientInfo (A : Amqp) : Type 0 where
  pub new_table : A.FieldTable
  pub insert_string : A.FieldTable → String → String → A.FieldTable
  pub insert_true : A.FieldTable → String → A.FieldTable
  pub insert_table : A.FieldTable → String → A.FieldTable → A.FieldTable
  pub pkg_name : String
  pub pkg_version : String
  pub platform : String

module _ (A : Amqp) (info : ClientInfo A) {S : Sasl} where
  open info use {
    new_table, insert_string, insert_true, insert_table, pkg_name, pkg_version, platform,
  }

  unfoldable pub client_properties : ConnectionOptions S → A.FieldTable
  client_properties self =
      let product = insert_string new_table "product" pkg_name in
      let version = insert_string product "version" pkg_version in
      let built = insert_string version "platform" platform in
      let informed : A.FieldTable = elim self.information [
        | none ↦ built
        | some i ↦ insert_string built "information" i
      ] in
      let capabilities =
        insert_true (insert_true new_table "consumer_cancel_notify") "connection.blocked" in
      insert_table informed "capabilities" capabilities

  unfoldable pub make_start_ok : ConnectionOptions S → Start A → Result (StartOk A × A.FieldTable)
  unfolding server_supports client_properties
  make_start_ok self start =
      let mechanism = S.mechanism self.auth in
      if not (server_supports start.mechanisms mechanism)
      then err (unsupported_auth_mechanism start.mechanisms mechanism)
      else if not (server_supports start.locales self.locale)
      then err (unsupported_locale start.locales self.locale)
      else ok (
        record {
          client_properties = client_properties self;
          mechanism = mechanism;
          response = S.response self.auth;
          locale = self.locale;
        },
        start.server_properties,
      )

  unfoldable pub make_open : ConnectionOptions S → Open A
  make_open self = record { virtual_host = self.virtual_host; capabilities = ""; insist = false }
