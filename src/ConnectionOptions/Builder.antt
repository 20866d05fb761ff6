-- ===== src/ConnectionOptions/Builder.antt =====
-- connection_options.rs: the default options, and what sets them.
use amiquip.Prelude.{ℕ, String, Option, none}
use amiquip.ConnectionOptions.{Sasl, ConnectionOptions}

module _ {S : Sasl} where
  -- `Auth::default()` is an argument.
  unfoldable pub default : S.Auth → ConnectionOptions S
  default auth = record {
    auth = auth;
    virtual_host = "/";
    locale = "en_US";
    channel_max = 0;
    frame_max = 0;
    heartbeat = 60;
    connection_timeout = none;
    information = none;
  }

  unfoldable pub auth : S.Auth → ConnectionOptions S → ConnectionOptions S
  auth value self = record self { auth = value }

  unfoldable pub virtual_host : String → ConnectionOptions S → ConnectionOptions S
  virtual_host value self = record self { virtual_host = value }

  unfoldable pub locale : String → ConnectionOptions S → ConnectionOptions S
  locale value self = record self { locale = value }

  unfoldable pub channel_max : ℕ → ConnectionOptions S → ConnectionOptions S
  channel_max value self = record self { channel_max = value }

  unfoldable pub frame_max : ℕ → ConnectionOptions S → ConnectionOptions S
  frame_max value self = record self { frame_max = value }

  unfoldable pub heartbeat : ℕ → ConnectionOptions S → ConnectionOptions S
  heartbeat value self = record self { heartbeat = value }

  unfoldable pub connection_timeout : Option ℕ → ConnectionOptions S → ConnectionOptions S
  connection_timeout value self = record self { connection_timeout = value }

  unfoldable pub information : Option String → ConnectionOptions S → ConnectionOptions S
  information value self = record self { information = value }
