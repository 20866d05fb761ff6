-- ===== src/Auth.antt =====
-- auth.rs: how a client authenticates.
use Prim.Native.String.{◌++◌}
use amiquip.Prelude.{String}
use amiquip.ConnectionOptions.{Sasl}

pub data Auth : Type 0 where
  plain : (username password : String) → Auth
  external : Auth

abbrev pub default_auth : Auth
default_auth = plain "guest" "guest"

unfoldable pub mechanism : Auth → String
mechanism (plain username password) = "PLAIN"
mechanism external = "EXTERNAL"

-- `"\x00{}\x00{}"`
unfoldable pub response : Auth → String
response (plain username password) = "\0" ++ (username ++ ("\0" ++ password))
response external = ""

abbrev pub auth_sasl : Sasl
auth_sasl = record { Auth = Auth; mechanism = mechanism; response = response }
