-- ===== src/AmqpUrl/Addresses.antt =====
-- Which address a connection is opened to, and that none is opened in the clear without leave.
use amiquip.Prelude.{ℕ, ◌≡◌, refl, String, false, List, [], ◌∷◌, Option, none, some}
use amiquip.Errors.{
  Result, Error, ok, err, panicked, out_of_fuel, url_no_socket_addrs, create_tls_connector,
  url_missing_domain, ◌>>=◌,
}
use amiquip.AmqpUrl.{
  UrlCrate, Options, Connect, amqp, amqps, or_error, unwrap_or, open_addrs, open_amqp, open_amqps,
  open_, populate_host_and_port, decode,
}

module _ {A B : Type 0} where
  bind_same : (m : Result A) (f g : A → Result B) → ((a : A) → f a ≡ g a) → (m >>= f) ≡ (m >>= g)
  bind_same (ok a) f g h = h a
  bind_same (err e) f g h = refl
  bind_same panicked f g h = refl
  bind_same out_of_fuel f g h = refl

module _ (U : UrlCrate) {Connection : Type 0} (options : Options) where
  -- What addresses come to that are tried one after the other, by the error of the last one
  -- before them: the first that opens ends it, and so does the last.
  pub data Tries (connect : Connect U Connection)
      : List ℕ → Option Error → Result Connection → Type 0 where
    opens :
        (addr : ℕ) (addrs : List ℕ) (before : Option Error) (connection : Connection)
        → connect addr options ≡ ok connection
        → Tries connect (addr ∷ addrs) before (ok connection)
    failed :
        (addr : ℕ) (addrs : List ℕ) (e : Error) (before : Option Error) (r : Result Connection)
        → connect addr options ≡ err e
        → Tries connect addrs (some e) r
        → Tries connect (addr ∷ addrs) before r
    all_failed :
        (before : Option Error)
        → Tries connect [] before (err (unwrap_or url_no_socket_addrs before))

  open_addrs-Tries :
      (connect : Connect U Connection) (addrs : List ℕ) (before : Option Error)
      (r : Result Connection)
      → Tries connect addrs before r
      → open_addrs U connect addrs before options ≡ r
  unfolding open_addrs
  open_addrs-Tries connect _ before _ (opens addr addrs _ connection up) = rw (open_addrs, up) refl
  open_addrs-Tries connect _ before r (failed addr addrs e _ _ down others) =
      rw (open_addrs, down) (open_addrs-Tries connect addrs (some e) r others)
  open_addrs-Tries connect _ before _ (all_failed _) = refl

  -- The addresses of a URL are tried in their order, whether in the clear or with TLS: the
  -- connection is to the first one that opens, whatever those before it fail with, and none behind
  -- it matters. If all fail, the error is that of the last one, and if there is no address, it is
  -- `url_no_socket_addrs`. With TLS the error of the `TlsConnector` comes before all this, and then
  -- `url_missing_domain`. No try panics.
  pub open_addrs-first :
      (connector : Option (Unit {0})) (connect : Connect U Connection)
      (connect_tls : String → Connect U Connection) (url : U.Url) (addrs : List ℕ)
      (plain : Result Connection) (secure : String → Result Connection)
      → U.to_socket_addrs url ≡ some addrs
      → Tries connect addrs none plain
      → ((domain : String) → Tries (connect_tls domain) addrs none (secure domain))
      → (open_amqp U connect url options ≡ plain)
        × (open_amqps U connector connect_tls url options ≡ (
            or_error create_tls_connector connector >>= λ _.
            or_error url_missing_domain (U.domain url) >>= secure))
  unfolding open_amqp open_amqps
  open_addrs-first connector connect connect_tls url addrs plain secure resolved tried tried_tls = (
    rw resolved (open_addrs-Tries connect addrs none plain tried),
    rw resolved (
        bind_same (or_error create_tls_connector connector) _ _ (λ _.
          bind_same (or_error url_missing_domain (U.domain url)) _ _ (λ domain.
            open_addrs-Tries (connect_tls domain) addrs none (secure domain) (tried_tls domain)))),
  )

module _ (U : UrlCrate) {Connection : Type 0} (connector : Option (Unit {0}))
    (connect_tls : String → Connect U Connection) (connect connect' : Connect U Connection) where
  -- Without leave to be insecure, no connection is opened in the clear: what opening a URL comes
  -- to, whatever the text, the host and the scheme, does not depend on what a connection without
  -- TLS would come to.
  pub open_-secure :
      (text : String)
      → open_ U connector connect_tls connect text false
        ≡ open_ U connector connect_tls connect' text false
  unfolding open_
  open_-secure text = bind_same (or_error _ (U.parse text)) _ _ (λ url.
      bind_same (populate_host_and_port U url) _ _ (λ (url', scheme).
        bind_same (decode U url') _ _ (λ options. elim scheme [ amqp ↦ refl | amqps ↦ refl ])))
