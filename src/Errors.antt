-- ===== src/Errors.antt =====
-- errors.rs: the errors, and the outcome of a fallible call.
use amiquip.Prelude.{ℕ, String}

-- Values of other crates that an error carries (`Url`, `io::Error`, `ParseIntError`,
-- `native_tls::Error`) are left out.
pub data Error : Type 0 where
  url_parse_error tls_feature_not_enabled insecure_url unexpected_socket_close : Error
  io_error_reading_socket io_error_writing_socket malformed_frame url_no_socket_addrs : Error
  resolve_url_to_socket_addr failed_to_connect specify_url_port invalid_url_scheme : Error
  url_missing_domain extra_url_path_segments url_parse_heartbeat url_parse_channel_max : Error
  url_parse_connection_timeout : Error
  url_invalid_auth_mechanism url_unsupported_parameter : String → Error
  create_poll_handle register_with_poll_handle deregister_with_poll_handle : Error
  failed_to_poll tls_handshake create_tls_connector : Error
  unsupported_auth_mechanism unsupported_locale : String → String → Error
  frame_max_too_small : ℕ → ℕ → Error
  connection_timeout sasl_secure_not_supported invalid_credentials : Error
  missed_server_heartbeats : Error
  server_closed_connection : ℕ → String → Error
  client_closed_connection : Error
  server_closed_channel : ℕ → ℕ → String → Error
  client_closed_channel event_loop_client_dropped event_loop_dropped : Error
  frame_unexpected fork_failed exhausted_channel_ids : Error
  unavailable_channel_id : ℕ → Error
  client_exception : Error
  received_frame_with_bogus_channel_id : ℕ → Error
  io_thread_panic : Error
  duplicate_consumer_tag unknown_consumer_tag : ℕ → String → Error
  nonexhaustive : Error

-- `Result<A>`, with two more outcomes: a panic, and a loop that used up the fuel of the model.
pub data Result {ℓ} (A : Type ℓ) : Type ℓ where
  ok : A → Result A
  err : Error → Result A
  panicked : Result A
  out_of_fuel : Result A

infixl 5 ◌>>=◌ ◌>>◌
abbrev pub ◌>>=◌ {ℓ κ} : {A : Type ℓ} {B : Type κ} → Result A → (A → Result B) → Result B
ok a >>= f = f a
err e >>= f = err e
panicked >>= f = panicked
out_of_fuel >>= f = out_of_fuel

abbrev pub ◌>>◌ {ℓ κ} : {A : Type ℓ} {B : Type κ} → Result A → Result B → Result B
m >> k = m >>= λ _. k
