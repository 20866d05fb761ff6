-- ===== src/ConnectionOptions/Tests.antt =====
-- The negotiation at concrete parameters, as in the source's tests.
use amiquip.Prelude.{ℕ, ◌≡◌, refl, true, false, none, arith, string_discrete}
use amiquip.Errors.{ok, err, frame_max_too_small}
use amiquip.Protocol.{Tune}
use amiquip.ConnectionOptions.{Sasl, ConnectionOptions, make_tune_ok, server_supports}
use amiquip.ConnectionOptions.Tuning.{Tuned, make_tune_ok-Tuned}

abbrev sasl : Sasl
sasl = record { Auth = ℕ; mechanism = λ a. "PLAIN"; response = λ a. "" }

abbrev options : ConnectionOptions sasl
options = record {
  auth = 0;
  virtual_host = "/";
  locale = "en_US";
  channel_max = 0;
  frame_max = 0;
  heartbeat = 60;
  connection_timeout = none;
  information = none;
}

abbrev tune : Tune
tune = record { channel_max = 10; frame_max = 131072; heartbeat = 30 }

tune_default :
    make_tune_ok options (record tune { channel_max = 0 })
    ≡ ok (record { channel_max = 65535; frame_max = 131072; heartbeat = 30 })
unfolding make_tune_ok
tune_default = refl

tune_small :
    make_tune_ok (record options { frame_max = 4095 }) tune ≡ err (frame_max_too_small 4096 4095)
unfolding make_tune_ok
tune_small = refl

supports_second : server_supports "AMQPLAIN PLAIN" "PLAIN" ≡ true
unfolding server_supports string_discrete
supports_second = refl

supports_none : server_supports "NOTPLAIN SOMETHINGELSE" "PLAIN" ≡ false
unfolding server_supports string_discrete
supports_none = refl

make_tune_ok-Tuned_example : Tuned options tune (make_tune_ok options tune)
make_tune_ok-Tuned_example =
    make_tune_ok-Tuned options tune
      (record { channel_max = omega arith; frame_max = omega arith; heartbeat = omega arith })
      (omega arith) (omega arith) (omega arith)
