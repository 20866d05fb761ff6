-- ===== src/Handshake/Tests.antt =====
-- A handshake with the options of a test, up to the answer to `Tune`.
use amiquip.Prelude.{ℕ, false, none, [], ◌∷◌}
use amiquip.Protocol.{AmqpFrame, AmqpClass, ConnectionMethod}
use amiquip.ConnectionOptions.{Sasl, ConnectionOptions, ClientInfo}
use amiquip.Serialize.Plain.{plain_amqp}
use amiquip.Handshake.{Handshake, HandshakeState}

abbrev plain_sasl : Sasl
plain_sasl = record { Auth = ℕ; mechanism = λ a. "PLAIN"; response = λ a. "" }

abbrev client : ConnectionOptions plain_sasl
client = record {
  auth = 0;
  virtual_host = "/";
  locale = "en_US";
  channel_max = 0;
  frame_max = 0;
  heartbeat = 60;
  connection_timeout = none;
  information = none;
}

abbrev client_info : ClientInfo plain_amqp
client_info = record {
  new_table = 0;
  insert_string = λ t k v. t;
  insert_true = λ t k. t;
  insert_table = λ t k u. t;
  pkg_name = "amiquip";
  pkg_version = "1";
  platform = "linux";
}

abbrev before_start : Handshake plain_amqp plain_sasl
before_start = record {
  state = HandshakeState.start client;
  outbuf = record { buf = 65 ∷ []; sealed = false };
  heartbeats = none;
}

abbrev start_frame : AmqpFrame plain_amqp
start_frame = AmqpFrame.method 0 (
    AmqpClass.connection (
      ConnectionMethod.start
        (record { server_properties = 5; mechanisms = "AMQPLAIN PLAIN"; locales = "en_US" })))
