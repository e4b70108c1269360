-- ===== src/Command/Examples.antt =====
-- Runs of the command mqttc of src/ at concrete arguments, on the network of packets.
mod Parsing
mod Listening
use Prim.Native.String.{String}
use text.Mathlib.Text as Text
use rust_mq.Base.{
  ◌*◌, ◌+◌, ◌<◌, ℕ, ◌≡◌, ◌≢◌, ◌↔◌, ◌≤◌, refl, true, false, List, [], ◌∷◌, Option, none, some, arith,
  if◌then◌else◌, bytes_eq, ◌⊎◌, inr,
}
use rust_mq.Outcome.{ok, done, failed}
use rust_mq.Mqtt3.Bytes.{Text, codes}
use rust_mq.Mqtt3.Qos.{at_most_once, at_least_once, exactly_once}
use rust_mq.Mqtt3.Protocol.{mqtt}
use rust_mq.Mqtt3.PacketIdentifier.{next}
use rust_mq.Mqtt3.ConnectReturnCode.{accepted}
use rust_mq.Mqtt3.Packet.{Packet, Connect}
use rust_mq.Mqtt3.TopicExamples.{plain_path}
use rust_mq.Mqtt3.Message.{to_pub}
use rust_mq.Mqttc.Store.{LocalStorage, local_storage}
use rust_mq.Mqttc.Options.{ClientOptions, new, seconds, generate_connect_packet}
use rust_mq.Mqttc.Client.{Client}
use rust_mq.Mqttc.Examples.{Script, script, plain_name}
use rust_mq.Mqttc.Options.{set_client_id}
use rust_mq.Mqttc.Client.Life.{with_id}
use rust_mq.Mqttc.Client.Life.Handshake.{Armed}
use rust_mq.Command.Numbers.{parse_unsigned, parse_u16}
use rust_mq.Command.Numbers.Laws.{Denotes, parse_unsigned-Denotes}
use rust_mq.Command.Numbers.Decimal.{parse_u16-decimal}
use rust_mq.Command.Ending.{decimal}
use rust_mq.Command.Getopts.{Matches, Parser, is_some}
use rust_mq.Command.Tls.{Openssl}
use rust_mq.Command.Publish.{PublishCommand}
use rust_mq.Command.Publish
use rust_mq.Command.Publish.Parsed.{publish_parse-Describes}
use rust_mq.Command.Publish.Parsed.{Describes as DescribesPublish}
use rust_mq.Mqttc.Examples.Finite.{packets_left, script-Finite}
use rust_mq.Command.Publish.Ends.{Exits, run-Exits}
use rust_mq.Command.Publish.Run.{Files, run, options_of}
use rust_mq.Command.Publish.Delivered.{sent, run-delivered}
use rust_mq.Command.Publish.Acknowledged.{run-acknowledged}
use rust_mq.Command.Subscribe.{SubscribeCommand}
use rust_mq.Command.Subscribe
use rust_mq.Command.Subscribe.Parsed.{subscribe_parse-Describes}
use rust_mq.Command.Subscribe.Parsed.{Describes as DescribesSubscribe}

abbrev pub parsed_publish : PublishCommand (Unit {0})
parsed_publish = record {
  topic = codes "a/b";
  message = some (codes "hello");
  file = none;
  qos = at_least_once;
  retain = false;
  address = codes "localhost";
  port = 8883;
  keep_alive = 30;
  debug = false;
  protocol = mqtt 4;
  client_id = none;
  username = none;
  password = none;
  ssl_context = none;
}

abbrev no_files : Files
no_files = record { exists = λ path. false; read = λ path. none }

-- The options of `parsed_publish`, with the identifier that is generated for it.
abbrev command_options : ClientOptions LocalStorage
command_options = record (new {S = LocalStorage}) {
  client_id = some (codes "id");
  keep_alive = some (seconds 30);
  outgoing_store = some [];
}

abbrev first_packet : Connect
first_packet = record {
  protocol = mqtt 4;
  keep_alive = 30;
  client_id = codes "id";
  clean_session = true;
  last_will = none;
  username = none;
  password = none;
}

abbrev publish_packet : Packet
publish_packet =
    Packet.publish
      (to_pub (sent script no_files parsed_publish plain_path (codes "hello")) none false)

-- What the server sends: a CONNACK, and the PUBACK with the first identifier.
abbrev acks : List Packet
acks =
    Packet.connack (record { session_present = false; code = accepted })
    ∷ Packet.puback (next 0)
    ∷ []

abbrev dial : Text → Option (Unit {0}) → Script
dial address context = record { input = acks; output = [] }

abbrev at_work : List Packet → List Packet → Script
at_work input output = record { input = input; output = output }

options_made :
    with_id script local_storage
      (options_of parsed_publish).client_id
      (codes "id")
      (options_of parsed_publish)
    ≡ command_options
unfolding options_of new set_client_id
options_made = refl

packet_made : generate_connect_packet command_options ≡ some first_packet
unfolding generate_connect_packet new
packet_made = refl

timeout_set : (n : Script) → Armed script local_storage command_options.keep_alive n n
timeout_set n = (refl, refl)

run-delivered_example :
    (c : Client Script LocalStorage) × (run script no_files parsed_publish 1 1 (codes "id") dial
      ≡ failed 0 c)
    × (c.conn ≡ at_work [] (Packet.connect first_packet ∷ publish_packet ∷ []))
    × (c.outgoing_ack ≡ [])
run-delivered_example =
    run-delivered script no_files parsed_publish 0 0 (codes "id") dial command_options first_packet
      (record { session_present = false; code = accepted }) plain_path (codes "hello")
      (at_work acks []) (at_work acks (Packet.connect first_packet ∷ []))
      (at_work acks (Packet.connect first_packet ∷ []))
      (at_work acks (Packet.connect first_packet ∷ []))
      (at_work (Packet.puback (next 0) ∷ []) (Packet.connect first_packet ∷ []))
      (at_work (Packet.puback (next 0) ∷ []) (Packet.connect first_packet ∷ publish_packet ∷ []))
      (at_work (Packet.puback (next 0) ∷ []) (Packet.connect first_packet ∷ publish_packet ∷ []))
      (at_work (Packet.puback (next 0) ∷ []) (Packet.connect first_packet ∷ publish_packet ∷ []))
      (at_work [] (Packet.connect first_packet ∷ publish_packet ∷ [])) refl refl plain_name
      options_made packet_made refl refl refl (timeout_set _) refl refl refl refl (timeout_set _)
      refl

run-acknowledged_example :
    (◌≡◌ {A = ℕ} 0 0)
    × ((parsed_publish.qos ≡ at_most_once)
        ⊎ ((run-delivered_example.0.outgoing_ack ≡ [])
            × (run-delivered_example.0.outgoing_rec ≡ [])))
run-acknowledged_example =
    run-acknowledged script no_files parsed_publish 1 1 (codes "id") dial 0 run-delivered_example.0
      run-delivered_example.1

few_rounds : 3 * 2 + 2 < 9
few_rounds = omega arith

more_rounds : 2 < 3
more_rounds = omega arith

at_most_two : packets_left (dial (codes "localhost") none) ≤ 2
at_most_two = omega arith

run-Exits_example : Exits (run script no_files parsed_publish 9 3 (codes "id") dial)
run-Exits_example =
    run-Exits script packets_left script-Finite no_files parsed_publish 9 3 2 (codes "id") dial
      (λ t. at_most_two) few_rounds more_rounds
