-- ===== src/Mqttc/Examples/Connecting.antt =====
-- A connection to a server that accepts it, on the network of packets.
use rust_mq.Base.{◌≡◌, refl, true, false, [], ◌∷◌, none, some}
use rust_mq.Outcome.{done}
use rust_mq.Mqtt3.ConnectReturnCode.{accepted}
use rust_mq.Mqtt3.Packet.{Packet, Connect}
use rust_mq.Mqtt3.Samples.{codes}
use rust_mq.Mqttc.Store.{local_storage}
use rust_mq.Mqttc.Options.{generate_connect_packet, new}
use rust_mq.Mqttc.Client.{connected}
use rust_mq.Mqttc.Client.Life.{connect, fresh}
use rust_mq.Mqttc.Client.Life.Handshake.{Armed, connect-accepted}
use rust_mq.Mqttc.Examples.{Script, script, options, accepting}

abbrev first_packet : Connect
first_packet = record {
  protocol = options.protocol;
  keep_alive = 30;
  client_id = codes "test";
  clean_session = true;
  last_will = none;
  username = none;
  password = none;
}

first_packet_made : generate_connect_packet options ≡ some first_packet
unfolding generate_connect_packet new
first_packet_made = refl

abbrev asked : Script
asked = record accepting { output = Packet.connect first_packet ∷ [] }

abbrev answered : Script
answered = record { input = []; output = Packet.connect first_packet ∷ [] }

timeout_set : Armed script local_storage options.keep_alive asked asked
unfolding new
timeout_set = (refl, refl)

connect-accepted_example :
    connect script local_storage 1 [] options accepting
    ≡ done tt (record (fresh script local_storage options answered) {
      state = connected;
      session_present = false;
      last_flush = 0;
    })
connect-accepted_example =
    connect-accepted script local_storage 0 [] options options first_packet
      (record { session_present = false; code = accepted }) accepting accepting asked asked asked
      answered refl first_packet_made refl refl refl timeout_set refl refl
