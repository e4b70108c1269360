-- ===== src/Mqtt3/Samples.antt =====
-- The packets and byte strings of the unit tests in mqtt3/src/read.rs and write.rs, run through the
-- reader and the writer.
use rust_mq.Base.{◌≡◌, refl, true, false, [], ◌∷◌, ◌++◌, some}
use rust_mq.Base.Utf8.{is_utf8}
use rust_mq.Outcome.{done}
use rust_mq.Mqtt3.Bytes.{Bytes}
unfoldable pub use rust_mq.Mqtt3.Bytes.{codes}
use rust_mq.Mqtt3.Protocol.{mqtt}
use rust_mq.Mqtt3.Protocol
use rust_mq.Mqtt3.Qos.{at_most_once, at_least_once, exactly_once}
use rust_mq.Mqtt3.Qos
use rust_mq.Mqtt3.Header
use rust_mq.Mqtt3.Packet.{
  Connect, Publish, Subscribe, success, failure, connect, publish, subscribe, suback,
}
use rust_mq.Mqtt3.Stream.{
  read_u8, read_u16, read_to_end, read_mqtt_string, read_remaining_length, limited, from_utf8,
}
use rust_mq.Mqtt3.Read.{
  read_body, read_connect, read_will, read_optional, read_publish, read_pid, read_subscribe,
  read_suback, suback_code, subscribe_loop, suback_loop, read_packet,
}
use rust_mq.Mqtt3.Write.{
  write_u8, write_u16, write_mqtt_string, write_remaining_length, write_packet, write_connect,
  connect_size, connect_flags, write_will, write_optional,
}

abbrev pub sample_connect : Connect
sample_connect = record {
  protocol = mqtt 4;
  keep_alive = 10;
  client_id = codes "test";
  clean_session = true;
  last_will = some (record {
    topic = codes "/a";
    message = codes "offline";
    qos = at_least_once;
    retain = false;
  });
  username = some (codes "rust");
  password = some (codes "mq");
}

abbrev pub connect_bytes : Bytes
connect_bytes =
    0x10 ∷ 39 ∷ 0x00 ∷ 0x04 ∷ codes "MQTT"
    ++ (0x04 ∷ 0b11001110 ∷ 0x00 ∷ 0x0a ∷ 0x00 ∷ 0x04 ∷ codes "test")
    ++ (0x00 ∷ 0x02 ∷ codes "/a")
    ++ (0x00 ∷ 0x07 ∷ codes "offline")
    ++ (0x00 ∷ 0x04 ∷ codes "rust")
    ++ (0x00 ∷ 0x02 ∷ codes "mq")

read_connect_test : read_packet connect_bytes ≡ done (connect sample_connect) []
unfolding read_packet read_u8 read_remaining_length Header.new limited read_body read_connect
    read_mqtt_string read_u16 from_utf8 is_utf8 Protocol.new read_will read_optional Qos.from_u8
read_connect_test = refl

write_connect_test : write_packet (connect sample_connect) [] ≡ done tt connect_bytes
unfolding write_packet write_connect write_u8 write_remaining_length connect_size write_mqtt_string
    Protocol.name Protocol.level connect_flags write_u16 write_will write_optional
write_connect_test = refl

abbrev pub sample_publish : Publish
sample_publish = record {
  dup = false;
  qos = at_least_once;
  retain = false;
  topic_name = codes "a/b";
  pid = some 10;
  payload = 0xf1 ∷ 0xf2 ∷ 0xf3 ∷ 0xf4 ∷ [];
}

abbrev pub publish_bytes : Bytes
publish_bytes =
    0b00110010 ∷ 11 ∷ 0x00 ∷ 0x03 ∷ codes "a/b" ++ (0x00 ∷ 0x0a ∷ 0xf1 ∷ 0xf2 ∷ 0xf3 ∷ 0xf4 ∷ [])

pub read_publish_test : read_packet publish_bytes ≡ done (publish sample_publish) []
unfolding read_packet read_u8 read_remaining_length Header.new limited read_body read_publish
    read_pid read_mqtt_string read_u16 from_utf8 is_utf8 Header.qos Qos.from_u8 Qos.eq read_to_end
    Header.dup Header.retain
read_publish_test = refl

abbrev pub sample_subscribe : Subscribe
sample_subscribe = record {
  pid = 260;
  topics =
      record { topic_path = codes "a/+"; qos = at_most_once }
      ∷ record { topic_path = codes "#"; qos = at_least_once }
      ∷ record { topic_path = codes "a/b/c"; qos = exactly_once }
      ∷ [];
}

abbrev pub subscribe_bytes : Bytes
subscribe_bytes =
    0b10000010 ∷ 20 ∷ 0x01 ∷ 0x04 ∷ 0x00 ∷ 0x03 ∷ codes "a/+"
    ++ (0x00 ∷ 0x00 ∷ 0x01 ∷ codes "#")
    ++ (0x01 ∷ 0x00 ∷ 0x05 ∷ codes "a/b/c")
    ++ (0x02 ∷ [])

read_subscribe_test : read_packet subscribe_bytes ≡ done (subscribe sample_subscribe) []
unfolding read_packet read_u8 read_remaining_length Header.new limited read_body read_subscribe
    read_mqtt_string read_u16 from_utf8 is_utf8 Qos.from_u8 subscribe_loop
read_subscribe_test = refl

read_suback_test :
    read_packet (0x90 ∷ 4 ∷ 0x00 ∷ 0x0f ∷ 0x01 ∷ 0x80 ∷ [])
    ≡ done (suback (record { pid = 15; return_codes = success at_least_once ∷ failure ∷ [] })) []
unfolding read_packet read_u8 read_remaining_length Header.new limited read_body read_suback
    suback_code read_u16 Qos.from_u8 suback_loop
read_suback_test = refl
