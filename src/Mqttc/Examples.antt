-- ===== src/Mqttc/Examples.antt =====
-- The theorems about the crate mqttc on a network that reads from a list of packets and keeps what is
-- written to it, with the local storage of the client command.
mod Exchanges
mod Connecting
mod ExactlyOnce
mod Queues
mod Bytes
mod Options
pub mod Finite
use rust_mq.Base.{
  ℕ, ◌==◌, ◌-◌, ◌≤◌, ltb, if◌then◌else◌, ◌≡◌, ◌≢◌, refl, true, false, List, [], ◌∷◌, ◌++◌, All,
  Option, none, some, arith,
}
use rust_mq.Base.Maps.{lookup}
use rust_mq.Outcome.{Outcome, done, failed, ok, err}
use rust_mq.Mqtt3.Bytes.{IsByte}
use rust_mq.Mqtt3.Errors.{Error}
use rust_mq.Mqtt3.Errors
use rust_mq.Mqtt3.Qos.{exactly_once}
use rust_mq.Mqtt3.PacketIdentifier.{next}
use rust_mq.Mqtt3.ConnectReturnCode.{accepted}
use rust_mq.Mqtt3.Packet.{Packet, Publish}
use rust_mq.Mqtt3.Samples.{codes, sample_publish, publish_bytes, read_publish_test}
use rust_mq.Mqtt3.Topic.{
  text, from_str, to_topic_name, split, topic_of, keeps_valid, validate, contains,
}
use rust_mq.Mqtt3.TopicExamples.{plain_path, sample_message}
use rust_mq.Mqtt3.Message.{Message}
use rust_mq.Mqttc.Errors.{not_found, unhandled_puback}
use rust_mq.Mqttc.PubOpt
use rust_mq.Mqttc.PubOpt.Bits.{Level, operators-bits}
use rust_mq.Base.Digits.{bit}
use Prim.Native.Nat.{min, max, differ}
use rust_mq.Mqttc.Store.{LocalStorage, local_storage, local_storage-put, put_at, get_at}
use rust_mq.Mqttc.Network.{Network}
use rust_mq.Mqttc.Options.{ClientOptions, new}
use rust_mq.Mqttc.Client.{Client, ClientState, connected, ping}
use rust_mq.Mqttc.Client
use rust_mq.Mqttc.Client.Life.{fresh, connect, handshake_with, await}
use rust_mq.Mqttc.Client.Incoming.{parse_packet}
use rust_mq.Mqttc.Client.Outgoing.{publish, complete}
use rust_mq.Mqttc.Client.Invariant.{IsValid, Holds, Calm, Answers, IsSome}
use rust_mq.Mqttc.Client.Session.{
  start, returns, ping_call, run, connect-IsValid, parse_packet-safe,
}
use rust_mq.Mqttc.Client.Flow.{handle_all, outgoing_message, pubacks-in_order, pubacks-swapped}
use rust_mq.Mqttc.Client.Flow.Receive.{received, exactly_once-receive}

pub record Script : Type 0 where
  pub input : List Packet
  pub output : List Packet

abbrev pub read_script : List Packet → Script → Outcome Error Script Packet
read_script [] n = failed Errors.Error.unexpected_eof n
read_script (p ∷ ps) n = done p (record n { input = ps })

abbrev pub script : Network Script
script = record {
  read_packet = λ n. read_script n.input n;
  write_packet = λ p n. done tt (record n { output = n.output ++ p ∷ [] });
  flush = λ n. done tt n;
  set_read_timeout = λ t n. done tt n;
  terminate = λ n. done tt n;
  connect = λ t n. done tt n;
  sleep = λ t n. n;
  now = λ n. 0;
}

abbrev options : ClientOptions LocalStorage
options = record (new {S = LocalStorage}) {
  client_id = some (codes "test");
  incomming_store = some [];
  outgoing_store = some [];
}

abbrev accepting : Script
accepting = record {
  input = Packet.connack (record { session_present = false; code = accepted }) ∷ [];
  output = [];
}

-- A connected client with these messages in its queue for PUBACK.
abbrev pub connected_client : List Message → Client Script LocalStorage
connected_client acks =
    record (fresh script local_storage options (record { input = []; output = [] })) {
      state = connected;
      outgoing_ack = acks;
    }

abbrev accepted_client : Client Script LocalStorage
accepted_client =
    record (fresh script local_storage options (record {
      input = [];
      output =
          Packet.connect (record {
            protocol = options.protocol;
            keep_alive = 30;
            client_id = codes "test";
            clean_session = true;
            last_will = none;
            username = none;
            password = none;
          })
          ∷ [];
    })) { state = connected }

-- The unit test of the client: CONNECT is answered by CONNACK.
connect_test : connect script local_storage 1 [] options accepting ≡ done tt accepted_client
unfolding connect handshake_with Client.write_packet Client.flush await new parse_packet
    Client.normalized
connect_test = refl

abbrev pinging_client : Client Script LocalStorage
pinging_client = record accepted_client {
  await_ping = true;
  conn = record accepted_client.conn {
    output = accepted_client.conn.output ++ Packet.pingreq ∷ [];
  };
}

ping_test : run script local_storage ping_call accepted_client ≡ done tt pinging_client
unfolding run Client.write_packet Client.flush
ping_test = refl

connect-IsValid_example : IsValid pinging_client
connect-IsValid_example =
    connect-IsValid script local_storage 1 [] options accepting accepted_client pinging_client
      connect_test (returns ping_call start ping_test)

put-Answers : (o : Option ℕ) (m : Message) (s : LocalStorage) → IsSome o → Answers ⊥ (put_at o m s)
put-Answers none m s h = h
put-Answers (some pid) m s h = tt

get-Answers : (pid : ℕ) (o : Option Message) (s : LocalStorage) → Answers ⊥ (get_at pid o s)
get-Answers pid none s = tt
get-Answers pid (some m) s = tt

script-Calm : Calm ⊥ script local_storage
unfolding local_storage
script-Calm = record {
  write_Sends = λ p n a. tt;
  flush_Answers = λ n. tt;
  put_Answers = λ m s h. put-Answers m.pid m s h;
  get_Answers = λ pid s. get-Answers pid (lookup ◌==◌ pid s) s;
  delete_Answers = λ pid s. tt;
}

publish_bytes-All : All IsByte publish_bytes
publish_bytes-All = omega arith

sample_topic : (e : Errors.Error) → from_str sample_publish.topic_name ≢ err e
unfolding from_str split topic_of keeps_valid validate contains
sample_topic e = ground arith

accepted_client-IsValid : IsValid accepted_client
accepted_client-IsValid = record {
  has_id = tt;
  last_pid = omega arith;
  acks_Queued = tt;
  recs_Queued = tt;
  held_Queued = tt;
}

parse_packet-safe_example :
    Holds ⊥ (parse_packet script local_storage (Packet.publish sample_publish) accepted_client)
parse_packet-safe_example =
    parse_packet-safe script local_storage publish_bytes [] (Packet.publish sample_publish)
      accepted_client script-Calm accepted_client-IsValid publish_bytes-All read_publish_test
      sample_topic

abbrev second_message : Message
second_message = record sample_message { pid = some 2 }

abbrev waiting_client : Client Script LocalStorage
waiting_client = record accepted_client { outgoing_ack = sample_message ∷ second_message ∷ [] }

pubacks-in_order_example :
    handle_all script local_storage (Packet.puback 1 ∷ Packet.puback 2 ∷ []) waiting_client
    ≡ done tt (record waiting_client { outgoing_ack = [] })
pubacks-in_order_example =
    pubacks-in_order script local_storage (sample_message ∷ second_message ∷ []) [] (1 ∷ 2 ∷ [])
      waiting_client refl refl (refl, (refl, tt))

one-not-two : ◌≢◌ {A = ℕ} 1 2
one-not-two e = omega arith

pubacks-swapped_example :
    (c : Client Script LocalStorage) × (parse_packet script local_storage
        (Packet.puback 2)
        waiting_client
      ≡ failed (unhandled_puback 2) c)
    × (parse_packet script local_storage (Packet.puback 1) c
        ≡ failed (unhandled_puback 1) (record waiting_client { outgoing_ack = [] }))
pubacks-swapped_example =
    pubacks-swapped script local_storage sample_message second_message [] 1 2 waiting_client refl
      refl refl refl one-not-two

pub plain_name : to_topic_name (text (codes "a/b")) ≡ ok plain_path
unfolding to_topic_name split topic_of keeps_valid validate contains
plain_name = refl

pub plain_str : from_str (codes "a/b") ≡ ok plain_path
unfolding from_str split topic_of keeps_valid validate contains
plain_str = refl
