-- ===== src/Command/Publish/Delivered.antt =====
-- The whole run of src/client/command/publish.rs with QoS 1, from the connection to the exit.
use rust_mq.Base.{ℕ, suc, ◌≡◌, refl, ◌∙◌, ap, [], ◌∷◌, Option, none, some, false}
use rust_mq.Outcome.{ok, done, failed}
use rust_mq.Mqtt3.Bytes.{Bytes, Text}
use rust_mq.Mqtt3.Qos.{at_most_once, at_least_once}
use rust_mq.Mqtt3.Qos
use rust_mq.Mqtt3.PacketIdentifier.{next}
use rust_mq.Mqtt3.ConnectReturnCode.{accepted}
use rust_mq.Mqtt3.Packet.{Packet, Connect, Connack}
use rust_mq.Mqtt3.Topic.{TopicPath, to_topic_name, text}
use rust_mq.Mqtt3.Message.{Message, to_pub}
use rust_mq.Mqttc.PubOpt.{PubOpt, new-parts}
use rust_mq.Mqttc.PubOpt
use rust_mq.Mqttc.Store.{LocalStorage, local_storage}
use rust_mq.Mqttc.Network.{Network}
use rust_mq.Mqttc.Options.{ClientOptions, generate_connect_packet}
use rust_mq.Mqttc.Client.{
  Client, connected, is_connected, normalized, write_packet, flush, next_pid,
}
use rust_mq.Mqttc.Client.Incoming.{on_puback, parse_in, parse_packet}
use rust_mq.Mqttc.Client.Outgoing.{publish, publish_packet, enqueue}
use rust_mq.Mqttc.Client.Life.{accept_in, accept, await_round, await, with_id, fresh}
use rust_mq.Mqttc.Client.Life.Handshake.{Armed, in_time-flushed, connect-accepted}
use rust_mq.Mqttc.Client.Flow.Acknowledge.{acknowledged_message}
use rust_mq.Command.Ending.{socket_address}
use rust_mq.Command.Publish.{PublishCommand}
use rust_mq.Command.Publish.Run.{Files, options_of, send, wait, finish, run}

module _ {N C : Type 0} (net : Network N) (files : Files) (cmd : PublishCommand C) where
  abbrev pubopt : PubOpt
  pubopt = PubOpt.new cmd.qos cmd.retain

  -- The message that is sent, with the first packet identifier of a new client.
  abbrev pub sent : TopicPath → Bytes → Message
  sent path payload = acknowledged_message net local_storage path payload pubopt (next 0)

  abbrev waiting : Client N LocalStorage → Message → N → Client N LocalStorage
  waiting c m n = record c {
    last_pid = next 0;
    outgoing_ack = m ∷ [];
    conn = n;
    last_flush = net.now n;
  }

  send_lem :
      (c : Client N LocalStorage) (path : TopicPath) (payload : Bytes) (n n' : N)
      → c.last_pid ≡ 0
      → c.outgoing_ack ≡ []
      → cmd.qos ≡ at_least_once
      → cmd.message ≡ some payload
      → to_topic_name (text cmd.topic) ≡ ok path
      → net.write_packet (Packet.publish (to_pub (sent path payload) none false)) c.conn ≡ done tt n
      → net.flush n ≡ done tt n'
      → send net files cmd c ≡ done tt (waiting c (sent path payload) n')
  unfolding send publish publish_packet enqueue next_pid write_packet flush
  send_lem c path payload n n' pid q level message name written flushed =
      rw (message, name, (new-parts cmd.qos cmd.retain).0 ∙ level, pid, q, written, flushed) refl

  -- The client that `connect` returns to the command.
  abbrev opened : ClientOptions LocalStorage → Connack → N → N → Client N LocalStorage
  opened opts k n n' = record (fresh net local_storage opts n') {
    state = connected;
    session_present = k.session_present;
    last_flush = net.now n;
  }

  wait_lem :
      (opts : ClientOptions LocalStorage) (k : Connack) (path : TopicPath) (payload : Bytes)
      (fuel rounds : ℕ) (n₃ n₅ n₇ n₈ n₉ : N)
      → Armed net local_storage opts.keep_alive n₇ n₈
      → net.read_packet n₈ ≡ done (Packet.puback (next 0)) n₉
      → wait net (suc fuel) (suc rounds) (waiting (opened opts k n₃ n₅) (sent path payload) n₇)
        ≡ done tt (record (waiting (opened opts k n₃ n₅) (sent path payload) n₇) {
          outgoing_ack = [];
          conn = n₉;
        })
  unfolding wait await accept accept_in await_round parse_packet parse_in on_puback normalized
      is_connected next
  wait_lem opts k path payload fuel rounds n₃ n₅ n₇ n₈ n₉ armed answered =
      let c = waiting (opened opts k n₃ n₅) (sent path payload) n₇ in
      rw (in_time-flushed net local_storage opts.keep_alive c n₈ refl armed, answered) refl

  -- The publish command with QoS 1 and a message, where the topic is a topic name: on a network that
  -- connects, sends, flushes and takes the keep-alive time as its timeout, and from which first a
  -- CONNACK that accepts and then the PUBACK with the first packet identifier are read, the command
  -- exits with the status 0, no message waits any more, and the network is the one that these steps
  -- alone lead to. One round of each of the loops is enough.
  pub run-delivered :
      (fuel rounds : ℕ) (generated : Text) (dial : Text → Option C → N)
      (opts : ClientOptions LocalStorage) (packet : Connect) (k : Connack) (path : TopicPath)
      (payload : Bytes) (n₁ n₂ n₃ n₄ n₅ n₆ n₇ n₈ n₉ : N)
      → cmd.qos ≡ at_least_once
      → cmd.message ≡ some payload
      → to_topic_name (text cmd.topic) ≡ ok path
      → with_id net local_storage (options_of cmd).client_id generated (options_of cmd) ≡ opts
      → generate_connect_packet opts ≡ some packet
      → net.connect opts.keep_alive (dial (socket_address cmd.address cmd.port) cmd.ssl_context)
        ≡ done tt n₁
      → net.write_packet (Packet.connect packet) n₁ ≡ done tt n₂
      → net.flush n₂ ≡ done tt n₃
      → Armed net local_storage opts.keep_alive n₃ n₄
      → net.read_packet n₄ ≡ done (Packet.connack k) n₅
      → k.code ≡ accepted
      → net.write_packet (Packet.publish (to_pub (sent path payload) none false)) n₅ ≡ done tt n₆
      → net.flush n₆ ≡ done tt n₇
      → Armed net local_storage opts.keep_alive n₇ n₈
      → net.read_packet n₈ ≡ done (Packet.puback (next 0)) n₉
      → (c : Client N LocalStorage) × (run net files cmd (suc fuel) (suc rounds) generated dial
          ≡ failed 0 c)
        × (c.conn ≡ n₉)
        × (c.outgoing_ack ≡ [])
  unfolding run finish Qos.eq
  run-delivered fuel rounds generated dial opts packet k path payload n₁ n₂ n₃ n₄ n₅ n₆ n₇ n₈ n₉
        level message name same made dialled asked flushed armed answered code sent_it flushed_it
        armed_again acknowledged =
      (
        record (waiting (opened opts k n₃ n₅) (sent path payload) n₇) {
          outgoing_ack = [];
          conn = n₉;
        },
        rw
            (
              connect-accepted net local_storage fuel generated (options_of cmd) opts packet k
                  (dial (socket_address cmd.address cmd.port) cmd.ssl_context) n₁ n₂ n₃ n₄ n₅ same
                  made dialled asked flushed armed answered code,
              send_lem (opened opts k n₃ n₅) path payload n₆ n₇ refl refl level message name sent_it
                  flushed_it,
              ap (λ q. Qos.eq q at_most_once) level,
              wait_lem opts k path payload fuel rounds n₃ n₅ n₇ n₈ n₉ armed_again acknowledged,
            )
            refl,
        refl,
        refl,
      )
