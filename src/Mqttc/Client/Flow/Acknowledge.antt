-- ===== src/Mqttc/Client/Flow/Acknowledge.antt =====
-- A message published with QoS 1 in mqttc/src/client.rs, and its PUBACK.
use rust_mq.Base.{◌≡◌, refl, false, [], ◌∷◌, none, some}
use rust_mq.Outcome.{ok, done}
use rust_mq.Mqtt3.Bytes.{Bytes}
use rust_mq.Mqtt3.Qos.{at_least_once}
use rust_mq.Mqtt3.PacketIdentifier.{PacketIdentifier, next}
use rust_mq.Mqtt3.Packet.{Packet}
use rust_mq.Mqtt3.Topic.{TopicPath, ToTopicPath, to_topic_name}
use rust_mq.Mqtt3.Message.{Message, to_pub}
use rust_mq.Mqttc.PubOpt.{PubOpt}
use rust_mq.Mqttc.PubOpt
use rust_mq.Mqttc.Store.{Store}
use rust_mq.Mqttc.Network.{Network}
use rust_mq.Mqttc.Client.{Client, connected, write_packet, flush, next_pid}
use rust_mq.Mqttc.Client.Outgoing.{publish, publish_packet, enqueue}
use rust_mq.Mqttc.Client.Incoming.{on_puback, parse_in, parse_packet}
use rust_mq.Mqttc.Client.Flow.{self}

module _ {N S : Type 0} (net : Network N) (store : Store S) where
  abbrev pub acknowledged_message : TopicPath → Bytes → PubOpt → PacketIdentifier → Message
  acknowledged_message path payload pubopt pid = record {
    topic = path;
    qos = at_least_once;
    retain = PubOpt.is_retain pubopt;
    pid = some pid;
    payload = payload;
  }

  -- Publishing with QoS 1, with no other message in the queue: just the PUBLISH of the message with
  -- the next packet identifier is written to the connection and flushed; the message waits in the
  -- queue, and the PUBACK for it empties the queue.
  pub at_least_once-publish :
      (c : Client N S) (topic : ToTopicPath) (path : TopicPath) (payload : Bytes) (pubopt : PubOpt)
      (n₁ n₂ : N)
      → to_topic_name topic ≡ ok path
      → PubOpt.qos pubopt ≡ at_least_once
      → c.state ≡ connected
      → c.outgoing_ack ≡ []
      → net.write_packet
          (Packet.publish
            (to_pub (acknowledged_message path payload pubopt (next c.last_pid)) none false))
          c.conn
        ≡ done tt n₁
      → net.flush n₁ ≡ done tt n₂
      → (c₁ c₂ : Client N S) × (publish net store topic payload pubopt c ≡ done tt c₁)
        × (c₁.outgoing_ack ≡ acknowledged_message path payload pubopt (next c.last_pid) ∷ [])
        × (c₁.conn ≡ n₂)
        × (parse_packet net store (Packet.puback (next c.last_pid)) c₁ ≡ done none c₂)
        × (c₂.outgoing_ack ≡ [])
  unfolding publish publish_packet enqueue next_pid write_packet flush parse_packet parse_in
      on_puback
  at_least_once-publish c topic path payload pubopt n₁ n₂ name level st q sent flushed =
      let m = acknowledged_message path payload pubopt (next c.last_pid) in
      let c₁ = record c {
        last_pid = next c.last_pid;
        outgoing_ack = m ∷ [];
        conn = n₂;
        last_flush = net.now n₂;
      } in
      (
        c₁,
        record c₁ { outgoing_ack = [] },
        rw (name, level, q, sent, flushed) refl,
        refl,
        refl,
        rw (st, self (next c.last_pid)) refl,
        refl,
      )
