-- ===== src/Mqttc/Wire/Exchange.antt =====
-- Two clients of mqttc, each at an end of a stream of bytes: a message of QoS 1 from the call of
-- `publish` at one end to the message that `accept` returns at the other, and its PUBACK on the way
-- back.
use rust_mq.Base.{◌+◌, ◌≤◌, ◌≡◌, ◌≢◌, refl, ap, ◌∙◌, false, [], ◌++◌, none, some, length}
use rust_mq.Outcome.{ok, done}
use rust_mq.Mqtt3.Bytes.{Bytes, Text, IsShort, max_payload_size}
use rust_mq.Mqtt3.Qos.{at_least_once}
use rust_mq.Mqtt3.PacketIdentifier.{next}
use rust_mq.Mqtt3.Packet.{Packet}
use rust_mq.Mqtt3.Codec.RoundTrip.{packet_bytes}
use rust_mq.Mqtt3.Topic.{TopicPath, text, to_topic_name}
use rust_mq.Mqtt3.Topic.Paths.{to_topic_name-IsName, IsPath→from_str, All-any}
use rust_mq.Mqtt3.Message.{to_pub}
use rust_mq.Mqttc.PubOpt.{PubOpt}
use rust_mq.Mqttc.PubOpt
use rust_mq.Mqttc.Store.{Store}
use rust_mq.Mqttc.Client.{Client, Method, connected}
use rust_mq.Mqttc.Client.Outgoing.{publish}
use rust_mq.Mqttc.Client.Life.{accept}
use rust_mq.Mqttc.Wire.{Wire, wire}
use rust_mq.Mqttc.Wire.Ends.{
  carried, publishing, publish-wire, meeting, carried-Fits, deliver-wire, acknowledge-wire,
}

-- Two connected clients, each at an end of a stream of bytes with nothing on it, with no message of QoS
-- 1 on its way: what the first publishes with QoS 1 under a topic name, of a size that a packet can
-- have, the second returns to its user as the same message, with the same topic, payload, retain flag
-- and packet identifier; it has read just the bytes that the first has sent, and the bytes that it
-- sends back take the message off the queue of the first.
pub publish-accept :
    {S S' : Type 0} (store : Store S) (store' : Store S') (again : Method Wire S (Unit {0}))
    (again' : Method Wire S' (Unit {0})) (c : Client Wire S) (d : Client Wire S') (name : Text)
    (path : TopicPath) (payload : Bytes) (pubopt : PubOpt)
    → c.state ≡ connected
    → c.opts.keep_alive ≢ some 0
    → c.outgoing_ack ≡ []
    → c.conn.outgoing ≡ []
    → d.state ≡ connected
    → d.last_flush ≡ 0
    → d.opts.keep_alive ≢ some 0
    → d.incomming_pub ≡ []
    → d.conn.outgoing ≡ []
    → to_topic_name (text name) ≡ ok path
    → PubOpt.qos pubopt ≡ at_least_once
    → IsShort name
    → length name + 4 + length payload ≤ max_payload_size
    → (c₁ c₂ : Client Wire S) × (d₁ : Client Wire S') × (publish wire store
          (text name)
          payload
          pubopt
          c
        ≡ done tt c₁)
      × (accept wire store' again' (meeting d c₁.conn.outgoing)
          ≡ done
              (some (record {
                topic = path;
                qos = at_least_once;
                retain = PubOpt.is_retain pubopt;
                pid = some (next c.last_pid);
                payload = payload;
              }))
              d₁)
      × (d₁.conn.incoming ≡ [])
      × (d₁.incomming_pub ≡ [])
      × (accept wire store again (meeting c₁ d₁.conn.outgoing) ≡ done none c₂)
      × (c₂.outgoing_ack ≡ [])
publish-accept store store' again again' c d name path payload pubopt c_st c_alive c_q c_out d_st
      d_flushed d_alive d_q d_out named level short size =
    let (same, is_path, names) = (to_topic_name-IsName name path).0 named in
    let m = carried store path payload pubopt c in
    let bytes = packet_bytes (Packet.publish (to_pub m none false)) in
    let c₁ = publishing store c m in
    let fits = carried-Fits store c path payload pubopt (rw same short) (rw same size) in
    let (d₁, delivered_it, read_all, back, d_empty) =
      deliver-wire store' again' d path payload pubopt (next c.last_pid) d_st d_flushed d_alive d_q
        d_out (IsPath→from_str path is_path) (is_path.flag ∙ All-any path.topics names) fits in
    let (c₂, acknowledged, c_empty) =
      acknowledge-wire store again c₁ m (next c.last_pid) c_st refl c_alive refl refl in
    (
      c₁,
      c₂,
      d₁,
      publish-wire store c name path payload pubopt named level c_q fits,
      ap (λ (o : Bytes). accept wire store' again' (meeting d (o ++ bytes))) c_out ∙ delivered_it,
      read_all,
      d_empty,
      ap (λ (o : Bytes). accept wire store again (meeting c₁ o)) back ∙ acknowledged,
      c_empty,
    )
