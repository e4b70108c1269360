-- ===== src/Mqttc/Client/Outgoing/Safety.antt =====
-- The calls of the user on `Client` in mqttc/src/client.rs keep the client valid.
use rust_mq.Base.{
  ◌==◌, ◌≡◌, refl, false, List, [], ◌∷◌, Option, none, All-append, Bool-cases, Option-cases, inl,
  inr, arith,
}
use rust_mq.Mqtt3.Bytes.{Bytes, Text, IsU16}
use rust_mq.Mqtt3.Qos.{Qos, at_most_once, at_least_once, exactly_once}
use rust_mq.Mqtt3.PacketIdentifier.{PacketIdentifier, next}
use rust_mq.Mqtt3.Packet.{Packet}
use rust_mq.Mqtt3.Topic.{ToTopicPath, to_topic_name}
use rust_mq.Mqtt3.Message.{Message, to_pub}
use rust_mq.Mqttc.Errors.{outgoing_storage_absent, incomming_storage_absent}
use rust_mq.Mqttc.PubOpt.{PubOpt}
use rust_mq.Mqttc.PubOpt
use rust_mq.Mqttc.Store.{Store}
use rust_mq.Mqttc.Network.{Network}
use rust_mq.Mqttc.Sub.{ToSubTopics, ToUnSubTopics}
use rust_mq.Mqttc.Client.{Client, write_packet, flush, ping, next_pid}
use rust_mq.Mqttc.Client.Outgoing.{
  from_mqtt3, pop_back, with_pid, enqueue, publish_packet, publish, complete, subscribe_packet,
  subscribe, unsubscribe_packet, unsubscribe,
}
use rust_mq.Mqttc.Client.Invariant.{
  Queued, Valid, IsValid, Holds, Sends, Calm, Holds-bind, write_packet-Holds, flush-Holds,
  on_incomming-Holds, on_outgoing-Holds,
}
use rust_mq.Mqttc.Client.Incoming.Arms.{from_mqtt3-Holds}

next-IsU16 : (p : PacketIdentifier) → IsU16 (next p)
unfolding next
next-IsU16 p = omega arith

moved :
    {id : Option Text} {pid : PacketIdentifier} {acks recs held : List Message}
    → Valid id pid acks recs held
    → Valid id (next pid) acks recs held
moved {pid} v = record {
  has_id = v.has_id;
  last_pid = next-IsU16 pid;
  acks_Queued = v.acks_Queued;
  recs_Queued = v.recs_Queued;
  held_Queued = v.held_Queued;
}

module _ (Bad : Type 0) {N S : Type 0} (net : Network N) (store : Store S)
    (calm : Calm Bad net store)
    (sends : (p : Packet) (n : N) → Sends Bad (net.write_packet p n)) where
  pub flush-safe : (c : Client N S) → IsValid c → Holds Bad (flush net c)
  flush-safe c v = flush-Holds Bad net c (calm.flush_Answers c.conn) v

  pub write-safe : (p : Packet) (c : Client N S) → IsValid c → Holds Bad (write_packet net p c)
  write-safe p c v = write_packet-Holds Bad net p c (sends p c.conn) v

  enqueue-Holds :
      (q : Qos) (m : Message) (c : Client N S)
      → m.qos ≡ q
      → IsValid c
      → Holds Bad (enqueue net store q m c)
  unfolding enqueue next_pid
  enqueue-Holds at_most_once m c e v = v
  enqueue-Holds at_least_once m c e v = record {
    has_id = v.has_id;
    last_pid = next-IsU16 c.last_pid;
    acks_Queued =
        All-append (Queued at_least_once) c.outgoing_ack
          (with_pid net store m (next c.last_pid) ∷ []) v.acks_Queued ((e, tt), tt);
    recs_Queued = v.recs_Queued;
    held_Queued = v.held_Queued;
  }
  enqueue-Holds exactly_once m c e v =
      let sent = with_pid net store m (next c.last_pid) in
      Holds-bind Bad _ _
        (on_outgoing-Holds Bad (store.put sent) outgoing_storage_absent
          (record c { last_pid = next c.last_pid }) (λ t. calm.put_Answers sent t tt) (moved v))
        λ _ c' w. record {
          has_id = w.has_id;
          last_pid = w.last_pid;
          acks_Queued = w.acks_Queued;
          recs_Queued =
              All-append (Queued exactly_once) c'.outgoing_rec (sent ∷ []) w.recs_Queued
                ((e, tt), tt);
          held_Queued = w.held_Queued;
        }

  publish_packet-Holds :
      (t : ToTopicPath) (payload : Bytes) (o : PubOpt) (c : Client N S)
      → IsValid c
      → Holds Bad (publish_packet net store t payload o c)
  unfolding publish_packet
  publish_packet-Holds t payload o c v =
      Holds-bind Bad (from_mqtt3 (to_topic_name t) c) _ (from_mqtt3-Holds Bad (to_topic_name t) c v)
        λ path c₁ v₁.
          Holds-bind Bad _ _ (enqueue-Holds (PubOpt.qos o) _ c₁ refl v₁)
            λ m c₂ v₂. write-safe (Packet.publish (to_pub m none false)) c₂ v₂

  pub publish-Holds :
      (t : ToTopicPath) (payload : Bytes) (o : PubOpt) (c : Client N S)
      → IsValid c
      → Holds Bad (publish net store t payload o c)
  unfolding publish
  publish-Holds t payload o c v =
      Holds-bind Bad (publish_packet net store t payload o c) _
        (publish_packet-Holds t payload o c v) λ _ c' w. flush-safe c' w

  pub complete-Holds :
      (pid : PacketIdentifier) (c : Client N S) → IsValid c → Holds Bad (complete net store pid c)
  unfolding complete
  complete-Holds pid c v = elim (Option-cases (pop_back c.incomming_rel)) [
    | inl e ↦ rw e v
    | inr ((same_pid, others), e) ↦ rw e (elim (Bool-cases (same_pid == pid)) [
      | inr d ↦ rw d v
      | inl d ↦ rw d (
          Holds-bind Bad _ _
            (Holds-bind Bad _ _ (write-safe (Packet.pubcomp pid) _ v) λ _ c' w. flush-safe c' w)
            λ _ c' w.
              on_incomming-Holds Bad (store.delete pid) incomming_storage_absent c'
                (calm.delete_Answers pid) w)
    ])
  ]

  pub subscribe_packet-Holds :
      (subs : ToSubTopics) (c : Client N S) → IsValid c → Holds Bad (subscribe_packet net subs c)
  unfolding subscribe_packet next_pid
  subscribe_packet-Holds subs c v = write-safe _ _ (moved v)

  pub subscribe-Holds :
      (subs : ToSubTopics) (c : Client N S) → IsValid c → Holds Bad (subscribe net subs c)
  unfolding subscribe
  subscribe-Holds subs c v =
      Holds-bind Bad (subscribe_packet net subs c) _ (subscribe_packet-Holds subs c v)
        λ _ c' w. flush-safe c' w

  pub unsubscribe-Holds :
      (unsubs : ToUnSubTopics) (c : Client N S) → IsValid c → Holds Bad (unsubscribe net unsubs c)
  unfolding unsubscribe unsubscribe_packet next_pid
  unsubscribe-Holds unsubs c v =
      Holds-bind Bad _ _ (write-safe _ _ (moved v)) λ _ c' w. flush-safe c' w

  pub ping-Holds : (c : Client N S) → IsValid c → Holds Bad (ping net c)
  unfolding ping
  ping-Holds c v = Holds-bind Bad _ _ (write-safe Packet.pingreq _ v) λ _ c' w. flush-safe c' w
