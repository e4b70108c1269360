-- ===== src/Mqttc/Client/Outgoing.antt =====
-- What the user asks of `Client` in mqttc/src/client.rs: publish, subscribe, unsubscribe, complete and
-- disconnect; the arguments of mqttc/src/sub.rs.
pub mod Safety
use rust_mq.Base.{
  ℕ, ◌==◌, Bool, true, false, List, [], ◌∷◌, ◌++◌, Option, none, some, if◌then◌else◌,
}
use rust_mq.Outcome.{
  Result, ok, err, Outcome, done, failed, panicked, stuck, Action, ◌>>=◌, ◌>>◌, pure, fail,
}
use rust_mq.Mqtt3.Bytes.{Bytes, Text}
use rust_mq.Mqtt3.Errors
use rust_mq.Mqtt3.Qos.{Qos, at_most_once, at_least_once, exactly_once}
use rust_mq.Mqtt3.PacketIdentifier.{PacketIdentifier}
use rust_mq.Mqtt3.Packet.{Packet, Subscribe, SubscribeTopic, Unsubscribe}
use rust_mq.Mqtt3.Topic.{TopicPath, ToTopicPath, to_topic_name}
use rust_mq.Mqtt3.Message.{Message, to_pub}
use rust_mq.Mqttc.Errors.{
  Error, from_mqtt, outgoing_storage_absent, incomming_storage_absent, protocol_violation,
}
use rust_mq.Mqttc.PubOpt.{PubOpt}
use rust_mq.Mqttc.PubOpt
use rust_mq.Mqttc.Store.{Store}
use rust_mq.Mqttc.Network.{Network}
use rust_mq.Mqttc.Sub.{ToSubTopics, to_subscribe_topics, ToUnSubTopics, to_unsubscribe_topics}
use rust_mq.Mqttc.Client.{
  Client, Method, push_back, write_packet, flush, next_pid, on_outgoing, on_incomming,
}

-- `try!` on a result of mqtt3.
abbrev pub from_mqtt3 : {N S A : Type 0} → Result Errors.Error A → Method N S A
from_mqtt3 (ok a) c = done a c
from_mqtt3 (err e) c = failed (from_mqtt e) c

-- `VecDeque::pop_back`: the last element and the others.
unfoldable pub pop_back : {A : Type 0} → List A → Option (A × List A)
pop_back [] = none
pop_back (x ∷ xs) = elim (pop_back xs) [ none ↦ some (x, []) | some e ↦ some (e.0, x ∷ e.1) ]

abbrev pub has_pid : Option PacketIdentifier → PacketIdentifier → Bool
has_pid none pid = false
has_pid (some p) pid = p == pid

module _ {N S : Type 0} (net : Network N) (store : Store S) where
  abbrev pub with_pid : Message → PacketIdentifier → Message
  with_pid message pid = record message { pid = some pid }

  abbrev acknowledged : Message → PacketIdentifier × Client N S → Outcome Error (Client N S) Message
  acknowledged message (pid, c) =
      done (with_pid message pid)
        (record c { outgoing_ack = push_back c.outgoing_ack (with_pid message pid) })

  abbrev received : Message → Method N S Message
  received message c = done message (record c { outgoing_rec = push_back c.outgoing_rec message })

  abbrev kept_for_release :
      Message → PacketIdentifier × Client N S → Outcome Error (Client N S) Message
  kept_for_release message (pid, c) =
      (on_outgoing (store.put (with_pid message pid)) outgoing_storage_absent
          >> received (with_pid message pid))
        c

  -- The `match message.qos`: the message as it is sent.
  unfoldable pub enqueue : Qos → Message → Method N S Message
  unfolding next_pid on_outgoing
  enqueue at_most_once message c = done message c
  enqueue at_least_once message c = acknowledged message (next_pid c)
  enqueue exactly_once message c = kept_for_release message (next_pid c)

  -- `_publish`.
  unfoldable pub publish_packet : ToTopicPath → Bytes → PubOpt → Method N S (Unit {0})
  unfolding PubOpt.qos PubOpt.is_retain to_pub
  publish_packet topic payload pubopt = do
    topic_name ← from_mqtt3 (to_topic_name topic)
    message ← enqueue (PubOpt.qos pubopt) (record {
      topic = topic_name;
      qos = PubOpt.qos pubopt;
      retain = PubOpt.is_retain pubopt;
      pid = none;
      payload = payload;
    })
    write_packet net (Packet.publish (to_pub message none false))

  unfoldable pub publish : ToTopicPath → Bytes → PubOpt → Method N S (Unit {0})
  unfolding publish_packet
  publish topic payload pubopt = publish_packet topic payload pubopt >> flush net

  -- `complete`: the last identifier of `incomming_rel` is taken.
  abbrev completed :
      PacketIdentifier
      → Client N S
      → Option (PacketIdentifier × List PacketIdentifier)
      → Outcome Error (Client N S) (Unit {0})
  completed pid c none = failed protocol_violation c
  completed pid c (some (same_pid, others)) =
      if same_pid == pid
      then (write_packet net (Packet.pubcomp pid)
            >> flush net
            >> on_incomming (store.delete pid) incomming_storage_absent)
          (record c { incomming_rel = others })
      else failed protocol_violation (record c { incomming_rel = others })

  unfoldable pub complete : PacketIdentifier → Method N S (Unit {0})
  unfolding pop_back on_incomming
  complete pid c = completed pid c (pop_back c.incomming_rel)

module _ {N S : Type 0} (net : Network N) where
  abbrev subscribed :
      List SubscribeTopic → PacketIdentifier × Client N S → Outcome Error (Client N S) (Unit {0})
  subscribed topics (pid, c) =
      write_packet net (Packet.subscribe (record { pid = pid; topics = topics })) (record c {
        await_suback = push_back c.await_suback (record { pid = pid; topics = topics });
      })

  -- `_subscribe`.
  unfoldable pub subscribe_packet : ToSubTopics → Method N S (Unit {0})
  unfolding to_subscribe_topics next_pid
  subscribe_packet subs c = subscribed (to_subscribe_topics subs) (next_pid c)

  unfoldable pub subscribe : ToSubTopics → Method N S (Unit {0})
  unfolding subscribe_packet
  subscribe subs = subscribe_packet subs >> flush net

  abbrev unsubscribed :
      List Text → PacketIdentifier × Client N S → Outcome Error (Client N S) (Unit {0})
  unsubscribed topics (pid, c) =
      write_packet net (Packet.unsubscribe (record { pid = pid; topics = topics })) (record c {
        await_unsuback = push_back c.await_unsuback (record { pid = pid; topics = topics });
      })

  -- `_unsubscribe`.
  unfoldable pub unsubscribe_packet : ToUnSubTopics → Method N S (Unit {0})
  unfolding to_unsubscribe_topics next_pid
  unsubscribe_packet unsubs c = unsubscribed (to_unsubscribe_topics unsubs) (next_pid c)

  unfoldable pub unsubscribe : ToUnSubTopics → Method N S (Unit {0})
  unfolding unsubscribe_packet
  unsubscribe unsubs = unsubscribe_packet unsubs >> flush net

  -- `disconnect` flushes what is written; it sends no DISCONNECT.
  unfoldable pub disconnect : Method N S (Unit {0})
  disconnect = flush net
