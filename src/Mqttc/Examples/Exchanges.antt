-- ===== src/Mqttc/Examples/Exchanges.antt =====
-- One message of QoS 1, a SUBACK and an UNSUBACK on the network of packets.
use rust_mq.Base.{◌≡◌, refl, false, [], ◌∷◌, ◌++◌, none, bytes_eq, if◌then◌else◌}
use rust_mq.Outcome.{done}
use rust_mq.Mqtt3.Bytes.{Text}
use rust_mq.Mqtt3.Qos.{at_least_once, exactly_once}
use rust_mq.Mqtt3.PacketIdentifier.{next}
use rust_mq.Mqtt3.Packet.{Packet, Subscribe, Suback, Unsubscribe, success, failure}
use rust_mq.Mqtt3.Samples.{codes}
use rust_mq.Mqtt3.Topic.{text, any}
use rust_mq.Mqtt3.TopicExamples.{plain_path}
use rust_mq.Mqtt3.Message.{Message, or_else, to_pub}
use rust_mq.Mqttc.PubOpt
use rust_mq.Mqttc.Store.{LocalStorage, local_storage}
use rust_mq.Mqttc.Client.{Client}
use rust_mq.Mqttc.Client.Outgoing.{publish}
use rust_mq.Mqttc.Client.Incoming.{parse_packet}
use rust_mq.Mqttc.Client.Incoming.Subscriptions.{
  subscribed_to, qos_of, granted, suback-granted, unsuback-removed,
}
use rust_mq.Mqttc.Client.Flow.Acknowledge.{acknowledged_message, at_least_once-publish}
use rust_mq.Mqttc.Examples.{Script, script, accepted_client, plain_name, plain_str}

abbrev waiting_message : Message
waiting_message =
    acknowledged_message script local_storage plain_path (1 ∷ []) PubOpt.at_least_once (next 0)

at_least_once_level : PubOpt.qos PubOpt.at_least_once ≡ at_least_once
unfolding PubOpt.qos
at_least_once_level = refl

abbrev publishing : Script
publishing = record accepted_client.conn {
  output = accepted_client.conn.output ++ Packet.publish (to_pub waiting_message none false) ∷ [];
}

at_least_once-publish_example :
    (c₁ c₂ : Client Script LocalStorage) × (publish script local_storage
        (text (codes "a/b"))
        (1 ∷ [])
        PubOpt.at_least_once
        accepted_client
      ≡ done tt c₁)
    × (c₁.outgoing_ack ≡ waiting_message ∷ [])
    × (c₁.conn ≡ publishing)
    × (parse_packet script local_storage (Packet.puback (next 0)) c₁ ≡ done none c₂)
    × (c₂.outgoing_ack ≡ [])
at_least_once-publish_example =
    at_least_once-publish script local_storage accepted_client (text (codes "a/b")) plain_path
      (1 ∷ []) PubOpt.at_least_once publishing publishing plain_name at_least_once_level refl refl
      refl refl

abbrev sent_subscribe : Subscribe
sent_subscribe = record {
  pid = 3;
  topics =
      record { topic_path = codes "a/b"; qos = exactly_once }
      ∷ record { topic_path = codes "a/b"; qos = at_least_once }
      ∷ [];
}

abbrev answer : Suback
answer = record { pid = 3; return_codes = success exactly_once ∷ failure ∷ [] }

abbrev subscribing_client : Client Script LocalStorage
subscribing_client = record accepted_client { await_suback = sent_subscribe ∷ [] }

suback-granted_example :
    (c : Client Script LocalStorage) × (parse_packet script local_storage
        (Packet.suback answer)
        subscribing_client
      ≡ done none c)
    × (c.await_suback ≡ [])
    × ((t : Text)
        → qos_of (subscribed_to t c.subscriptions)
          ≡ or_else
              (granted t answer.return_codes sent_subscribe.topics)
              (qos_of (subscribed_to t [])))
suback-granted_example =
    suback-granted script local_storage subscribing_client sent_subscribe [] answer refl refl refl
      refl ((plain_path, plain_str), ((plain_path, plain_str), tt))

abbrev sent_unsubscribe : Unsubscribe
sent_unsubscribe = record { pid = 4; topics = codes "a/b" ∷ [] }

abbrev unsubscribing_client : Client Script LocalStorage
unsubscribing_client = record accepted_client { await_unsuback = sent_unsubscribe ∷ [] }

unsuback-removed_example :
    (c : Client Script LocalStorage) × (parse_packet script local_storage
        (Packet.unsuback 4)
        unsubscribing_client
      ≡ done none c)
    × (c.await_unsuback ≡ [])
    × ((t : Text)
        → subscribed_to t c.subscriptions
          ≡ (if any (bytes_eq t) sent_unsubscribe.topics then none else subscribed_to t []))
unsuback-removed_example =
    unsuback-removed script local_storage unsubscribing_client sent_unsubscribe [] refl refl
