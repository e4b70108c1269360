-- ===== src/Mqttc/Sub.antt =====
-- mqttc/src/sub.rs: subscriptions, and the arguments of `subscribe` and `unsubscribe`.
use rust_mq.Base.{List, [], ◌∷◌}
use rust_mq.Mqtt3.Bytes.{Text}
use rust_mq.Mqtt3.Qos.{Qos, at_least_once}
use rust_mq.Mqtt3.PacketIdentifier.{PacketIdentifier}
use rust_mq.Mqtt3.Packet.{SubscribeTopic}
use rust_mq.Mqtt3.Topic.{TopicPath}

pub record Subscription : Type 0 where
  pub pid : PacketIdentifier
  pub topic_path : TopicPath
  pub qos : Qos

unfoldable pub to_subscribe_topic : Subscription → SubscribeTopic
to_subscribe_topic s = record { topic_path = s.topic_path.path; qos = s.qos }

-- `MAX_QOS` of mqttc/src/lib.rs.
abbrev max_qos : Qos
max_qos = at_least_once

-- The types that are a `ToSubTopics` or a `ToUnSubTopics`, and what they are turned into.
pub data ToSubTopics : Type 0 where
  topic : SubscribeTopic → ToSubTopics
  topics : List SubscribeTopic → ToSubTopics
  text : Text → ToSubTopics
  with_qos : Text → Qos → ToSubTopics

unfoldable pub to_subscribe_topics : ToSubTopics → List SubscribeTopic
to_subscribe_topics (topic t) = t ∷ []
to_subscribe_topics (topics ts) = ts
to_subscribe_topics (text s) = record { topic_path = s; qos = max_qos } ∷ []
to_subscribe_topics (with_qos s q) = record { topic_path = s; qos = q } ∷ []

pub data ToUnSubTopics : Type 0 where
  names : List Text → ToUnSubTopics
  name : Text → ToUnSubTopics

unfoldable pub to_unsubscribe_topics : ToUnSubTopics → List Text
to_unsubscribe_topics (names ts) = ts
to_unsubscribe_topics (name t) = t ∷ []
