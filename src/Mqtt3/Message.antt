-- ===== src/Mqtt3/Message.antt =====
-- mqtt3/src/msg.rs: application messages.
pub mod Publishing
use rust_mq.Base.{ℕ, Bool, Option, none, some, if◌then◌else◌}
use rust_mq.Outcome.{
  Result, ok, err, Outcome, done, failed, panicked, Action, ◌>>=◌, pure, fail, unwrap,
}
use rust_mq.Mqtt3.Bytes.{Bytes}
use rust_mq.Mqtt3.Errors.{Error, topic_name_must_not_contain_wildcard}
use rust_mq.Mqtt3.Qos.{Qos}
use rust_mq.Mqtt3.PacketIdentifier.{PacketIdentifier}
use rust_mq.Mqtt3.Packet.{LastWill, Publish}
use rust_mq.Mqtt3.Topic.{TopicPath, from_str}

pub record Message : Type 0 where
  pub topic : TopicPath
  pub qos : Qos
  pub retain : Bool
  pub pid : Option PacketIdentifier
  pub payload : Bytes

-- `Option::unwrap_or` and `Option::or`.
abbrev pub unwrap_or : {A : Type 0} → Option A → A → A
unwrap_or none a = a
unwrap_or (some b) a = b

abbrev pub or_else : {A : Type 0} → Option A → Option A → Option A
or_else none b = b
or_else (some a) b = some a

-- `TopicPath::from` unwraps the result of `from_str`.
unfoldable pub from_pub : {S : Type 0} → Publish → Action Error S Message
from_pub publish = do
  topic ← unwrap (from_str publish.topic_name)
  (if topic.wildcards
      then fail topic_name_must_not_contain_wildcard
      else pure (record {
        topic = topic;
        qos = publish.qos;
        retain = publish.retain;
        pid = publish.pid;
        payload = publish.payload;
      }))

unfoldable pub from_last_will : {S : Type 0} → LastWill → Action Error S Message
from_last_will last_will = do
  topic ← unwrap (from_str last_will.topic)
  pure (record {
    topic = topic;
    qos = last_will.qos;
    retain = last_will.retain;
    pid = none;
    payload = last_will.message;
  })

unfoldable pub to_pub : Message → Option Qos → Bool → Publish
to_pub m qos dup = record {
  dup = dup;
  qos = unwrap_or qos m.qos;
  retain = m.retain;
  topic_name = m.topic.path;
  pid = m.pid;
  payload = m.payload;
}

unfoldable pub transform : Message → Option PacketIdentifier → Option Qos → Message
transform m pid qos = record {
  topic = m.topic;
  qos = unwrap_or qos m.qos;
  retain = m.retain;
  pid = or_else pid m.pid;
  payload = m.payload;
}
