-- ===== src/Mqtt3/Message/Publishing.antt =====
-- Messages and the PUBLISH packets that carry them.
use rust_mq.Base.{◌≡◌, refl, sym, ◌∙◌, Bool, true, false, none, All, if◌then◌else◌, inl, inr}
use rust_mq.Outcome.{
  ok, err, Result-cases, Outcome, done, failed, panicked, stuck, Action, fail, pure,
}
use rust_mq.Mqtt3.Errors.{Error, topic_name_must_not_contain_wildcard}
use rust_mq.Mqtt3.Packet.{Publish}
use rust_mq.Mqtt3.Topic.{TopicPath, from_str}
use rust_mq.Mqtt3.Topic.Paths.{IsPath, IsName, any-All, All-any, from_str→IsPath, IsPath→from_str}
use rust_mq.Mqtt3.Message.{Message, from_pub, to_pub}

-- The topic of a message that may be published: a topic name.
abbrev pub HasTopicName : Message → Type 0
HasTopicName m = IsPath m.topic × All IsName m.topic.topics

-- A message with a topic name comes back from the packet that carries it, whatever the flag `dup`.
pub from_pub-to_pub :
    {S : Type 0} (m : Message) (dup : Bool) (s : S)
    → HasTopicName m
    → from_pub (to_pub m none dup) s ≡ done m s
unfolding from_pub to_pub
from_pub-to_pub m dup s h =
    rw (IsPath→from_str m.topic h.0, h.0.flag, All-any m.topic.topics h.1) refl

abbrev pub Carries : {S : Type 0} → Publish → S → Outcome Error S Message → Type 0
Carries p s (done m t) = (s ≡ t) × HasTopicName m × (to_pub m none p.dup ≡ p)
Carries p s (failed e t) =
    (s ≡ t)
    × (e ≡ topic_name_must_not_contain_wildcard)
    × ((path : TopicPath) × (from_str p.topic_name ≡ ok path) × (path.wildcards ≡ true))
Carries p s panicked = (e : Error) × (from_str p.topic_name ≡ err e)
Carries p s stuck = ⊥

carried :
    {S : Type 0} (p : Publish) (s : S) (t : TopicPath)
    → from_str p.topic_name ≡ ok t
    → (w : Bool) → t.wildcards ≡ w
    → Carries p s (
        if◌then◌else◌ {A = Action Error S Message} w
          (fail topic_name_must_not_contain_wildcard)
          (pure (record {
            topic = t;
            qos = p.qos;
            retain = p.retain;
            pid = p.pid;
            payload = p.payload;
          }))
          s)
unfolding to_pub
carried p s t e true w = (refl, refl, (t, e, w))
carried p s t e false w =
    let (same, path) = from_str→IsPath p.topic_name t e in
    (refl, (path, any-All t.topics (sym path.flag ∙ w)), rw same refl)

-- Taking the message out of a PUBLISH packet leaves the state as it is, and ends in one of three ways:
-- with a message that has a topic name and makes the same packet again; with the error
-- TopicNameMustNotContainWildcard, only where the name is a topic path with a wildcard level; or with a
-- panic, only where the name is no topic path, for which `from_str` is an error. So a name without
-- wildcard levels gives the message, one with them the error, and one that is no path the panic.
pub from_pub-Carries : {S : Type 0} (p : Publish) (s : S) → Carries p s (from_pub p s)
unfolding from_pub
from_pub-Carries p s = elim (Result-cases (from_str p.topic_name)) [
  | inr (e, bad) ↦ rw bad (e, bad)
  | inl (t, good) ↦ rw good (carried p s t good t.wildcards refl)
]
