-- ===== src/Mqttc/Client/Incoming/Subscriptions.antt =====
-- The subscriptions of the client after SUBACK and UNSUBACK in mqttc/src/client.rs, as a map.
use rust_mq.Base.{
  ==_iff, ◌≡◌, ◌≢◌, refl, sym, ap, ◌∙◌, Bool, true, false, List, [], ◌∷◌, Option, none, some, All,
  Bool-cases, inl, inr, if◌then◌else◌, length, bytes_eq, bytes_eq_iff, bytes_eq_self, arith,
}
use rust_mq.Base.Maps.{
  lookup, insert, remove, lookup-insert, lookup-remove, lookup-insert_other, lookup-remove_other,
}
use rust_mq.Outcome.{ok, done}
use rust_mq.Mqtt3.Bytes.{Text}
use rust_mq.Mqtt3.Qos.{Qos}
use rust_mq.Mqtt3.PacketIdentifier.{PacketIdentifier}
use rust_mq.Mqtt3.Packet.{
  Packet, Subscribe, SubscribeTopic, SubscribeReturnCodes, success, failure, Suback, Unsubscribe,
}
use rust_mq.Mqtt3.Topic.{TopicPath, from_str, any}
use rust_mq.Mqtt3.Message.{or_else}
use rust_mq.Mqttc.Store.{Store}
use rust_mq.Mqttc.Network.{Network}
use rust_mq.Mqttc.Sub.{Subscription}
use rust_mq.Mqttc.Client.{Client, connected}
use rust_mq.Mqttc.Client.Incoming.{
  subscribe_all, on_suback, on_unsuback, remove_all, parse_in, parse_packet, subscription,
}

abbrev pub Subscriptions : Type 0
Subscriptions = List (Text × Subscription)

-- The subscription to a topic path, by its text.
abbrev pub subscribed_to : Text → Subscriptions → Option Subscription
subscribed_to t subs = lookup bytes_eq t subs

either_none : {A : Type 0} (b : Bool) → if◌then◌else◌ {A = Option A} b none none ≡ none
either_none true = refl
either_none false = refl

true-not_false : true ≡ false → ⊥
true-not_false e = ground arith

differ : (a b : Text) → bytes_eq a b ≡ false → a ≢ b
differ a b e p = true-not_false (sym ((bytes_eq_iff a b).1 p) ∙ e)

lookup-remove_all :
    (t : Text) (names : List Text) (subs : Subscriptions)
    → subscribed_to t (remove_all names subs)
      ≡ (if any (bytes_eq t) names then none else subscribed_to t subs)
unfolding remove_all
lookup-remove_all t [] subs = refl
lookup-remove_all t (n ∷ names) subs = elim (Bool-cases (bytes_eq t n)) [
  | inl same ↦
      rw (same, lookup-remove_all t names (remove bytes_eq n subs), sym ((bytes_eq_iff t n).0 same))
        (rw (lookup-remove bytes_eq t subs) (either_none (any (bytes_eq t) names)))
  | inr other ↦
      rw (other, lookup-remove_all t names (remove bytes_eq n subs))
        (rw (lookup-remove_other bytes_eq bytes_eq_iff t n subs (differ t n other)) refl)
]

-- The last QoS that the return codes grant to a topic path.
abbrev grant : SubscribeReturnCodes → Option Qos
grant (success qos) = some qos
grant failure = none

abbrev pub granted : Text → List SubscribeReturnCodes → List SubscribeTopic → Option Qos
granted t (code ∷ codes) (topic ∷ topics) =
    or_else (granted t codes topics) (if bytes_eq t topic.topic_path then grant code else none)
granted t _ _ = none

abbrev pub qos_of : Option Subscription → Option Qos
qos_of none = none
qos_of (some s) = some s.qos

abbrev pub HasPath : SubscribeTopic → Type 0
HasPath t = (path : TopicPath) × (from_str t.topic_path ≡ ok path)

or_else_assoc : {A : Type 0} (a b c : Option A) → or_else a (or_else b c) ≡ or_else (or_else a b) c
or_else_assoc none b c = refl
or_else_assoc (some a) b c = refl

qos_of-insert :
    (t u : Text) (sub : Subscription) (subs : Subscriptions)
    → qos_of (subscribed_to t (insert bytes_eq u sub subs))
      ≡ or_else (if bytes_eq t u then some sub.qos else none) (qos_of (subscribed_to t subs))
qos_of-insert t u sub subs = elim (Bool-cases (bytes_eq t u)) [
  | inl same ↦
      rw (same, (bytes_eq_iff t u).0 same, lookup-insert bytes_eq u sub subs (bytes_eq_self u)) refl
  | inr other ↦
      rw (other, lookup-insert_other bytes_eq bytes_eq_iff t u sub subs (differ t u other)) refl
]

module _ {N S : Type 0} where
  abbrev with_subscriptions : Client N S → Subscriptions → Client N S
  with_subscriptions c subs = record c { subscriptions = subs }

  subscribe_all-granted :
      (pid : PacketIdentifier) (codes : List SubscribeReturnCodes) (topics : List SubscribeTopic)
      (c : Client N S)
      → All HasPath topics
      → (subs : Subscriptions) × (subscribe_all pid codes topics c
          ≡ done tt (with_subscriptions c subs))
        × ((t : Text)
            → qos_of (subscribed_to t subs)
              ≡ or_else (granted t codes topics) (qos_of (subscribed_to t c.subscriptions)))
  unfolding subscribe_all
  subscribe_all-granted pid (success qos ∷ codes) (topic ∷ topics) c ((path, e), paths) =
      let new = insert bytes_eq topic.topic_path (subscription pid path qos) c.subscriptions in
      let (subs, ran, spec) =
        subscribe_all-granted pid codes topics (with_subscriptions c new) paths in
      (
        subs,
        rw (e, ran) refl,
        λ t.
            spec t
            ∙ ap (or_else (granted t codes topics))
                (qos_of-insert t topic.topic_path (subscription pid path qos) c.subscriptions)
            ∙ or_else_assoc (granted t codes topics) _ _,
      )
  subscribe_all-granted pid (failure ∷ codes) (topic ∷ topics) c (path, paths) =
      let (subs, ran, spec) = subscribe_all-granted pid codes topics c paths in
      (
        subs,
        ran,
        λ t.
            spec t
            ∙ or_else_assoc (granted t codes topics) none _
            ∙ sym (
                ap
                  (λ o.
                    or_else (or_else (granted t codes topics) o)
                      (qos_of (subscribed_to t c.subscriptions)))
                  (either_none (bytes_eq t topic.topic_path))),
      )
  subscribe_all-granted pid [] topics c paths = (c.subscriptions, refl, λ t. refl)
  subscribe_all-granted pid (success qos ∷ codes) [] c paths = (c.subscriptions, refl, λ t. refl)
  subscribe_all-granted pid (failure ∷ codes) [] c paths = (c.subscriptions, refl, λ t. refl)

module _ {N S : Type 0} (net : Network N) (store : Store S) where
  -- A SUBACK for the oldest SUBSCRIBE, with a return code for each of its topics, which are topic
  -- paths: the client is then subscribed to a topic path with the last QoS that is granted to it, and
  -- as before if none is.
  pub suback-granted :
      (c : Client N S) (subscribe : Subscribe) (rest : List Subscribe) (suback : Suback)
      → c.state ≡ connected
      → c.await_suback ≡ subscribe ∷ rest
      → subscribe.pid ≡ suback.pid
      → length subscribe.topics ≡ length suback.return_codes
      → All HasPath subscribe.topics
      → (c' : Client N S) × (parse_packet net store (Packet.suback suback) c ≡ done none c')
        × (c'.await_suback ≡ rest)
        × ((t : Text)
            → qos_of (subscribed_to t c'.subscriptions)
              ≡ or_else
                  (granted t suback.return_codes subscribe.topics)
                  (qos_of (subscribed_to t c.subscriptions)))
  unfolding parse_packet parse_in on_suback
  suback-granted c subscribe rest suback st q pid len paths =
      let (subs, ran, spec) =
        subscribe_all-granted subscribe.pid suback.return_codes subscribe.topics
          (record c { state = connected; await_suback = rest }) paths in
      (
        record c { state = connected; await_suback = rest; subscriptions = subs },
        rw
            (
              st,
              q,
              (==_iff subscribe.pid suback.pid).1 pid,
              (==_iff (length subscribe.topics) (length suback.return_codes)).1 len,
              ran,
            )
            refl,
        refl,
        spec,
      )

  -- An UNSUBACK for the oldest UNSUBSCRIBE: the client is subscribed to none of its topic paths, and to
  -- the others as before.
  pub unsuback-removed :
      (c : Client N S) (unsubscribe : Unsubscribe) (rest : List Unsubscribe)
      → c.state ≡ connected
      → c.await_unsuback ≡ unsubscribe ∷ rest
      → (c' : Client N S) × (parse_packet net store (Packet.unsuback unsubscribe.pid) c
          ≡ done none c')
        × (c'.await_unsuback ≡ rest)
        × ((t : Text)
            → subscribed_to t c'.subscriptions ≡ (
                if any (bytes_eq t) unsubscribe.topics
                then none
                else subscribed_to t c.subscriptions))
  unfolding parse_packet parse_in on_unsuback
  unsuback-removed c unsubscribe rest st q = (
    record c {
      state = connected;
      await_unsuback = rest;
      subscriptions = remove_all unsubscribe.topics c.subscriptions;
    },
    rw (st, q, (==_iff unsubscribe.pid unsubscribe.pid).1 refl) refl,
    refl,
    λ t. lookup-remove_all t unsubscribe.topics c.subscriptions,
  )
