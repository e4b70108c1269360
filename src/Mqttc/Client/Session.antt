-- ===== src/Mqttc/Client/Session.antt =====
-- A client of mqttc/src/client.rs over its whole life: the calls of its user and the packets that it
-- handles, in any order, errors included.
use rust_mq.Base.{ℕ, ◌≡◌, ◌≢◌, Option, none, some, All}
use rust_mq.Outcome.{err, done, failed, and_then}
use rust_mq.Mqtt3.Bytes.{Bytes, Text, IsByte}
use rust_mq.Mqtt3.Errors
use rust_mq.Mqtt3.Qos.{Qos, at_most_once, at_least_once, exactly_once}
use rust_mq.Mqtt3.PacketIdentifier.{PacketIdentifier}
use rust_mq.Mqtt3.Packet.{Packet}
use rust_mq.Mqtt3.Topic.{ToTopicPath, from_str}
use rust_mq.Mqtt3.Read.{read_packet}
use rust_mq.Mqtt3.Codec.Publish.{PidFits}
use rust_mq.Mqtt3.Codec.RoundTrip.{Fits}
use rust_mq.Mqtt3.Accept.Safety.{read_packet_sound}
use rust_mq.Mqttc.Errors.{Error}
use rust_mq.Mqttc.PubOpt.{PubOpt}
use rust_mq.Mqttc.Store.{Store}
use rust_mq.Mqttc.Network.{Network}
use rust_mq.Mqttc.Sub.{ToSubTopics, ToUnSubTopics}
use rust_mq.Mqttc.Options.{ClientOptions, ReconnectMethod}
use rust_mq.Mqttc.Client.{Client, Method, modify, ping, unbind}
use rust_mq.Mqttc.Client.Outgoing.{publish, complete, subscribe, unsubscribe}
use rust_mq.Mqttc.Client.Incoming.{parse_packet}
use rust_mq.Mqttc.Client.Life.{accept, await, reconnect, connect}
use rust_mq.Mqttc.Client.Invariant.{IsValid, Holds, Calm, Holds-bind}
use rust_mq.Mqttc.Client.Outgoing.Safety.{
  publish-Holds, complete-Holds, subscribe-Holds, unsubscribe-Holds,
}
use rust_mq.Mqttc.Client.Incoming.Safety.{IsWelcome, WithPid, parse_packet-Holds}
use rust_mq.Mqttc.Client.Life.Steps.{
  Keeps, any-Calm, any-Sends, any-IsWelcome, ping-Keeps, unbind-Keeps, reconnect-Keeps,
}
use rust_mq.Mqttc.Client.Life.Safety.{await-Keeps, accept-Keeps, connect-Holds}

-- The public methods of `Client`, and `_parse_packet` on any packet. A number of rounds goes with
-- those that wait for the network.
pub data Call : Type 0 where
  publish_call : ToTopicPath → Bytes → PubOpt → Call
  subscribe_call : ToSubTopics → Call
  unsubscribe_call : ToUnSubTopics → Call
  complete_call : PacketIdentifier → Call
  ping_call terminate_call : Call
  handle_call : Packet → Call
  accept_call await_call reconnect_call : ℕ → Call
  set_reconnect_call : ReconnectMethod → Call

module _ {N S : Type 0} (net : Network N) (store : Store S) where
  -- A method whose value is dropped.
  abbrev void : {A : Type 0} → Method N S A → Method N S (Unit {0})
  void m c = and_then (m c) (λ _ c. done tt c)

  unfoldable pub run : Call → Method N S (Unit {0})
  unfolding publish subscribe unsubscribe complete ping unbind parse_packet accept await reconnect
  run (publish_call topic payload pubopt) = publish net store topic payload pubopt
  run (subscribe_call subs) = subscribe net subs
  run (unsubscribe_call unsubs) = unsubscribe net unsubs
  run (complete_call pid) = complete net store pid
  run ping_call = ping net
  run terminate_call = unbind net
  run (handle_call packet) = void (parse_packet net store packet)
  run (accept_call fuel) = void (accept net store (reconnect net store fuel))
  run (await_call fuel) = void (await net store fuel)
  run (reconnect_call fuel) = reconnect net store fuel
  run (set_reconnect_call r) = modify (λ c. record c { opts = record c.opts { reconnect = r } })

  -- The clients that calls lead to: a call that returns an error leaves a client too.
  pub data Reaches (c : Client N S) : Client N S → Type 0 where
    start : Reaches c c
    returns :
        {c' c'' : Client N S} (call : Call)
        → Reaches c c'
        → run call c' ≡ done tt c''
        → Reaches c c''
    fails :
        {c' c'' : Client N S} {e : Error} (call : Call)
        → Reaches c c'
        → run call c' ≡ failed e c''
        → Reaches c c''

  void-Keeps : {A : Type 0} (m : Method N S A) → Keeps m → Keeps (void m)
  void-Keeps m k c v = Holds-bind Unit (m c) _ (k c v) λ _ c' w. w

  reconnected : (fuel : ℕ) → Keeps (reconnect net store fuel)
  unfolding reconnect
  reconnected fuel = reconnect-Keeps net store (await net store fuel) (await-Keeps net store fuel)

  run-Keeps : (call : Call) → Keeps (run call)
  unfolding run
  run-Keeps (publish_call topic payload pubopt) c v =
      publish-Holds Unit net store (any-Calm net store) (λ p n. any-Sends (net.write_packet p n))
        topic payload pubopt c v
  run-Keeps (subscribe_call subs) c v =
      subscribe-Holds Unit net store (any-Calm net store) (λ p n. any-Sends (net.write_packet p n))
        subs c v
  run-Keeps (unsubscribe_call unsubs) c v =
      unsubscribe-Holds Unit net store (any-Calm net store)
        (λ p n. any-Sends (net.write_packet p n)) unsubs c v
  run-Keeps (complete_call pid) c v =
      complete-Holds Unit net store (any-Calm net store) (λ p n. any-Sends (net.write_packet p n))
        pid c v
  run-Keeps ping_call c v = ping-Keeps net store c v
  run-Keeps terminate_call c v = unbind-Keeps net store c v
  run-Keeps (handle_call packet) c v =
      void-Keeps (parse_packet net store packet)
        (λ c v.
          parse_packet-Holds Unit net store (any-Calm net store) packet c (any-IsWelcome packet) v)
        c v
  run-Keeps (accept_call fuel) c v =
      void-Keeps (accept net store (reconnect net store fuel))
        (accept-Keeps net store (reconnect net store fuel) (reconnected fuel)) c v
  run-Keeps (await_call fuel) c v =
      void-Keeps (await net store fuel) (await-Keeps net store fuel) c v
  run-Keeps (reconnect_call fuel) c v = reconnected fuel c v
  run-Keeps (set_reconnect_call r) c v = v

  Reaches-IsValid : (c c' : Client N S) → IsValid c → Reaches c c' → IsValid c'
  Reaches-IsValid c c' v start = v
  Reaches-IsValid c c' v (returns {c' = d} call r e) =
      rw e at (run-Keeps call d (Reaches-IsValid c d v r))
  Reaches-IsValid c c' v (fails {c' = d} call r e) =
      rw e at (run-Keeps call d (Reaches-IsValid c d v r))

  -- Whatever the network and the store do, and whatever packets arrive, every client that `connect`
  -- returns and that calls on it lead to is valid: it has a client identifier, its last packet
  -- identifier is a number of 16 bits, and the queues of messages that wait for a PUBACK, a PUBREC or
  -- a PUBREL hold messages of QoS 1, 2 and 2, each with a packet identifier.
  pub connect-IsValid :
      (fuel : ℕ) (generated : Text) (opts : ClientOptions S) (n : N) (c c' : Client N S)
      → connect net store fuel generated opts n ≡ done tt c
      → Reaches c c'
      → IsValid c'
  connect-IsValid fuel generated opts n c c' e r =
      Reaches-IsValid c c' (rw e at (connect-Holds net store fuel generated opts n)) r

WithPid-PidFits : (q : Qos) (pid : Option PacketIdentifier) → PidFits q pid → WithPid ⊥ q pid
WithPid-PidFits at_most_once pid h = tt
WithPid-PidFits at_least_once none h = h
WithPid-PidFits at_least_once (some pid) h = tt
WithPid-PidFits exactly_once none h = h
WithPid-PidFits exactly_once (some pid) h = tt

-- The topic name of a PUBLISH is a topic path.
abbrev pub HasTopicPath : Packet → Type 0
HasTopicPath (Packet.publish p) = (e : Errors.Error) → from_str p.topic_name ≢ err e
HasTopicPath _ = Unit

Fits-IsWelcome : (p : Packet) → Fits p → HasTopicPath p → IsWelcome ⊥ p
Fits-IsWelcome (Packet.publish p) f h = (WithPid-PidFits p.qos p.pid f.pid, h)
Fits-IsWelcome _ f h = tt

-- A packet that `read_packet` accepts, if it is a PUBLISH one whose topic name is a topic path, is
-- handled without a panic by a valid client, and the client stays valid, whether the handler returns
-- an error or not; provided that acknowledgements are written without an error and that the network
-- and the store do not panic.
pub parse_packet-safe :
    {N S : Type 0} (net : Network N) (store : Store S) (s rest : Bytes) (p : Packet)
    (c : Client N S)
    → Calm ⊥ net store
    → IsValid c
    → All IsByte s
    → read_packet s ≡ done p rest
    → HasTopicPath p
    → Holds ⊥ (parse_packet net store p c)
parse_packet-safe net store s rest p c calm v hs e path =
    parse_packet-Holds ⊥ net store calm p c
      (Fits-IsWelcome p (read_packet_sound s rest p hs e).0 path) v
