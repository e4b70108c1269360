-- ===== src/Mqttc/Client/Incoming/Safety.antt =====
-- `_parse_packet` of mqttc/src/client.rs: the client stays valid, and where it may panic.
use rust_mq.Base.{
  ◌≡◌, refl, [], ◌∷◌, Option, none, some, All-append, Option-cases, Bool-cases, inl, inr,
}
use rust_mq.Outcome.{err, Result-cases}
use rust_mq.Mqtt3.Errors
use rust_mq.Mqtt3.Qos.{Qos, at_most_once, at_least_once, exactly_once}
use rust_mq.Mqtt3.PacketIdentifier.{PacketIdentifier}
use rust_mq.Mqtt3.Packet.{Packet, Publish, Connack}
use rust_mq.Mqtt3.Topic.{from_str}
use rust_mq.Mqtt3.Message.{Message, from_pub}
use rust_mq.Mqttc.Errors.{incomming_storage_absent}
use rust_mq.Mqttc.Store.{Store}
use rust_mq.Mqttc.Network.{Network}
use rust_mq.Mqttc.Client.{ClientState, handshake, connected, disconnected, Client, push_back}
use rust_mq.Mqttc.Client.Incoming.{
  unwrap_pid, on_connack, is_accepted, on_puback, on_pubcomp, on_suback, on_unsuback,
  handle_message, on_publish, on_pubrec, on_pubrel, parse_in, parse_packet,
}
use rust_mq.Mqttc.Client.Invariant.{
  IsSome, Queued, Valid, IsValid, Holds, Calm, Holds-bind, on_incomming-Holds,
}
use rust_mq.Mqttc.Client.Incoming.Arms.{
  puback-Holds, pubcomp-Holds, suback-Holds, unsuback-Holds, send-Holds, pubrec-Holds, pubrel-Holds,
}

-- A packet identifier goes with the QoS, or it is `Bad`.
abbrev pub WithPid : Type 0 → Qos → Option PacketIdentifier → Type 0
WithPid Bad at_most_once pid = Unit
WithPid Bad _ none = Bad
WithPid Bad _ (some pid) = Unit

-- A PUBLISH has an identifier if its QoS asks for one, and its topic name is a topic path; every
-- other packet is welcome.
abbrev pub IsWelcome : Type 0 → Packet → Type 0
IsWelcome Bad (Packet.publish p) =
    WithPid Bad p.qos p.pid × ((e : Errors.Error) → from_str p.topic_name ≡ err e → Bad)
IsWelcome Bad _ = Unit

connack-Holds :
    (Bad : Type 0) {N S : Type 0} (k : Connack) (c : Client N S)
    → IsValid c
    → Holds Bad (on_connack k c)
unfolding on_connack
connack-Holds Bad k c v = elim (Bool-cases (is_accepted k.code)) [ inl e ↦ rw e v | inr e ↦ rw e v ]

unwrap_pid-Holds :
    (Bad : Type 0) {N S : Type 0} (o : Option PacketIdentifier) (c : Client N S)
    → IsSome o
    → IsValid c
    → Holds Bad (unwrap_pid o c)
unwrap_pid-Holds Bad none c h v = absurd h
unwrap_pid-Holds Bad (some pid) c h v = v

module _ (Bad : Type 0) {N S : Type 0} (net : Network N) (store : Store S)
    (calm : Calm Bad net store) where
  handle_message-Holds :
      (q : Qos) (m : Message) (c : Client N S)
      → m.qos ≡ q
      → WithPid Bad q m.pid
      → IsValid c
      → Holds Bad (handle_message net store q m c)
  unfolding handle_message
  handle_message-Holds at_most_once m c e p v = v
  handle_message-Holds at_least_once m c e p v = elim (Option-cases m.pid) [
    | inl absent ↦ rw absent (rw absent at p)
    | inr (pid, here) ↦
        rw here (send-Holds Bad net store calm (Packet.puback pid) _ _ tt v λ _ w. w)
  ]
  handle_message-Holds exactly_once m c e p v = elim (Option-cases m.pid) [
    | inl absent ↦ rw absent (rw absent at p)
    | inr (pid, here) ↦
        let has : IsSome m.pid = rw here tt in
        let v' : Valid c.opts.client_id c.last_pid c.outgoing_ack c.outgoing_rec
            (push_back c.incomming_rec m) =
          record {
            has_id = v.has_id;
            last_pid = v.last_pid;
            acks_Queued = v.acks_Queued;
            recs_Queued = v.recs_Queued;
            held_Queued =
                All-append (Queued exactly_once) c.incomming_rec (m ∷ []) v.held_Queued
                  ((e, has), tt);
          } in
        Holds-bind Bad (unwrap_pid m.pid _) _ (unwrap_pid-Holds Bad m.pid _ has v') λ id c₁ v₁.
          Holds-bind Bad _ _
            (on_incomming-Holds Bad (store.put m) incomming_storage_absent c₁
              (λ t. calm.put_Answers m t has) v₁)
            λ _ c₂ v₂. send-Holds Bad net store calm (Packet.pubrec id) c₂ _ tt v₂ λ _ u. u
  ]

  publish-Holds :
      (p : Publish) (c : Client N S)
      → IsWelcome Bad (Packet.publish p)
      → IsValid c
      → Holds Bad (on_publish net store p c)
  unfolding on_publish from_pub
  publish-Holds p c (pid, path) v = elim (Result-cases (from_str p.topic_name)) [
    | inr (e, bad) ↦ rw bad (path e bad)
    | inl (t, good) ↦ rw good (elim (Bool-cases t.wildcards) [
      | inl w ↦ rw w v
      | inr w ↦ rw w (handle_message-Holds p.qos _ c refl pid v)
    ])
  ]

  parse_in-Holds :
      (st : ClientState) (p : Packet) (c : Client N S)
      → IsWelcome Bad p
      → IsValid c
      → Holds Bad (parse_in net store st p c)
  unfolding parse_in on_puback on_pubcomp on_suback on_unsuback on_pubrec on_pubrel
  parse_in-Holds handshake (Packet.connack k) c h v = connack-Holds Bad k c v
  parse_in-Holds handshake _ c h v = v
  parse_in-Holds connected (Packet.publish p) c h v = publish-Holds p c h v
  parse_in-Holds connected (Packet.puback pid) c h v =
      puback-Holds Bad pid c c.outgoing_ack v v.acks_Queued
  parse_in-Holds connected (Packet.pubrec pid) c h v =
      pubrec-Holds Bad net store calm pid c c.outgoing_rec v v.recs_Queued
  parse_in-Holds connected (Packet.pubrel pid) c h v =
      pubrel-Holds Bad net store calm pid c c.incomming_rec v v.held_Queued
  parse_in-Holds connected (Packet.pubcomp pid) c h v = pubcomp-Holds Bad pid c c.outgoing_comp v
  parse_in-Holds connected (Packet.suback s) c h v = suback-Holds Bad s c c.await_suback v
  parse_in-Holds connected (Packet.unsuback pid) c h v = unsuback-Holds Bad pid c c.await_unsuback v
  parse_in-Holds connected _ c h v = v
  parse_in-Holds disconnected p c h v = v

  pub parse_packet-Holds :
      (p : Packet) (c : Client N S)
      → IsWelcome Bad p
      → IsValid c
      → Holds Bad (parse_packet net store p c)
  unfolding parse_packet
  parse_packet-Holds p c h v = parse_in-Holds c.state p c h v
