-- ===== src/Mqttc/Client/Progress/Arms.antt =====
-- `_parse_packet` of mqttc/src/client.rs on a network from which only so much can be read.
use rust_mq.Base.{◌==◌, List, [], ◌∷◌, Option, none, some, Bool-cases, inl, inr, length}
use rust_mq.Outcome.{Result, ok, err, Result-cases}
use rust_mq.Base.{ℕ}
use rust_mq.Mqtt3.Errors
use rust_mq.Mqtt3.Qos.{Qos, at_most_once, at_least_once, exactly_once}
use rust_mq.Mqtt3.PacketIdentifier.{PacketIdentifier}
use rust_mq.Mqtt3.Packet.{
  Packet, Publish, Suback, Subscribe, SubscribeReturnCodes, SubscribeTopic, success, failure,
  Unsubscribe,
}
use rust_mq.Mqtt3.Topic.{from_str}
use rust_mq.Mqtt3.Message.{Message, from_pub}
use rust_mq.Mqttc.Errors.{incomming_storage_absent}
use rust_mq.Mqttc.Store.{Store}
use rust_mq.Mqttc.Network.{Network}
use rust_mq.Mqttc.Client.{ClientState, handshake, connected, disconnected, Client}
use rust_mq.Mqttc.Client.Outgoing.{from_mqtt3, has_pid}
use rust_mq.Mqttc.Client.Incoming.{
  unwrap_pid, on_connack, is_accepted, on_puback, puback_of, on_pubcomp, pubcomp_of, subscribe_all,
  on_suback, suback_of, on_unsuback, unsuback_of, handle_message, on_publish, on_pubrec, pubrec_of,
  on_pubrel, pubrel_of, parse_in, parse_packet,
}
use rust_mq.Mqttc.Client.Progress.{
  Goes, Finite, Answering, Under, then, on_incomming-Under, on_outgoing-Under, send-Under,
}

module _ {N S : Type 0} (left : N → ℕ) (k : ℕ) where
  puback-Under :
      (pid : PacketIdentifier) (c : Client N S) (q : List Message)
      → Under left k c
      → Goes (Under left k) (puback_of pid c q)
  puback-Under pid c [] v = v
  puback-Under pid c (m ∷ rest) v = elim (Bool-cases (has_pid m.pid pid)) [
    | inl e ↦ rw e v
    | inr e ↦ rw e v
  ]

  pubcomp-Under :
      (pid : PacketIdentifier) (c : Client N S) (q : List PacketIdentifier)
      → Under left k c
      → Goes (Under left k) (pubcomp_of pid c q)
  pubcomp-Under pid c [] v = v
  pubcomp-Under pid c (_ ∷ rest) v = v

  pub from_mqtt3-Under :
      {A : Type 0} (r : Result Errors.Error A) (c : Client N S)
      → Under left k c
      → Goes (Under left k) (from_mqtt3 r c)
  from_mqtt3-Under (ok a) c v = v
  from_mqtt3-Under (err e) c v = v

  subscribe_all-Under :
      (pid : PacketIdentifier) (codes : List SubscribeReturnCodes) (topics : List SubscribeTopic)
      (c : Client N S)
      → Under left k c
      → Goes (Under left k) (subscribe_all pid codes topics c)
  unfolding subscribe_all
  subscribe_all-Under pid (success qos ∷ codes) (t ∷ topics) c v =
      then left k (from_mqtt3 (from_str t.topic_path) c) _
        (from_mqtt3-Under (from_str t.topic_path) c v)
        λ path c' v'. subscribe_all-Under pid codes topics _ v'
  subscribe_all-Under pid (failure ∷ codes) (t ∷ topics) c v =
      subscribe_all-Under pid codes topics c v
  subscribe_all-Under pid [] topics c v = v
  subscribe_all-Under pid (success qos ∷ codes) [] c v = v
  subscribe_all-Under pid (failure ∷ codes) [] c v = v

  suback-Under :
      (suback : Suback) (c : Client N S) (q : List Subscribe)
      → Under left k c
      → Goes (Under left k) (suback_of suback c q)
  suback-Under suback c [] v = v
  suback-Under suback c (s ∷ rest) v = elim (Bool-cases (s.pid == suback.pid)) [
    | inr e ↦ rw e v
    | inl e ↦ rw e (elim (Bool-cases (length s.topics == length suback.return_codes)) [
      | inr l ↦ rw l v
      | inl l ↦ rw l (
          then left k (subscribe_all s.pid suback.return_codes s.topics _) _
            (subscribe_all-Under s.pid suback.return_codes s.topics _ v) λ _ c' v'. v')
    ])
  ]

  unsuback-Under :
      (pid : PacketIdentifier) (c : Client N S) (q : List Unsubscribe)
      → Under left k c
      → Goes (Under left k) (unsuback_of pid c q)
  unsuback-Under pid c [] v = v
  unsuback-Under pid c (u ∷ rest) v = elim (Bool-cases (u.pid == pid)) [
    | inl e ↦ rw e v
    | inr e ↦ rw e v
  ]

  unwrap_pid-Under :
      (o : Option PacketIdentifier) (c : Client N S)
      → Under left k c
      → Goes (Under left k) (unwrap_pid o c)
  unwrap_pid-Under none c v = tt
  unwrap_pid-Under (some pid) c v = v

module _ {N S : Type 0} (net : Network N) (store : Store S) (left : N → ℕ)
    (finite : Finite net left) (answering : Answering store) (k : ℕ) where
  handle_message-Under :
      (q : Qos) (m : Message) (c : Client N S)
      → Under left k c
      → Goes (Under left k) (handle_message net store q m c)
  unfolding handle_message
  handle_message-Under at_most_once m c v = v
  handle_message-Under at_least_once m c v =
      then left k (unwrap_pid m.pid _) _ (unwrap_pid-Under left k m.pid _ v)
        λ pid c₁ v₁. send-Under net left finite k (Packet.puback pid) c₁ _ v₁ λ _ w. w
  handle_message-Under exactly_once m c v =
      then left k (unwrap_pid m.pid _) _ (unwrap_pid-Under left k m.pid _ v) λ pid c₁ v₁.
        then left k _ _
          (on_incomming-Under left k (store.put m) incomming_storage_absent c₁ (answering.puts m)
            v₁)
          λ _ c₂ v₂. send-Under net left finite k (Packet.pubrec pid) c₂ _ v₂ λ _ w. w

  publish-Under :
      (p : Publish) (c : Client N S)
      → Under left k c
      → Goes (Under left k) (on_publish net store p c)
  unfolding on_publish from_pub
  publish-Under p c v = elim (Result-cases (from_str p.topic_name)) [
    | inr (e, bad) ↦ rw bad tt
    | inl (t, good) ↦ rw good (elim (Bool-cases t.wildcards) [
      | inl w ↦ rw w v
      | inr w ↦ rw w (handle_message-Under p.qos _ c v)
    ])
  ]

  pubrec-Under :
      (pid : PacketIdentifier) (c : Client N S) (q : List Message)
      → Under left k c
      → Goes (Under left k) (pubrec_of net store pid c q)
  pubrec-Under pid c [] v = v
  pubrec-Under pid c (m ∷ rest) v = elim (Bool-cases (has_pid m.pid pid)) [
    | inr e ↦ rw e v
    | inl e ↦ rw e (
        send-Under net left finite k (Packet.pubrel pid) _ _ v λ c' w.
          then left k _ _
            (on_outgoing-Under left k (store.delete pid) incomming_storage_absent _
              (answering.deletes pid) w)
            λ _ _ w'. w')
  ]

  pubrel-Under :
      (pid : PacketIdentifier) (c : Client N S) (q : List Message)
      → Under left k c
      → Goes (Under left k) (pubrel_of net store pid c q)
  pubrel-Under pid c [] v = v
  pubrel-Under pid c (m ∷ rest) v = elim (Bool-cases (has_pid m.pid pid)) [
    | inr e ↦ rw e v
    | inl e ↦ rw e (
        then left k _ _
          (on_incomming-Under left k (store.get pid) incomming_storage_absent _ (answering.gets pid)
            v)
          λ _ _ w. w)
  ]

  parse_in-Under :
      (st : ClientState) (p : Packet) (c : Client N S)
      → Under left k c
      → Goes (Under left k) (parse_in net store st p c)
  unfolding parse_in on_connack on_puback on_pubcomp on_suback on_unsuback on_pubrec on_pubrel
  parse_in-Under handshake (Packet.connack a) c v = elim (Bool-cases (is_accepted a.code)) [
    | inl e ↦ rw e v
    | inr e ↦ rw e v
  ]
  parse_in-Under handshake _ c v = v
  parse_in-Under connected (Packet.publish p) c v = publish-Under p c v
  parse_in-Under connected (Packet.puback pid) c v = puback-Under left k pid c c.outgoing_ack v
  parse_in-Under connected (Packet.pubrec pid) c v = pubrec-Under pid c c.outgoing_rec v
  parse_in-Under connected (Packet.pubrel pid) c v = pubrel-Under pid c c.incomming_rec v
  parse_in-Under connected (Packet.pubcomp pid) c v = pubcomp-Under left k pid c c.outgoing_comp v
  parse_in-Under connected (Packet.suback s) c v = suback-Under left k s c c.await_suback v
  parse_in-Under connected (Packet.unsuback pid) c v =
      unsuback-Under left k pid c c.await_unsuback v
  parse_in-Under connected _ c v = v
  parse_in-Under disconnected p c v = v

  -- A packet is handled with no more left to read than before it.
  pub parse_packet-Under :
      (p : Packet) (c : Client N S)
      → Under left k c
      → Goes (Under left k) (parse_packet net store p c)
  unfolding parse_packet
  parse_packet-Under p c v = parse_in-Under c.state p c v
