-- ===== src/Mqttc/Client/Incoming/Arms.antt =====
-- The arms of `_parse_packet` of mqttc/src/client.rs on acknowledgements: the client stays valid.
use rust_mq.Base.{◌==◌, List, [], ◌∷◌, All, Bool-cases, inl, inr, length}
use rust_mq.Outcome.{Result, ok, err, and_then}
use rust_mq.Mqtt3.Errors
use rust_mq.Mqtt3.Qos.{at_least_once, exactly_once}
use rust_mq.Mqtt3.PacketIdentifier.{PacketIdentifier}
use rust_mq.Mqtt3.Packet.{
  Packet, Suback, Subscribe, SubscribeReturnCodes, SubscribeTopic, success, failure, Unsubscribe,
}
use rust_mq.Mqtt3.Topic.{from_str}
use rust_mq.Mqtt3.Message.{Message}
use rust_mq.Mqttc.Errors.{incomming_storage_absent}
use rust_mq.Mqttc.Store.{Store}
use rust_mq.Mqttc.Network.{Network}
use rust_mq.Mqttc.Client.{Client, Method, write_packet, flush}
use rust_mq.Mqttc.Client.Outgoing.{from_mqtt3, has_pid}
use rust_mq.Mqttc.Client.Incoming.{
  puback_of, pubcomp_of, subscribe_all, suback_of, unsuback_of, pubrec_of, pubrel_of,
}
use rust_mq.Mqttc.Client.Invariant.{
  Queued, Valid, IsValid, Holds, IsAnswer, Calm, Holds-bind, write_packet-Holds, flush-Holds,
  on_incomming-Holds, on_outgoing-Holds,
}

module _ (Bad : Type 0) {N S : Type 0} where
  pub puback-Holds :
      (pid : PacketIdentifier) (c : Client N S) (q : List Message)
      → IsValid c
      → All (Queued at_least_once) q
      → Holds Bad (puback_of pid c q)
  puback-Holds pid c [] v h = v
  puback-Holds pid c (m ∷ rest) v h =
      let v' : Valid c.opts.client_id c.last_pid rest c.outgoing_rec c.incomming_rec = record {
        has_id = v.has_id;
        last_pid = v.last_pid;
        acks_Queued = h.1;
        recs_Queued = v.recs_Queued;
        held_Queued = v.held_Queued;
      } in
      elim (Bool-cases (has_pid m.pid pid)) [ inl e ↦ rw e v' | inr e ↦ rw e v' ]

  pub pubcomp-Holds :
      (pid : PacketIdentifier) (c : Client N S) (q : List PacketIdentifier)
      → IsValid c
      → Holds Bad (pubcomp_of pid c q)
  pubcomp-Holds pid c [] v = v
  pubcomp-Holds pid c (_ ∷ rest) v = v

  pub from_mqtt3-Holds :
      {A : Type 0} (r : Result Errors.Error A) (c : Client N S)
      → IsValid c
      → Holds Bad (from_mqtt3 r c)
  from_mqtt3-Holds (ok a) c v = v
  from_mqtt3-Holds (err e) c v = v

  subscribe_all-Holds :
      (pid : PacketIdentifier) (codes : List SubscribeReturnCodes) (topics : List SubscribeTopic)
      (c : Client N S)
      → IsValid c
      → Holds Bad (subscribe_all pid codes topics c)
  unfolding subscribe_all
  subscribe_all-Holds pid (success qos ∷ codes) (t ∷ topics) c v =
      Holds-bind Bad (from_mqtt3 (from_str t.topic_path) c) _
        (from_mqtt3-Holds (from_str t.topic_path) c v)
        λ path c' v'. subscribe_all-Holds pid codes topics _ v'
  subscribe_all-Holds pid (failure ∷ codes) (t ∷ topics) c v =
      subscribe_all-Holds pid codes topics c v
  subscribe_all-Holds pid [] topics c v = v
  subscribe_all-Holds pid (success qos ∷ codes) [] c v = v
  subscribe_all-Holds pid (failure ∷ codes) [] c v = v

  pub suback-Holds :
      (suback : Suback) (c : Client N S) (q : List Subscribe)
      → IsValid c
      → Holds Bad (suback_of suback c q)
  suback-Holds suback c [] v = v
  suback-Holds suback c (s ∷ rest) v = elim (Bool-cases (s.pid == suback.pid)) [
    | inr e ↦ rw e v
    | inl e ↦ rw e (elim (Bool-cases (length s.topics == length suback.return_codes)) [
      | inr l ↦ rw l v
      | inl l ↦ rw l (
          Holds-bind Bad (subscribe_all s.pid suback.return_codes s.topics _) _
            (subscribe_all-Holds s.pid suback.return_codes s.topics _ v) λ _ c' v'. v')
    ])
  ]

  pub unsuback-Holds :
      (pid : PacketIdentifier) (c : Client N S) (q : List Unsubscribe)
      → IsValid c
      → Holds Bad (unsuback_of pid c q)
  unsuback-Holds pid c [] v = v
  unsuback-Holds pid c (u ∷ rest) v = elim (Bool-cases (u.pid == pid)) [
    | inl e ↦ rw e v
    | inr e ↦ rw e v
  ]

module _ (Bad : Type 0) {N S : Type 0} (net : Network N) (store : Store S)
    (calm : Calm Bad net store) where
  pub send-Holds :
      {A : Type 0} (p : Packet) (c : Client N S) (f : Method N S A)
      → IsAnswer p
      → IsValid c
      → ((c : Client N S) → IsValid c → Holds Bad (f c))
      → Holds Bad (and_then (write_packet net p c) (λ _ c. and_then (flush net c) (λ _. f)))
  send-Holds p c f a v h =
      Holds-bind Bad (write_packet net p c) _
        (write_packet-Holds Bad net p c (calm.write_Sends p c.conn a) v)
        λ _ c' v'.
          Holds-bind Bad (flush net c') _ (flush-Holds Bad net c' (calm.flush_Answers c'.conn) v')
            λ _. h

  pub pubrec-Holds :
      (pid : PacketIdentifier) (c : Client N S) (q : List Message)
      → IsValid c
      → All (Queued exactly_once) q
      → Holds Bad (pubrec_of net store pid c q)
  pubrec-Holds pid c [] v h = v
  pubrec-Holds pid c (m ∷ rest) v h =
      let v' : Valid c.opts.client_id c.last_pid c.outgoing_ack rest c.incomming_rec = record {
        has_id = v.has_id;
        last_pid = v.last_pid;
        acks_Queued = v.acks_Queued;
        recs_Queued = h.1;
        held_Queued = v.held_Queued;
      } in
      elim (Bool-cases (has_pid m.pid pid)) [
        | inr e ↦ rw e v'
        | inl e ↦ rw e (
            send-Holds (Packet.pubrel pid) _ _ tt v' λ c' w.
              Holds-bind Bad _ _
                (on_outgoing-Holds Bad (store.delete pid) incomming_storage_absent _
                  (calm.delete_Answers pid) w)
                λ _ _ w'. w')
      ]

  pub pubrel-Holds :
      (pid : PacketIdentifier) (c : Client N S) (q : List Message)
      → IsValid c
      → All (Queued exactly_once) q
      → Holds Bad (pubrel_of net store pid c q)
  pubrel-Holds pid c [] v h = v
  pubrel-Holds pid c (m ∷ rest) v h =
      let v' : Valid c.opts.client_id c.last_pid c.outgoing_ack c.outgoing_rec rest = record {
        has_id = v.has_id;
        last_pid = v.last_pid;
        acks_Queued = v.acks_Queued;
        recs_Queued = v.recs_Queued;
        held_Queued = h.1;
      } in
      elim (Bool-cases (has_pid m.pid pid)) [
        | inr e ↦ rw e v'
        | inl e ↦ rw e (
            Holds-bind Bad _ _
              (on_incomming-Holds Bad (store.get pid) incomming_storage_absent _
                (calm.get_Answers pid) v')
              λ _ _ w. w)
      ]
