-- ===== src/Mqttc/Client/Invariant.antt =====
-- What holds of the client between the calls of its methods in mqttc/src/client.rs, and the rules that
-- carry it along a method. `Bad` is what is known where a method panics: with ⊥ no panic is possible,
-- with Unit nothing is known.
use rust_mq.Base.{◌≡◌, List, Option, none, some, All, Option-cases, inl, inr}
use rust_mq.Outcome.{Outcome, done, failed, panicked, stuck, Action, and_then}
use rust_mq.Mqtt3.Bytes.{Text, IsU16}
use rust_mq.Mqtt3.Errors.{ErrorKind}
use rust_mq.Mqtt3.Errors
use rust_mq.Mqtt3.Qos.{Qos, at_least_once, exactly_once}
use rust_mq.Mqtt3.PacketIdentifier.{PacketIdentifier}
use rust_mq.Mqtt3.Packet.{Packet}
use rust_mq.Mqtt3.Message.{Message}
use rust_mq.Mqttc.Errors.{StoreError, Error}
use rust_mq.Mqttc.Store.{Store}
use rust_mq.Mqttc.Network.{Network}
use rust_mq.Mqttc.Client.{
  Client, Method, with_conn, write_packet, flush, on_incomming, on_outgoing, dropped, written,
  flushed, stored, keep_incomming, keep_outgoing,
}

abbrev pub IsSome : {A : Type 0} → Option A → Type 0
IsSome none = ⊥
IsSome (some a) = Unit

-- A message in a queue: it has the quality of the queue and an identifier.
abbrev pub Queued : Qos → Message → Type 0
Queued q m = (m.qos ≡ q) × IsSome m.pid

pub record Valid (id : Option Text) (pid : PacketIdentifier) (acks recs held : List Message)
    : Type 0 where
  pub has_id : IsSome id
  pub last_pid : IsU16 pid
  pub acks_Queued : All (Queued at_least_once) acks
  pub recs_Queued : All (Queued exactly_once) recs
  pub held_Queued : All (Queued exactly_once) held

abbrev pub IsValid : {N S : Type 0} → Client N S → Type 0
IsValid c = Valid c.opts.client_id c.last_pid c.outgoing_ack c.outgoing_rec c.incomming_rec

-- The client after a method, its errors included, is valid.
abbrev pub Holds : {N S A : Type 0} → Type 0 → Outcome Error (Client N S) A → Type 0
Holds Bad (done a c) = IsValid c
Holds Bad (failed e c) = IsValid c
Holds Bad panicked = Bad
Holds Bad stuck = Bad

abbrev pub Answers : {E S A : Type 0} → Type 0 → Outcome E S A → Type 0
Answers Bad (done a s) = Unit
Answers Bad (failed e s) = Unit
Answers Bad panicked = Bad
Answers Bad stuck = Bad

-- It answers without an error.
abbrev pub Sends : {E S A : Type 0} → Type 0 → Outcome E S A → Type 0
Sends Bad (done a s) = Unit
Sends Bad _ = Bad

-- The packets that a client sends by itself while it handles others.
abbrev pub IsAnswer : Packet → Type 0
IsAnswer (Packet.puback pid) = Unit
IsAnswer (Packet.pubrec pid) = Unit
IsAnswer (Packet.pubrel pid) = Unit
IsAnswer (Packet.pubcomp pid) = Unit
IsAnswer _ = ⊥

-- What is asked of the network and of the store.
pub record Calm (Bad : Type 0) {N S : Type 0} (net : Network N) (store : Store S) : Type 0 where
  pub write_Sends : (p : Packet) (n : N) → IsAnswer p → Sends Bad (net.write_packet p n)
  pub flush_Answers : (n : N) → Answers Bad (net.flush n)
  pub put_Answers : (m : Message) (s : S) → IsSome m.pid → Answers Bad (store.put m s)
  pub get_Answers : (pid : PacketIdentifier) (s : S) → Answers Bad (store.get pid s)
  pub delete_Answers : (pid : PacketIdentifier) (s : S) → Answers Bad (store.delete pid s)

module _ (Bad : Type 0) {N S : Type 0} where
  pub Holds-bind :
      {A B : Type 0} (o : Outcome Error (Client N S) A) (f : A → Method N S B)
      → Holds Bad o
      → ((a : A) (c : Client N S) → IsValid c → Holds Bad (f a c))
      → Holds Bad (and_then o f)
  Holds-bind (done a c) f v h = h a c v
  Holds-bind (failed e c) f v h = v
  Holds-bind panicked f v h = v
  Holds-bind stuck f v h = v

  pub Holds-dropped :
      {A : Type 0} (o : Outcome Error (Client N S) A) → Holds Bad o → Holds Bad (dropped o)
  Holds-dropped (done a c) v = v
  Holds-dropped (failed e c) v = v
  Holds-dropped panicked v = v
  Holds-dropped stuck v = v

  pub with_conn-Holds :
      {A : Type 0} (c : Client N S) (o : Outcome ErrorKind N A)
      → Answers Bad o
      → IsValid c
      → Holds Bad (with_conn c o)
  with_conn-Holds c (done a n) s v = v
  with_conn-Holds c (failed e n) s v = v
  with_conn-Holds c panicked s v = s
  with_conn-Holds c stuck s v = s

  written-Holds :
      (c : Client N S) (o : Outcome Errors.Error N (Unit {0}))
      → Sends Bad o
      → IsValid c
      → Holds Bad (written c o)
  written-Holds c (done a n) s v = v
  written-Holds c (failed e n) s v = s
  written-Holds c panicked s v = s
  written-Holds c stuck s v = s

  module _ (net : Network N) where
    pub write_packet-Holds :
        (p : Packet) (c : Client N S)
        → Sends Bad (net.write_packet p c.conn)
        → IsValid c
        → Holds Bad (write_packet net p c)
    unfolding write_packet
    write_packet-Holds p c s v = written-Holds c (net.write_packet p c.conn) s v

    flushed-Holds :
        (o : Outcome Error (Client N S) (Unit {0})) → Holds Bad o → Holds Bad (flushed net o)
    flushed-Holds (done _ c) v = v
    flushed-Holds (failed e c) v = v
    flushed-Holds panicked v = v
    flushed-Holds stuck v = v

    pub flush-Holds :
        (c : Client N S) → Answers Bad (net.flush c.conn) → IsValid c → Holds Bad (flush net c)
    unfolding flush
    flush-Holds c s v =
        flushed-Holds (with_conn c (net.flush c.conn)) (with_conn-Holds c (net.flush c.conn) s v)

  stored-Holds :
      {A : Type 0} (keep : S → Client N S) (o : Outcome StoreError S A)
      → ((s : S) → IsValid (keep s))
      → Answers Bad o
      → Holds Bad (stored keep o)
  stored-Holds keep (done a s) k h = k s
  stored-Holds keep (failed e s) k h = k s
  stored-Holds keep panicked k h = h
  stored-Holds keep stuck k h = h

  pub on_incomming-Holds :
      {A : Type 0} (call : Action StoreError S A) (absent : Error) (c : Client N S)
      → ((s : S) → Answers Bad (call s))
      → IsValid c
      → Holds Bad (on_incomming call absent c)
  unfolding on_incomming
  on_incomming-Holds call absent c h v = elim (Option-cases c.opts.incomming_store) [
    | inl e ↦ rw e v
    | inr (s, e) ↦ rw e (stored-Holds (keep_incomming c) (call s) (λ _. v) (h s))
  ]

  pub on_outgoing-Holds :
      {A : Type 0} (call : Action StoreError S A) (absent : Error) (c : Client N S)
      → ((s : S) → Answers Bad (call s))
      → IsValid c
      → Holds Bad (on_outgoing call absent c)
  unfolding on_outgoing
  on_outgoing-Holds call absent c h v = elim (Option-cases c.opts.outgoing_store) [
    | inl e ↦ rw e v
    | inr (s, e) ↦ rw e (stored-Holds (keep_outgoing c) (call s) (λ _. v) (h s))
  ]
