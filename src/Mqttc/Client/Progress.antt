-- ===== src/Mqttc/Client/Progress.antt =====
-- A client of mqttc/src/client.rs on a network from which only so much can be read: the rules that
-- carry a bound on what is left along a method.
pub mod Arms
pub mod Unbind
pub mod Accept
pub mod Await
pub mod Opening
use rust_mq.Base.{ℕ, ◌≤◌, ◌<◌, ◌≡◌, Option, none, some, Option-cases, inl, inr, arith}
use rust_mq.Outcome.{Outcome, done, failed, panicked, stuck, Action, and_then}
use rust_mq.Mqtt3.Errors.{ErrorKind}
use rust_mq.Mqtt3.Errors
use rust_mq.Mqtt3.PacketIdentifier.{PacketIdentifier}
use rust_mq.Mqtt3.Packet.{Packet}
use rust_mq.Mqtt3.Message.{Message}
use rust_mq.Mqttc.Errors.{StoreError, Error}
use rust_mq.Mqttc.Store.{Store, LocalStorage, local_storage, put_at, get_at}
use rust_mq.Mqttc.Network.{Network}
use rust_mq.Mqttc.Options.{forever_disconnect}
use rust_mq.Mqttc.Client.{
  Client, Method, disconnected, with_conn, write_packet, flush, ping, unbind, on_incomming,
  on_outgoing, dropped, written, flushed, stored, keep_incomming, keep_outgoing,
  client_id_unwrapped,
}

-- An outcome with a state of which something holds, or a panic.
abbrev pub Goes : {E S A : Type 0} → (S → Type 0) → Outcome E S A → Type 0
Goes P (done a s) = P s
Goes P (failed e s) = P s
Goes P panicked = Unit
Goes P stuck = ⊥

-- A read takes something away where it gives a packet or runs into its timeout.
abbrev pub Takes : {N : Type 0} → (N → ℕ) → ℕ → Outcome Errors.Error N Packet → Type 0
Takes left k (done p n) = left n < k
Takes left k (failed (Errors.io ErrorKind.would_block) n) = left n < k
Takes left k (failed (Errors.io ErrorKind.timed_out) n) = left n < k
Takes left k (failed e n) = left n ≤ k
Takes left k panicked = Unit
Takes left k stuck = ⊥

-- A network from which only so much can be read, whatever is written to it.
pub record Finite {N : Type 0} (net : Network N) (left : N → ℕ) : Type 0 where
  pub reads : (n : N) → Takes left (left n) (net.read_packet n)
  pub writes : (p : Packet) (n : N) → Goes (λ n'. left n' ≤ left n) (net.write_packet p n)
  pub flushes : (n : N) → Goes (λ n'. left n' ≤ left n) (net.flush n)
  pub sets : (t : Option ℕ) (n : N) → Goes (λ n'. left n' ≤ left n) (net.set_read_timeout t n)
  pub ends : (n : N) → Goes (λ n'. left n' ≤ left n) (net.terminate n)

-- A store that answers.
pub record Answering {S : Type 0} (store : Store S) : Type 0 where
  pub puts : (m : Message) (s : S) → Goes (λ _. Unit) (store.put m s)
  pub gets : (pid : PacketIdentifier) (s : S) → Goes (λ _. Unit) (store.get pid s)
  pub deletes : (pid : PacketIdentifier) (s : S) → Goes (λ _. Unit) (store.delete pid s)

put_at-Goes :
    (pid : Option PacketIdentifier) (m : Message) (s : LocalStorage)
    → Goes (λ _. Unit {0}) (put_at pid m s)
put_at-Goes none m s = tt
put_at-Goes (some pid) m s = tt

get_at-Goes :
    (pid : PacketIdentifier) (o : Option Message) (s : LocalStorage)
    → Goes (λ _. Unit {0}) (get_at pid o s)
get_at-Goes pid none s = tt
get_at-Goes pid (some m) s = tt

pub local_storage-Answering : Answering local_storage
unfolding local_storage
local_storage-Answering = record {
  puts = λ m s. put_at-Goes m.pid m s;
  gets = λ pid s. get_at-Goes pid _ s;
  deletes = λ pid s. tt;
}

module _ {N S : Type 0} (left : N → ℕ) (k : ℕ) where
  -- A client that does not reconnect, with so much left at most.
  abbrev pub Under : Client N S → Type 0
  Under c = (left c.conn ≤ k) × (c.opts.reconnect ≡ forever_disconnect)

  pub Goes-bind :
      {A B : Type 0} (P : Client N S → Type 0) (o : Outcome Error (Client N S) A)
      (f : A → Method N S B)
      → Goes Under o
      → ((c : Client N S) → Under c → P c)
      → ((a : A) (c : Client N S) → Under c → Goes P (f a c))
      → Goes P (and_then o f)
  Goes-bind P (done a c) f v w h = h a c v
  Goes-bind P (failed e c) f v w h = w c v
  Goes-bind P panicked f v w h = tt
  Goes-bind P stuck f v w h = v

  pub then :
      {A B : Type 0} (o : Outcome Error (Client N S) A) (f : A → Method N S B)
      → Goes Under o
      → ((a : A) (c : Client N S) → Under c → Goes Under (f a c))
      → Goes Under (and_then o f)
  then o f v h = Goes-bind Under o f v (λ c w. w) h

  pub dropped-Goes :
      {A : Type 0} (P : Client N S → Type 0) (o : Outcome Error (Client N S) A)
      → Goes P o
      → Goes P (dropped o)
  dropped-Goes P (done a c) v = v
  dropped-Goes P (failed e c) v = v
  dropped-Goes P panicked v = v
  dropped-Goes P stuck v = v

  pub with_conn-Under :
      {A : Type 0} (c : Client N S) (o : Outcome ErrorKind N A)
      → Goes (λ n. left n ≤ left c.conn) o
      → Under c
      → Goes Under (with_conn c o)
  with_conn-Under c (done a n) h (l, f) = (omega (arith, h, l), f)
  with_conn-Under c (failed e n) h (l, f) = (omega (arith, h, l), f)
  with_conn-Under c panicked h v = tt
  with_conn-Under c stuck h v = h

  stored-Under :
      {A : Type 0} (keep : S → Client N S) (o : Outcome StoreError S A)
      → ((s : S) → Under (keep s))
      → Goes (λ _. Unit) o
      → Goes Under (stored keep o)
  stored-Under keep (done a s) k h = k s
  stored-Under keep (failed e s) k h = k s
  stored-Under keep panicked k h = tt
  stored-Under keep stuck k h = h

  pub on_incomming-Under :
      {A : Type 0} (call : Action StoreError S A) (absent : Error) (c : Client N S)
      → ((s : S) → Goes (λ _. Unit) (call s))
      → Under c
      → Goes Under (on_incomming call absent c)
  unfolding on_incomming
  on_incomming-Under call absent c h v = elim (Option-cases c.opts.incomming_store) [
    | inl e ↦ rw e v
    | inr (s, e) ↦ rw e (stored-Under (keep_incomming c) (call s) (λ _. v) (h s))
  ]

  pub on_outgoing-Under :
      {A : Type 0} (call : Action StoreError S A) (absent : Error) (c : Client N S)
      → ((s : S) → Goes (λ _. Unit) (call s))
      → Under c
      → Goes Under (on_outgoing call absent c)
  unfolding on_outgoing
  on_outgoing-Under call absent c h v = elim (Option-cases c.opts.outgoing_store) [
    | inl e ↦ rw e v
    | inr (s, e) ↦ rw e (stored-Under (keep_outgoing c) (call s) (λ _. v) (h s))
  ]

module _ {N S : Type 0} (net : Network N) (left : N → ℕ) (finite : Finite net left) (k : ℕ) where
  written-Under :
      (c : Client N S) (o : Outcome Errors.Error N (Unit {0}))
      → Goes (λ n. left n ≤ left c.conn) o
      → Under left k c
      → Goes (Under left k) (written c o)
  written-Under c (done a n) h (l, f) = (omega (arith, h, l), f)
  written-Under c (failed e n) h v = tt
  written-Under c panicked h v = tt
  written-Under c stuck h v = h

  pub write-Under :
      (p : Packet) (c : Client N S) → Under left k c → Goes (Under left k) (write_packet net p c)
  unfolding write_packet
  write-Under p c v = written-Under c (net.write_packet p c.conn) (finite.writes p c.conn) v

  flushed-Under :
      (o : Outcome Error (Client N S) (Unit {0}))
      → Goes (Under left k) o
      → Goes (Under left k) (flushed net o)
  flushed-Under (done _ c) v = v
  flushed-Under (failed e c) v = v
  flushed-Under panicked v = v
  flushed-Under stuck v = v

  pub flush-Under : (c : Client N S) → Under left k c → Goes (Under left k) (flush net c)
  unfolding flush
  flush-Under c v =
      flushed-Under _ (with_conn-Under left k c (net.flush c.conn) (finite.flushes c.conn) v)

  pub send-Under :
      {A : Type 0} (p : Packet) (c : Client N S) (f : Method N S A)
      → Under left k c
      → ((c : Client N S) → Under left k c → Goes (Under left k) (f c))
      → Goes
          (Under left k)
          (and_then (write_packet net p c) (λ _ c. and_then (flush net c) (λ _. f)))
  send-Under p c f v h =
      then left k (write_packet net p c) _ (write-Under p c v)
        λ _ c₁ v₁. then left k (flush net c₁) _ (flush-Under c₁ v₁) λ _. h
