-- ===== src/Mqttc/Client/Progress/Opening.antt =====
-- `connect` and `publish` of mqttc/src/client.rs on a network from which only so much can be read, where
-- the client does not reconnect.
use rust_mq.Base.{ℕ, ◌+◌, ◌*◌, ◌≤◌, ◌<◌, ◌≡◌, refl, false, Option, none, some, arith}
use rust_mq.Outcome.{Outcome, done, failed, panicked, stuck, and_then}
use rust_mq.Mqtt3.Bytes.{Bytes, Text}
use rust_mq.Mqtt3.Errors.{ErrorKind}
use rust_mq.Mqtt3.Qos.{Qos, at_most_once, at_least_once, exactly_once}
use rust_mq.Mqtt3.PacketIdentifier.{next}
use rust_mq.Mqtt3.Packet.{Packet, Connect}
use rust_mq.Mqtt3.Topic.{ToTopicPath, to_topic_name}
use rust_mq.Mqtt3.Message.{Message, to_pub}
use rust_mq.Mqttc.Errors.{Error, outgoing_storage_absent}
use rust_mq.Mqttc.PubOpt.{PubOpt}
use rust_mq.Mqttc.PubOpt
use rust_mq.Mqttc.Store.{Store}
use rust_mq.Mqttc.Network.{Network}
use rust_mq.Mqttc.Options.{
  ClientOptions, forever_disconnect, set_client_id, generate_connect_packet,
}
use rust_mq.Mqttc.Client.{Client, write_packet, next_pid, on_outgoing}
use rust_mq.Mqttc.Client.Outgoing.{from_mqtt3, with_pid, enqueue, publish_packet, publish}
use rust_mq.Mqttc.Client.Life.{
  sent_connect, send_connect, handshake_with, await, with_id, fresh, opened, connect,
}
use rust_mq.Mqttc.Client.Progress.{
  Goes, Finite, Answering, Under, then, on_outgoing-Under, write-Under, flush-Under,
}
use rust_mq.Mqttc.Client.Progress.Arms.{from_mqtt3-Under}
use rust_mq.Mqttc.Client.Progress.Accept.{phase_small}
use rust_mq.Mqttc.Client.Progress.Await.{Ended, await-Ended}

-- A value with a state of which something holds, an error, or a panic.
abbrev pub Returns : {E S A : Type 0} → (S → Type 0) → Outcome E S A → Type 0
Returns P (done a s) = P s
Returns P stuck = ⊥
Returns P _ = Unit

pub Goes→Returns : {E S A : Type 0} (P : S → Type 0) (o : Outcome E S A) → Goes P o → Returns P o
Goes→Returns P (done a s) h = h
Goes→Returns P (failed e s) h = tt
Goes→Returns P panicked h = tt
Goes→Returns P stuck h = h

pub Returns-bind :
    {E S A B : Type 0} (P Q : S → Type 0) (o : Outcome E S A) (f : A → S → Outcome E S B)
    → Returns P o
    → ((a : A) (s : S) → P s → Returns Q (f a s))
    → Returns Q (and_then o f)
Returns-bind P Q (done a s) f h k = k a s h
Returns-bind P Q (failed e s) f h k = tt
Returns-bind P Q panicked f h k = tt
Returns-bind P Q stuck f h k = h

module _ {N S : Type 0} (net : Network N) (store : Store S) (left : N → ℕ)
    (finite : Finite net left) (answering : Answering store) (k : ℕ) where
  Ended→Returns :
      (n : ℕ) (o : Outcome Error (Client N S) (Option Message))
      → n ≤ k
      → Ended left n o
      → Returns (Under left k) o
  Ended→Returns n (done none c) h (l, f) = (omega (arith, h, l), f)
  Ended→Returns n (done (some m) c) h (l, f) = (omega (arith, h, l), f)
  Ended→Returns n (failed e c) h v = tt
  Ended→Returns n panicked h v = tt
  Ended→Returns n stuck h v = v

  sent-Under :
      (o : Option Connect) (c : Client N S)
      → Under left k c
      → Goes (Under left k) (sent_connect net store o c)
  sent-Under none c v = tt
  sent-Under (some packet) c v =
      then left k (write_packet net (Packet.connect packet) c) _
        (write-Under net left finite k (Packet.connect packet) c v)
        λ _ c₁ v₁. flush-Under net left finite k c₁ v₁

  handshake-Returns :
      (fuel : ℕ) (c : Client N S)
      → Under left k c
      → 3 * k + 2 < fuel
      → Returns (Under left k) (handshake_with net store (await net store fuel) c)
  unfolding handshake_with send_connect
  handshake-Returns fuel c v enough =
      Returns-bind (Under left k) (Under left k) _ _
        (Goes→Returns (Under left k) _ (sent-Under (generate_connect_packet c.opts) _ v))
        λ _ c₁ v₁.
          Returns-bind (Under left k) (Under left k) (await net store fuel c₁) _
            (Ended→Returns (left c₁.conn) _ v₁.0 (
              await-Ended net store left finite answering fuel c₁ v₁.1
                (omega (arith, v₁.0, enough, phase_small c₁.state c₁.await_ping))))
            λ _ c₂ v₂. v₂

  opened-Returns :
      (fuel : ℕ) (opts : ClientOptions S) (o : Outcome ErrorKind N (Unit {0}))
      → opts.reconnect ≡ forever_disconnect
      → 3 * k + 2 < fuel
      → Goes (λ n. left n ≤ k) o
      → Returns (Under left k) (opened net store fuel opts o)
  opened-Returns fuel opts (done _ n) f enough h =
      handshake-Returns fuel (fresh net store opts n) (h, f) enough
  opened-Returns fuel opts (failed e n) f enough h = tt
  opened-Returns fuel opts panicked f enough h = tt
  opened-Returns fuel opts stuck f enough h = h

  with_id-reconnect :
      (id : Option Text) (generated : Text) (o : ClientOptions S)
      → (with_id net store id generated o).reconnect ≡ o.reconnect
  unfolding set_client_id
  with_id-reconnect none generated o = refl
  with_id-reconnect (some id) generated o = refl

  -- `connect` returns, if what can be read from a new connection is no more than `k`.
  pub connect-Returns :
      (fuel : ℕ) (generated : Text) (o : ClientOptions S) (n : N)
      → o.reconnect ≡ forever_disconnect
      → ((t : Option ℕ) → Goes (λ n'. left n' ≤ k) (net.connect t n))
      → 3 * k + 2 < fuel
      → Returns (Under left k) (connect net store fuel generated o n)
  unfolding connect
  connect-Returns fuel generated o n f opens enough =
      opened-Returns fuel (with_id net store o.client_id generated o) _
        (rw (with_id-reconnect o.client_id generated o) f) enough (opens _)

  enqueue-Under :
      (q : Qos) (m : Message) (c : Client N S)
      → Under left k c
      → Goes (Under left k) (enqueue net store q m c)
  unfolding enqueue next_pid
  enqueue-Under at_most_once m c v = v
  enqueue-Under at_least_once m c v = v
  enqueue-Under exactly_once m c v =
      let sent = with_pid net store m (next c.last_pid) in
      let c₁ = record c { last_pid = next c.last_pid } in
      then left k (on_outgoing (store.put sent) outgoing_storage_absent c₁) _
        (on_outgoing-Under left k (store.put sent) outgoing_storage_absent c₁ (answering.puts sent)
          v)
        λ _ c' w. w

  pub publish-Under :
      (t : ToTopicPath) (payload : Bytes) (o : PubOpt) (c : Client N S)
      → Under left k c
      → Goes (Under left k) (publish net store t payload o c)
  unfolding publish publish_packet
  publish-Under t payload o c v =
      then left k _ _
        (then left k (from_mqtt3 (to_topic_name t) c) _
          (from_mqtt3-Under left k (to_topic_name t) c v)
          λ path c₁ v₁.
            then left k _ _ (enqueue-Under (PubOpt.qos o) _ c₁ v₁)
              λ m c₂ v₂. write-Under net left finite k (Packet.publish (to_pub m none false)) c₂ v₂)
        λ _ c' w. flush-Under net left finite k c' w
