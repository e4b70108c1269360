-- ===== src/Mqttc/Client/Life/Steps.antt =====
-- The steps of a reconnection in mqttc/src/client.rs keep the client valid, whatever the network and
-- the store answer.
use rust_mq.Base.{Option, none, some, Bool-cases, Option-cases, inl, inr}
use rust_mq.Outcome.{Outcome, done, failed, panicked, stuck}
use rust_mq.Mqtt3.Packet.{Packet, Connect}
use rust_mq.Mqtt3.Message.{Message}
use rust_mq.Mqtt3.Qos.{Qos, at_most_once, at_least_once, exactly_once}
use rust_mq.Mqtt3.PacketIdentifier.{PacketIdentifier}
use rust_mq.Mqttc.Errors.{Error}
use rust_mq.Mqttc.Store.{Store}
use rust_mq.Mqttc.Network.{Network}
use rust_mq.Mqttc.Options.{generate_connect_packet}
use rust_mq.Mqttc.Client.{
  is_connected, Client, Method, with_conn, write_packet, flush, ping, unbind, client_id_unwrapped,
}
use rust_mq.Mqttc.Client.Life.{
  sent_connect, send_connect, handshake_with, resubscribe, reconnect_with,
}
use rust_mq.Mqttc.Client.Invariant.{
  IsValid, Holds, Answers, Sends, Calm, Holds-bind, Holds-dropped, with_conn-Holds,
}
use rust_mq.Mqttc.Client.Incoming.Safety.{WithPid, IsWelcome}
use rust_mq.Mqttc.Client.Outgoing.Safety.{
  flush-safe, write-safe, ping-Holds, subscribe_packet-Holds,
}

pub any-Answers : {E S A : Type 0} (o : Outcome E S A) → Answers Unit o
any-Answers (done a s) = tt
any-Answers (failed e s) = tt
any-Answers panicked = tt
any-Answers stuck = tt

pub any-Sends : {E S A : Type 0} (o : Outcome E S A) → Sends Unit o
any-Sends (done a s) = tt
any-Sends _ = tt

pub any-Calm : {N S : Type 0} (net : Network N) (store : Store S) → Calm Unit net store
any-Calm net store = record {
  write_Sends = λ p n _. any-Sends (net.write_packet p n);
  flush_Answers = λ n. any-Answers (net.flush n);
  put_Answers = λ m s _. any-Answers (store.put m s);
  get_Answers = λ pid s. any-Answers (store.get pid s);
  delete_Answers = λ pid s. any-Answers (store.delete pid s);
}

any-WithPid : (q : Qos) (pid : Option PacketIdentifier) → WithPid Unit q pid
any-WithPid at_most_once pid = tt
any-WithPid at_least_once none = tt
any-WithPid at_least_once (some pid) = tt
any-WithPid exactly_once none = tt
any-WithPid exactly_once (some pid) = tt

pub any-IsWelcome : (p : Packet) → IsWelcome Unit p
any-IsWelcome (Packet.publish p) = (any-WithPid p.qos p.pid, λ _ _. tt)
any-IsWelcome _ = tt

-- A method that keeps the client valid.
abbrev pub Keeps : {N S A : Type 0} → Method N S A → Type 0
Keeps {N} {S} m = (c : Client N S) → IsValid c → Holds Unit (m c)

module _ {N S : Type 0} (net : Network N) (store : Store S) where
  unbound-Holds :
      (o : Outcome Error (Client N S) (Unit {0}))
      → Holds Unit o
      → Holds Unit (client_id_unwrapped o)
  unbound-Holds (done _ c) v = elim (Option-cases c.opts.client_id) [
    | inl e ↦ rw e tt
    | inr (id, e) ↦ rw e v
  ]
  unbound-Holds (failed e c) v = v
  unbound-Holds panicked v = tt
  unbound-Holds stuck v = tt

  pub unbind-Keeps : Keeps {S = S} (unbind net)
  unfolding unbind
  unbind-Keeps c v = unbound-Holds _ (
      Holds-dropped Unit (with_conn c (net.terminate c.conn))
        (with_conn-Holds Unit c (net.terminate c.conn) (any-Answers (net.terminate c.conn)) v))

  pub write-Keeps : (p : Packet) → Keeps {S = S} (write_packet net p)
  write-Keeps p =
      write-safe Unit net store (any-Calm net store) (λ p n. any-Sends (net.write_packet p n)) p

  pub flush-Keeps : Keeps {S = S} (flush net)
  flush-Keeps =
      flush-safe Unit net store (any-Calm net store) (λ p n. any-Sends (net.write_packet p n))

  pub ping-Keeps : Keeps {S = S} (ping net)
  ping-Keeps =
      ping-Holds Unit net store (any-Calm net store) (λ p n. any-Sends (net.write_packet p n))

  sent_connect-Keeps : (o : Option Connect) → Keeps (sent_connect net store o)
  sent_connect-Keeps none c v = tt
  sent_connect-Keeps (some packet) c v =
      Holds-bind Unit (write_packet net (Packet.connect packet) c) _
        (write-Keeps (Packet.connect packet) c v) λ _ c' w. flush-Keeps c' w

  module _ (wait : Method N S (Option Message)) (waits : Keeps wait) where
    pub handshake-Keeps : Keeps (handshake_with net store wait)
    unfolding handshake_with send_connect
    handshake-Keeps c v =
        Holds-bind Unit _ _ (sent_connect-Keeps (generate_connect_packet c.opts) _ v)
          λ _ c₁ v₁. Holds-bind Unit (wait c₁) _ (waits c₁ v₁) λ _ c₂ v₂. v₂

    resubscribe-Keeps : Keeps (resubscribe net store)
    unfolding resubscribe
    resubscribe-Keeps c v = Holds-dropped Unit _ (
        subscribe_packet-Holds Unit net store (any-Calm net store)
          (λ p n. any-Sends (net.write_packet p n)) _ c v)

    pub reconnect-Keeps : Keeps (reconnect_with net store wait)
    unfolding reconnect_with
    reconnect-Keeps c v = elim (Bool-cases (is_connected c.state)) [
      | inl e ↦ rw e v
      | inr e ↦ rw e (
          Holds-bind Unit _ _
            (Holds-bind Unit _ _
              (with_conn-Holds Unit c (net.connect c.opts.keep_alive c.conn) (any-Answers _) v)
              λ _ c₁ v₁. handshake-Keeps c₁ v₁)
            λ _ c₂ v₂. resubscribe-Keeps c₂ v₂)
    ]
