-- ===== src/Mqttc/Client/Flow.antt =====
-- The exchanges of QoS 1 and 2 in mqttc/src/client.rs, from the first packet to the last.
pub mod Acknowledge
pub mod Complete
pub mod Deliver
pub mod Idle
pub mod Receive
use rust_mq.Base.{
  ℕ, ◌==◌, ==_iff, ◌≡◌, ◌≢◌, refl, sym, ap, ◌∙◌, Bool, true, false, List, [], ◌∷◌, ◌++◌, map,
  Option, some, if◌then◌else◌, arith, append-nil,
}
use rust_mq.Outcome.{
  Result, err, Outcome, done, failed, panicked, stuck, Action, ◌>>◌, and_then, pure,
}
use rust_mq.Mqtt3.Bytes.{Bytes, Text}
use rust_mq.Mqtt3.Qos.{Qos, at_most_once, at_least_once, exactly_once}
use rust_mq.Mqtt3.PacketIdentifier.{PacketIdentifier, next}
use rust_mq.Mqtt3.Packet.{Packet}
use rust_mq.Mqtt3.Topic.{TopicPath}
use rust_mq.Mqtt3.Message.{Message}
use rust_mq.Mqttc.Errors.{Error, unhandled_puback}
use rust_mq.Mqttc.PubOpt.{PubOpt}
use rust_mq.Mqttc.PubOpt
use rust_mq.Mqttc.Store.{Store}
use rust_mq.Mqttc.Network.{Network}
use rust_mq.Mqttc.Client.{ClientState, connected, Client, Method, push_back, on_incomming}
use rust_mq.Mqttc.Client.Outgoing.{has_pid, with_pid, complete, pop_back}
use rust_mq.Mqttc.Client.Incoming.{
  on_puback, on_pubrel, on_publish, handle_message, parse_in, parse_packet,
}

self : (pid : PacketIdentifier) → (pid == pid) ≡ true
self pid = ground arith

other : (a b : PacketIdentifier) → a ≢ b → (a == b) ≡ false
other a b h = ground arith

module _ {N S : Type 0} (net : Network N) (store : Store S) where
  -- Packets handled one after the other, until an error.
  abbrev pub handle_all : List Packet → Method N S (Unit {0})
  handle_all [] c = done tt c
  handle_all (p ∷ ps) c = and_then (parse_packet net store p c) (λ _. handle_all ps)

  -- The queue of messages that carry these identifiers.
  abbrev pub Carrying : List Message → List PacketIdentifier → Type 0
  Carrying [] [] = Unit
  Carrying (m ∷ ms) (pid ∷ pids) = (m.pid ≡ some pid) × Carrying ms pids
  Carrying _ _ = ⊥

  -- A connected client that handles PUBACK packets in the order of the first messages of its queue
  -- handles each without an error, and is then the same but for the queue, which is what stood behind
  -- these messages.
  pub pubacks-in_order :
      (ms rest : List Message) (pids : List PacketIdentifier) (c : Client N S)
      → c.state ≡ connected
      → c.outgoing_ack ≡ ms ++ rest
      → Carrying ms pids
      → handle_all (map Packet.puback pids) c ≡ done tt (record c { outgoing_ack = rest })
  unfolding parse_packet parse_in on_puback
  pubacks-in_order [] rest [] c st q h = rw (← q) refl
  pubacks-in_order (m ∷ ms) rest (pid ∷ pids) c st q h =
      rw (st, q, h.0, self pid)
        (pubacks-in_order ms rest pids (record c { state = connected; outgoing_ack = ms ++ rest })
          refl refl h.1)
  pubacks-in_order [] rest (pid ∷ pids) c st q h = absurd h
  pubacks-in_order (m ∷ ms) rest [] c st q h = absurd h

  -- A connected client that handles the PUBACK packets of the first two messages of its queue in the
  -- other order: both are errors, and both messages are gone from the queue.
  pub pubacks-swapped :
      (m₁ m₂ : Message) (rest : List Message) (a b : PacketIdentifier) (c : Client N S)
      → c.state ≡ connected
      → c.outgoing_ack ≡ m₁ ∷ m₂ ∷ rest
      → m₁.pid ≡ some a
      → m₂.pid ≡ some b
      → a ≢ b
      → (c₁ : Client N S) × (parse_packet net store (Packet.puback b) c
          ≡ failed (unhandled_puback b) c₁)
        × (parse_packet net store (Packet.puback a) c₁
            ≡ failed (unhandled_puback a) (record c { outgoing_ack = rest }))
  unfolding parse_packet parse_in on_puback
  pubacks-swapped m₁ m₂ rest a b c st q p₁ p₂ ne = (
    record c { outgoing_ack = m₂ ∷ rest },
    rw (st, q, p₁, other a b ne) refl,
    rw (st, p₂, other b a (λ e. ne (sym e))) refl,
  )

  abbrev pub outgoing_message : TopicPath → Bytes → PubOpt → PacketIdentifier → Message
  outgoing_message path payload pubopt pid = record {
    topic = path;
    qos = exactly_once;
    retain = PubOpt.is_retain pubopt;
    pid = some pid;
    payload = payload;
  }

  -- The client that waits for the PUBREC.
  abbrev awaiting : Client N S → Message → S → N → Client N S
  awaiting c m s n = record c {
    opts = record c.opts { outgoing_store = some s };
    last_pid = next c.last_pid;
    outgoing_rec = push_back c.outgoing_rec m;
    conn = n;
    last_flush = net.now n;
  }
