-- ===== src/Mqttc/Client/Flow/Idle.antt =====
-- `_normalized` of mqttc/src/client.rs in the middle of a message sent with QoS 2.
use rust_mq.Base.{◌≡◌, refl, true, false, [], ◌∷◌, none, some}
use rust_mq.Outcome.{done}
use rust_mq.Mqtt3.PacketIdentifier.{PacketIdentifier}
use rust_mq.Mqtt3.Packet.{Packet}
use rust_mq.Mqtt3.Message.{Message}
use rust_mq.Mqttc.Store.{Store}
use rust_mq.Mqttc.Network.{Network}
use rust_mq.Mqttc.Client.{
  Client, connected, is_connected, normalized, write_packet, flush, on_outgoing,
}
use rust_mq.Mqttc.Client.Incoming.{on_pubrec, parse_in, parse_packet}
use rust_mq.Mqttc.Client.Flow.{self}

module _ {N S : Type 0} (net : Network N) (store : Store S) where
  -- No packet is expected on a connection, but those of the messages sent with QoS 2.
  abbrev pub IsQuiet : Client N S → Type 0
  IsQuiet c =
      (c.state ≡ connected)
      × (c.await_ping ≡ false)
      × (c.outgoing_ack ≡ [])
      × (c.incomming_pub ≡ [])
      × (c.incomming_rec ≡ [])
      × (c.incomming_rel ≡ [])
      × (c.await_suback ≡ [])
      × (c.await_unsuback ≡ [])

  -- A quiet client with one message of QoS 2 on its way is not normalized before the PUBREC for it,
  -- and is normalized after it, with the PUBREL written and flushed, although the packet identifier
  -- then still waits for its PUBCOMP. The network writes and flushes that PUBREL without an error.
  pub normalized-pubrec :
      (c : Client N S) (m : Message) (pid : PacketIdentifier) (s s' : S) (n₁ n₂ : N)
      → IsQuiet c
      → c.outgoing_rec ≡ m ∷ []
      → m.pid ≡ some pid
      → c.outgoing_comp ≡ []
      → c.opts.outgoing_store ≡ some s
      → store.delete pid s ≡ done tt s'
      → net.write_packet (Packet.pubrel pid) c.conn ≡ done tt n₁
      → net.flush n₁ ≡ done tt n₂
      → (c' : Client N S) × (normalized c ≡ false)
        × (parse_packet net store (Packet.pubrec pid) c ≡ done none c')
        × (c'.conn ≡ n₂)
        × (c'.outgoing_comp ≡ pid ∷ [])
        × (normalized c' ≡ true)
  unfolding parse_packet parse_in on_pubrec write_packet flush on_outgoing normalized is_connected
  normalized-pubrec c m pid s s' n₁ n₂ (st, aw, ack, pub_q, rec_q, rel_q, sub_q, unsub_q) q id comp
        has del e₁ e₂ =
      (
        record c {
          opts = record c.opts { outgoing_store = some s' };
          outgoing_rec = [];
          outgoing_comp = pid ∷ [];
          conn = n₂;
          last_flush = net.now n₂;
        },
        rw (st, aw, ack, q) refl,
        rw (st, q, id, self pid, e₁, e₂, comp, has, del) refl,
        refl,
        refl,
        rw (st, aw, ack, pub_q, rec_q, rel_q, sub_q, unsub_q) refl,
      )
