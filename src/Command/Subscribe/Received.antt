-- ===== src/Command/Subscribe/Received.antt =====
-- A message of QoS 2 in the loop of src/client/command/subscribe.rs.
use rust_mq.Base.{ℕ, suc, ◌≡◌, refl, ap, ◌∙◌, false, [], ◌∷◌, none, some, arith}
use rust_mq.Outcome.{ok, done, failed}
use rust_mq.Mqttc.Errors.{not_found}
use rust_mq.Mqtt3.Qos.{exactly_once}
use rust_mq.Mqtt3.PacketIdentifier.{PacketIdentifier}
use rust_mq.Mqtt3.Packet.{Packet, Publish}
use rust_mq.Mqtt3.Topic.{TopicPath, from_str}
use rust_mq.Mqtt3.Message.{Message}
use rust_mq.Mqttc.Store.{LocalStorage, local_storage, local_storage-put, same_pid}
use rust_mq.Mqttc.Network.{Network}
use rust_mq.Mqttc.Client.{Client, Method, connected, normalized, write_packet, flush, on_incomming}
use rust_mq.Mqttc.Client.Outgoing.{complete, pop_back}
use rust_mq.Mqttc.Client.Incoming.{on_publish, handle_message, parse_packet}
use rust_mq.Mqttc.Client.Life.{accept, await_round, await, parsed, reconnect_with}
use rust_mq.Mqttc.Client.Life.Handshake.{Armed, accept-read}
use rust_mq.Mqttc.Client.Flow.Receive.{
  received, holding, released, from_pub-received, publish_in, release_in,
}
use rust_mq.Command.Subscribe.Run.{settle, on_message, listen}

held-normalized :
    {N S : Type 0} (c : Client N S) (m : Message) → c.incomming_rec ≡ m ∷ [] → normalized c ≡ false
unfolding normalized
held-normalized c m e = rw e (ground arith)

module _ {N : Type 0} (net : Network N) (p : Publish) (path : TopicPath)
    (pid : PacketIdentifier) where
  abbrev message : Message
  message = received net local_storage path p pid

  -- The client when the PUBREC is sent, and when the message is returned.
  abbrev held : Client N LocalStorage → LocalStorage → N → Client N LocalStorage
  held c s n = holding net local_storage c message s n

  abbrev handed_out : Client N LocalStorage → LocalStorage → N → N → Client N LocalStorage
  handed_out c s n n' = released net local_storage (record (held c s n) { conn = n' }) pid s

  hold_lem :
      (c : Client N LocalStorage) (s s₁ : LocalStorage) (n₃ n₄ : N)
      → c.state ≡ connected
      → c.incomming_rec ≡ []
      → c.opts.incomming_store ≡ some s
      → from_str p.topic_name ≡ ok path
      → path.wildcards ≡ false
      → p.qos ≡ exactly_once
      → p.pid ≡ some pid
      → local_storage.put message s ≡ done tt s₁
      → net.write_packet (Packet.pubrec pid) c.conn ≡ done tt n₃
      → net.flush n₃ ≡ done tt n₄
      → parse_packet net local_storage (Packet.publish p) c ≡ done none (held c s₁ n₄)
  unfolding on_publish handle_message on_incomming write_packet flush
  hold_lem c s s₁ n₃ n₄ st q has name plain level id put sent out =
      publish_in net local_storage c p st
      ∙ rw
          (
            from_pub-received net local_storage c p path pid name plain level id,
            q,
            has,
            put,
            sent,
            out,
          )
          refl

  settle_lem :
      (c : Client N LocalStorage) (s s₁ : LocalStorage) (n n₇ n₈ n₆ : N)
      → local_storage.delete pid s ≡ done tt s₁
      → net.write_packet (Packet.pubcomp pid) n₆ ≡ done tt n₇
      → net.flush n₇ ≡ done tt n₈
      → (c' : Client N LocalStorage) × (on_message net (some message) (handed_out c s n n₆)
          ≡ done tt c')
        × (c'.incomming_rec ≡ [])
        × (c'.incomming_rel ≡ [])
        × (c'.opts.incomming_store ≡ some s₁)
        × (c'.conn ≡ n₈)
  unfolding on_message settle complete pop_back on_incomming write_packet flush
  settle_lem c s s₁ n n₇ n₈ n₆ del sent out = (
    record (handed_out c s n n₆) {
      opts = record c.opts { incomming_store = some s₁ };
      incomming_rel = [];
      conn = n₈;
      last_flush = net.now n₈;
    },
    rw (same_pid pid, sent, out, del) refl,
    refl,
    refl,
    refl,
    refl,
  )

  -- A PUBLISH with QoS 2 and then its PUBREL come to the loop of the subscribe command, from empty
  -- queues, on a network that sends and flushes the answers and takes the keep-alive time as its
  -- timeout: one wait, of two rounds, returns the message, and the loop goes on with a client that has
  -- completed it, with both queues empty, the message out of the store, and PUBREC and PUBCOMP sent.
  pub listen-received :
      (fuel rounds : ℕ) (c : Client N LocalStorage) (s : LocalStorage) (n₁ n₂ n₃ n₄ n₅ n₆ n₇ n₈ : N)
      → c.state ≡ connected
      → c.last_flush ≡ net.now c.conn
      → c.incomming_rec ≡ []
      → c.incomming_rel ≡ []
      → c.opts.incomming_store ≡ some s
      → from_str p.topic_name ≡ ok path
      → path.wildcards ≡ false
      → p.qos ≡ exactly_once
      → p.pid ≡ some pid
      → Armed net local_storage c.opts.keep_alive c.conn n₁
      → net.read_packet n₁ ≡ done (Packet.publish p) n₂
      → net.write_packet (Packet.pubrec pid) n₂ ≡ done tt n₃
      → net.flush n₃ ≡ done tt n₄
      → Armed net local_storage c.opts.keep_alive n₄ n₅
      → net.read_packet n₅ ≡ done (Packet.pubrel pid) n₆
      → net.write_packet (Packet.pubcomp pid) n₆ ≡ done tt n₇
      → net.flush n₇ ≡ done tt n₈
      → (c₂ c₃ : Client N LocalStorage) × (s₃ : LocalStorage) × (await net local_storage
            (suc (suc fuel))
            c
          ≡ done (some message) c₂)
        × (listen net (suc (suc fuel)) (suc rounds) c ≡ listen net (suc (suc fuel)) rounds c₃)
        × (c₃.incomming_rec ≡ [])
        × (c₃.incomming_rel ≡ [])
        × (c₃.opts.incomming_store ≡ some s₃)
        × (local_storage.get pid s₃ ≡ failed (not_found pid) s₃)
        × (c₃.conn ≡ n₈)
  unfolding await await_round listen
  listen-received fuel rounds c s n₁ n₂ n₃ n₄ n₅ n₆ n₇ n₈ st flushed q rel has name plain level id
        armed read sent out armed' read' sent' out' =
      let (s₁, s₃, put, get, del, gone) = local_storage-put message pid s refl in
      let c₁ = held c s₁ n₄ in
      let c₂ = handed_out c s₁ n₄ n₆ in
      let again : ℕ → Method N LocalStorage (Unit {0}) =
        λ k. reconnect_with net local_storage (await net local_storage k) in
      let first : accept net local_storage (again (suc fuel)) c ≡ done none c₁ =
        accept-read net local_storage (again (suc fuel)) c (Packet.publish p) n₁ n₂ st flushed armed
          read
        ∙ ap (parsed net local_storage) (
            hold_lem (record c { conn = n₂ }) s s₁ n₃ n₄ st q has name plain level id put sent
              out) in
      let second : accept net local_storage (again fuel) c₁ ≡ done (some message) c₂ =
        accept-read net local_storage (again fuel) c₁ (Packet.pubrel pid) n₅ n₆ st refl armed' read'
        ∙ ap (parsed net local_storage) (
            release_in net local_storage (record c₁ { conn = n₆ }) message message pid s₁ s₁ st refl
              rel refl refl get) in
      let awaited : await net local_storage (suc (suc fuel)) c ≡ done (some message) c₂ =
        rw (first, held-normalized c₁ message refl, second) refl in
      let (c₃, settled, a, b, d, e) = settle_lem c s₁ s₃ n₄ n₇ n₈ n₆ del sent' out' in
      (c₂, c₃, s₃, awaited, rw (awaited, settled) refl, a, b, d, gone, e)
