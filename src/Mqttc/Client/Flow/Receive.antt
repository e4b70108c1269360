-- ===== src/Mqttc/Client/Flow/Receive.antt =====
-- A message received with QoS 2 in mqttc/src/client.rs: PUBLISH, PUBREL and `complete`.
use rust_mq.Base.{◌≡◌, refl, ap, ◌∙◌, false, [], ◌∷◌, none, some}
use rust_mq.Outcome.{ok, done}
use rust_mq.Mqtt3.Qos.{exactly_once}
use rust_mq.Mqtt3.PacketIdentifier.{PacketIdentifier}
use rust_mq.Mqtt3.Packet.{Packet, Publish}
use rust_mq.Mqtt3.Topic.{TopicPath, from_str}
use rust_mq.Mqtt3.Message.{Message, from_pub}
use rust_mq.Mqttc.Store.{Store}
use rust_mq.Mqttc.Network.{Network}
use rust_mq.Mqttc.Client.{connected, Client, write_packet, flush, on_incomming}
use rust_mq.Mqttc.Client.Outgoing.{complete, pop_back}
use rust_mq.Mqttc.Client.Incoming.{on_pubrel, on_publish, handle_message, parse_in, parse_packet}
use rust_mq.Mqttc.Client.Flow.{self}

module _ {N S : Type 0} (net : Network N) (store : Store S) where
  abbrev pub received : TopicPath → Publish → PacketIdentifier → Message
  received path p pid = record {
    topic = path;
    qos = exactly_once;
    retain = p.retain;
    pid = some pid;
    payload = p.payload;
  }

  -- The client when the PUBREC is sent, when the message is released, and when it is completed.
  abbrev pub holding : Client N S → Message → S → N → Client N S
  holding c m s n = record c {
    opts = record c.opts { incomming_store = some s };
    incomming_rec = m ∷ [];
    conn = n;
    last_flush = net.now n;
  }

  pub from_pub-received :
      (c : Client N S) (p : Publish) (path : TopicPath) (pid : PacketIdentifier)
      → from_str p.topic_name ≡ ok path
      → path.wildcards ≡ false
      → p.qos ≡ exactly_once
      → p.pid ≡ some pid
      → from_pub p c ≡ done (received path p pid) c
  unfolding from_pub
  from_pub-received c p path pid name plain level id = rw (name, plain, level, id) refl

  publish_on :
      (c : Client N S) (p : Publish) (path : TopicPath) (pid : PacketIdentifier) (s s₁ : S)
      (n₁ n₂ : N)
      → c.incomming_rec ≡ []
      → c.opts.incomming_store ≡ some s
      → from_pub p c ≡ done (received path p pid) c
      → store.put (received path p pid) s ≡ done tt s₁
      → net.write_packet (Packet.pubrec pid) c.conn ≡ done tt n₁
      → net.flush n₁ ≡ done tt n₂
      → on_publish net store p c ≡ done none (holding c (received path p pid) s₁ n₂)
  unfolding on_publish handle_message on_incomming write_packet flush
  publish_on c p path pid s s₁ n₁ n₂ q has message put e₁ e₂ =
      rw (message, q, has, put, e₁, e₂) refl

  pub publish_in :
      (c : Client N S) (p : Publish)
      → c.state ≡ connected
      → parse_packet net store (Packet.publish p) c ≡ on_publish net store p c
  unfolding parse_packet parse_in
  publish_in c p st = ap (λ state. parse_in net store state (Packet.publish p) c) st

  abbrev pub released : Client N S → PacketIdentifier → S → Client N S
  released c pid s = record c {
    opts = record c.opts { incomming_store = some s };
    incomming_rec = [];
    incomming_rel = pid ∷ [];
  }

  pub release_in :
      (c : Client N S) (m m' : Message) (pid : PacketIdentifier) (s s₁ : S)
      → c.state ≡ connected
      → c.incomming_rec ≡ m ∷ []
      → c.incomming_rel ≡ []
      → m.pid ≡ some pid
      → c.opts.incomming_store ≡ some s
      → store.get pid s ≡ done m' s₁
      → parse_packet net store (Packet.pubrel pid) c ≡ done (some m') (released c pid s₁)
  unfolding parse_packet parse_in on_pubrel on_incomming
  release_in c m m' pid s s₁ st q rel id has get = rw (st, q, id, self pid, has, get, rel) refl

  abbrev completed : Client N S → S → N → Client N S
  completed c s n = record c {
    opts = record c.opts { incomming_store = some s };
    incomming_rel = [];
    conn = n;
    last_flush = net.now n;
  }

  complete_in :
      (c : Client N S) (pid : PacketIdentifier) (s s₁ : S) (n₁ n₂ : N)
      → c.incomming_rel ≡ pid ∷ []
      → c.opts.incomming_store ≡ some s
      → store.delete pid s ≡ done tt s₁
      → net.write_packet (Packet.pubcomp pid) c.conn ≡ done tt n₁
      → net.flush n₁ ≡ done tt n₂
      → complete net store pid c ≡ done tt (completed c s₁ n₂)
  unfolding complete pop_back on_incomming write_packet flush
  complete_in c pid s s₁ n₁ n₂ rel has del e₁ e₂ = rw (rel, self pid, has, e₁, e₂, del) refl

  -- Receiving with QoS 2, from empty queues: the PUBLISH is put into the incoming store, is answered by
  -- a PUBREC, written and flushed, and gives the user nothing yet; the PUBREL for it gives the user the
  -- message that the store has, and nothing is written; and completing its packet identifier takes it
  -- out of the store, writes and flushes a PUBCOMP, and leaves both queues empty. The network does
  -- these two writes and flushes without an error.
  pub exactly_once-receive :
      (c : Client N S) (p : Publish) (path : TopicPath) (pid : PacketIdentifier) (m : Message)
      (s s₁ s₂ s₃ : S) (n₁ n₂ n₃ n₄ : N)
      → c.state ≡ connected
      → c.incomming_rec ≡ []
      → c.incomming_rel ≡ []
      → c.opts.incomming_store ≡ some s
      → from_str p.topic_name ≡ ok path
      → path.wildcards ≡ false
      → p.qos ≡ exactly_once
      → p.pid ≡ some pid
      → store.put (received path p pid) s ≡ done tt s₁
      → store.get pid s₁ ≡ done m s₂
      → store.delete pid s₂ ≡ done tt s₃
      → net.write_packet (Packet.pubrec pid) c.conn ≡ done tt n₁
      → net.flush n₁ ≡ done tt n₂
      → net.write_packet (Packet.pubcomp pid) n₂ ≡ done tt n₃
      → net.flush n₃ ≡ done tt n₄
      → (c₁ c₂ c₃ : Client N S) × (parse_packet net store (Packet.publish p) c ≡ done none c₁)
        × (c₁.conn ≡ n₂)
        × (c₁.opts.incomming_store ≡ some s₁)
        × (parse_packet net store (Packet.pubrel pid) c₁ ≡ done (some m) c₂)
        × (c₂.conn ≡ n₂)
        × (complete net store pid c₂ ≡ done tt c₃)
        × (c₃.conn ≡ n₄)
        × (c₃.incomming_rec ≡ [])
        × (c₃.incomming_rel ≡ [])
        × (c₃.opts.incomming_store ≡ some s₃)
  exactly_once-receive c p path pid m s s₁ s₂ s₃ n₁ n₂ n₃ n₄ st rec rel has name plain level id put
        get del e₁ e₂ e₃ e₄ =
      let held =
        publish_on c p path pid s s₁ n₁ n₂ rec has
          (from_pub-received c p path pid name plain level id) put e₁ e₂ in
      let c₁ = holding c (received path p pid) s₁ n₂ in
      let c₂ = released c₁ pid s₂ in
      let given = release_in c₁ (received path p pid) m pid s₁ s₂ st refl rel refl refl get in
      let ended = complete_in c₂ pid s₂ s₃ n₃ n₄ refl refl del e₃ e₄ in
      (
        c₁,
        c₂,
        completed c₂ s₃ n₄,
        publish_in c p st ∙ held,
        refl,
        refl,
        given,
        refl,
        ended,
        refl,
        refl,
        refl,
        refl,
      )
