-- ===== src/Mqttc/Wire/Ends.antt =====
-- One end of a stream of bytes: how a client of mqttc sends and accepts the packets of an exchange of QoS
-- 1 there.
use rust_mq.Base.{
  ℕ, zero, suc, ◌+◌, ◌≤◌, ◌≡◌, ◌≢◌, ◌==◌, true, refl, sym, ap, ◌∙◌, false, [], ◌∷◌, ◌++◌,
  append-nil, Option, none, some, length, arith,
}
use rust_mq.Outcome.{ok, done}
use rust_mq.Mqtt3.Bytes.{Bytes, Text, IsU16, IsShort, max_payload_size}
use rust_mq.Mqtt3.Qos.{at_least_once}
use rust_mq.Mqtt3.PacketIdentifier.{PacketIdentifier, next}
use rust_mq.Mqtt3.Packet.{Packet}
use rust_mq.Mqtt3.Read.{read_packet}
use rust_mq.Mqtt3.Codec.RoundTrip.{
  Fits, packet_bytes, write_packet-bytes, read_packet-bytes, IsReadable,
}
use rust_mq.Mqtt3.Topic.{TopicPath, from_str, text, to_topic_name}
use rust_mq.Mqtt3.Message.{Message, to_pub}
use rust_mq.Mqttc.PubOpt.{PubOpt}
use rust_mq.Mqttc.PubOpt
use rust_mq.Mqttc.Store.{Store}
use rust_mq.Mqttc.Client.{Client, Method, connected, write_packet, flush, next_pid}
use rust_mq.Mqttc.Client.Outgoing.{publish, publish_packet, enqueue}
use rust_mq.Mqttc.Client.Incoming.{on_puback, parse_in, parse_packet}
use rust_mq.Mqttc.Client.Life.{accept, parsed}
use rust_mq.Mqttc.Client.Life.Handshake.{Armed, accept-read}
use rust_mq.Mqttc.Client.Flow.Acknowledge.{acknowledged_message}
use rust_mq.Mqttc.Client.Flow.Deliver.{at_least_once-receive}
use rust_mq.Mqttc.Wire.{Wire, wire, received, sent}

-- What is written to one end arrives at it.
wire-written :
    (p : Packet) (n : Wire)
    → Fits p
    → wire.write_packet p n ≡ done tt (record n { outgoing = n.outgoing ++ packet_bytes p })
unfolding wire
wire-written p n h = ap (sent n) (write_packet-bytes p h n.outgoing)

wire-arrives :
    (p : Packet) (n : Wire) (rest : Bytes)
    → Fits p
    → IsReadable p
    → n.incoming ≡ packet_bytes p ++ rest
    → wire.read_packet n ≡ done p (record n { incoming = rest })
unfolding wire
wire-arrives p n rest h r e =
    ap (λ bytes. received n (read_packet bytes)) e ∙ ap (received n) (read_packet-bytes p h r rest)

wire_flush : (n : Wire) → wire.flush n ≡ done tt n
unfolding wire
wire_flush n = refl

no_time : (n : Wire) → 0 ≡ wire.now n
unfolding wire
no_time n = refl

armed :
    {S : Type 0} (store : Store S) (k : Option ℕ) (n : Wire) → k ≢ some 0 → Armed wire store k n n
unfolding wire
armed store none n h = refl
armed store (some zero) n h = absurd (h refl)
armed store (some (suc k)) n h = (ground arith, refl)

module _ {S : Type 0} (store : Store S) where
  accept-wire :
      (again : Method Wire S (Unit {0})) (c : Client Wire S) (p : Packet) (n : Wire)
      → c.state ≡ connected
      → c.last_flush ≡ 0
      → c.opts.keep_alive ≢ some 0
      → wire.read_packet c.conn ≡ done p n
      → accept wire store again c
        ≡ parsed wire store (parse_packet wire store p (record c { conn = n }))
  accept-wire again c p n st flushed alive arrived =
      accept-read wire store again c p c.conn n st (flushed ∙ no_time c.conn)
        (armed store c.opts.keep_alive c.conn alive) arrived

  -- The message that is sent, and the client that has sent it.
  abbrev pub carried : TopicPath → Bytes → PubOpt → Client Wire S → Message
  carried path payload pubopt c =
      acknowledged_message wire store path payload pubopt (next c.last_pid)

  abbrev pub publishing : Client Wire S → Message → Client Wire S
  publishing c m = record c {
    last_pid = next c.last_pid;
    outgoing_ack = m ∷ [];
    conn = record c.conn {
      outgoing = c.conn.outgoing ++ packet_bytes (Packet.publish (to_pub m none false));
    };
    last_flush = 0;
  }

  pub publish-wire :
      (c : Client Wire S) (name : Text) (path : TopicPath) (payload : Bytes) (pubopt : PubOpt)
      → to_topic_name (text name) ≡ ok path
      → PubOpt.qos pubopt ≡ at_least_once
      → c.outgoing_ack ≡ []
      → Fits (Packet.publish (to_pub (carried path payload pubopt c) none false))
      → publish wire store (text name) payload pubopt c
        ≡ done tt (publishing c (carried path payload pubopt c))
  unfolding publish publish_packet enqueue next_pid write_packet flush
  publish-wire c name path payload pubopt named level q fits =
      rw
        (
          named,
          level,
          q,
          wire-written (Packet.publish (to_pub (carried path payload pubopt c) none false)) c.conn
              fits,
        )
        (unfold wire in refl)

-- A client with these bytes to come.
abbrev pub meeting : {S : Type 0} → Client Wire S → Bytes → Client Wire S
meeting d bytes = record d { conn = record d.conn { incoming = bytes } }

next-IsU16 : (pid : PacketIdentifier) → IsU16 (next pid)
unfolding next
next-IsU16 pid = omega arith

pub carried-Fits :
    {S : Type 0} (store : Store S) (c : Client Wire S) (path : TopicPath) (payload : Bytes)
    (pubopt : PubOpt)
    → IsShort path.path
    → length path.path + 4 + length payload ≤ max_payload_size
    → Fits (Packet.publish (to_pub (carried store path payload pubopt c) none false))
unfolding to_pub
carried-Fits store c path payload pubopt short size = record {
  topic_name = short;
  pid = next-IsU16 c.last_pid;
  size = omega arith;
}

-- The PUBLISH is handed to the user, and its PUBACK is on the way.
pub deliver-wire :
    {S : Type 0} (store : Store S) (again : Method Wire S (Unit {0})) (d : Client Wire S)
    (path : TopicPath) (payload : Bytes) (pubopt : PubOpt) (pid : PacketIdentifier)
    → let m = acknowledged_message wire store path payload pubopt pid in
      let bytes = packet_bytes (Packet.publish (to_pub m none false)) in
      d.state ≡ connected
      → d.last_flush ≡ 0
      → d.opts.keep_alive ≢ some 0
      → d.incomming_pub ≡ []
      → d.conn.outgoing ≡ []
      → from_str path.path ≡ ok path
      → path.wildcards ≡ false
      → Fits (Packet.publish (to_pub m none false))
      → (d' : Client Wire S) × (accept wire store again (meeting d bytes) ≡ done (some m) d')
        × (d'.conn.incoming ≡ [])
        × (d'.conn.outgoing ≡ packet_bytes (Packet.puback pid))
        × (d'.incomming_pub ≡ [])
unfolding to_pub
deliver-wire store again d path payload pubopt pid st flushed alive q out named plain fits =
    let m = acknowledged_message wire store path payload pubopt pid in
    let p = to_pub m none false in
    let n : Wire = record d.conn { incoming = [] } in
    let d₀ = record d { conn = n } in
    let n₁ : Wire = record n { outgoing = n.outgoing ++ packet_bytes (Packet.puback pid) } in
    (
      record d₀ { incomming_pub = []; conn = n₁; last_flush = wire.now n₁ },
      accept-wire store again (meeting d (packet_bytes (Packet.publish p))) (Packet.publish p) n st
            flushed alive
            (wire-arrives (Packet.publish p) (meeting d (packet_bytes (Packet.publish p))).conn []
              fits tt (sym (append-nil (packet_bytes (Packet.publish p)))))
          ∙ ap (parsed wire store) (
              at_least_once-receive wire store d₀ p path pid n₁ n₁ st q named plain refl refl
                (wire-written (Packet.puback pid) n tt) (wire_flush n₁)),
      refl,
      ap (λ (o : Bytes). o ++ packet_bytes (Packet.puback pid)) out,
      refl,
    )

same_pid : (pid : PacketIdentifier) → (pid == pid) ≡ true
same_pid pid = ground arith

puback_in :
    {S : Type 0} (store : Store S) (c : Client Wire S) (m : Message) (pid : PacketIdentifier)
    → c.state ≡ connected
    → c.outgoing_ack ≡ m ∷ []
    → m.pid ≡ some pid
    → parse_packet wire store (Packet.puback pid) c ≡ done none (record c { outgoing_ack = [] })
unfolding parse_packet parse_in on_puback
puback_in store c m pid st q id = rw (st, q, id, same_pid pid) refl

-- The PUBACK comes back to the sender.
pub acknowledge-wire :
    {S : Type 0} (store : Store S) (again : Method Wire S (Unit {0})) (c : Client Wire S)
    (m : Message) (pid : PacketIdentifier)
    → c.state ≡ connected
    → c.last_flush ≡ 0
    → c.opts.keep_alive ≢ some 0
    → c.outgoing_ack ≡ m ∷ []
    → m.pid ≡ some pid
    → (c' : Client Wire S) × (accept wire store again (meeting c (packet_bytes (Packet.puback pid)))
        ≡ done none c')
      × (c'.outgoing_ack ≡ [])
acknowledge-wire store again c m pid st flushed alive q id =
    let bytes = packet_bytes (Packet.puback pid) in
    let n : Wire = record c.conn { incoming = [] } in
    (
      record c { conn = n; outgoing_ack = [] },
      accept-wire store again (meeting c bytes) (Packet.puback pid) n st flushed alive (
            wire-arrives (Packet.puback pid) (meeting c bytes).conn [] tt tt
              (sym (append-nil bytes)))
          ∙ ap (parsed wire store) (puback_in store (record c { conn = n }) m pid st q id),
      refl,
    )
