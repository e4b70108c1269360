-- ===== src/Mqtt3/Codec/RoundTrip.antt =====
-- Whole packets: `read_packet` after `write_packet`.
use rust_mq.Base.{
  ℕ, ◌≤◌, ◌<◌, ◌≡◌, refl, ◌∙◌, Bool, true, false, [], ◌∷◌, ◌++◌, length, arith, append_assoc, ◌==◌,
  bit_and,
}
use rust_mq.Outcome.{Outcome, done, failed, ok}
use rust_mq.Mqtt3.Bytes.{Bytes, max_payload_size}
use rust_mq.Mqtt3.Errors.{Error, payload_required}
use rust_mq.Mqtt3.PacketType.{PacketType}
use rust_mq.Mqtt3.ConnectReturnCode
use rust_mq.Mqtt3.ConnectReturnCode.{from_u8-to_u8}
use rust_mq.Mqtt3.Header.{Header}
use rust_mq.Mqtt3.Header
use rust_mq.Mqtt3.Packet.{
  Connect, Publish, Subscribe, Suback, Unsubscribe, Packet, connect, connack, publish, puback,
  pubrec, pubrel, pubcomp, subscribe, suback, unsubscribe, unsuback, pingreq, pingresp, disconnect,
}
use rust_mq.Mqtt3.Stream.{read_u8, read_u16, read_remaining_length}
use rust_mq.Mqtt3.Read.{read_connack, read_acknowledgement, read_body, read_empty, read_packet}
use rust_mq.Mqtt3.Write.{bool_u8, publish_byte, write_acknowledgement, write_packet}
use rust_mq.Mqtt3.Codec.Actions.{
  Writes, Reads, ReadsAll, Reads→ReadsAll, limited-ReadsAll, Writes-write, Writes-u16, Reads-u16,
  u16_bytes,
}
use rust_mq.Mqtt3.Codec.Length.{length_field, length_field_two, Reads-remaining_length}
use rust_mq.Mqtt3.Codec.Flags.{publish_header, publish_byte_fields}
use rust_mq.Mqtt3.Codec.Connect.{
  ConnectFits, connect_body, connect_size-length, connect_size-le, ReadsAll-connect, Writes-connect,
}
use rust_mq.Mqtt3.Codec.Publish.{
  PublishFits, publish_body, publish_size-length, ReadsAll-publish, Writes-publish,
}
use rust_mq.Mqtt3.Codec.Subscribe.{
  SubscribeFits, subscribe_body, ReadsAll-subscribe, Writes-subscribe,
}
use rust_mq.Mqtt3.Codec.Suback.{
  SubackFits, suback_body, ReadsAll-suback, length-codes, Writes-suback,
}
use rust_mq.Mqtt3.Codec.Unsubscribe.{
  UnsubscribeFits, unsubscribe_body, ReadsAll-unsubscribe, Writes-unsubscribe,
}
use rust_mq.Mqtt3.Codec.Counts.{==-zero_of_pos}

-- A packet with a body, on the wire.
abbrev pub frame : ℕ → Bytes → Bytes
frame hd body = hd ∷ (length_field (length body) ++ body)

pub packet_bytes : Packet → Bytes
packet_bytes (connect c) = frame 0x10 (connect_body c)
packet_bytes (connack c) =
    frame 0x20 (bool_u8 c.session_present ∷ ConnectReturnCode.to_u8 c.code ∷ [])
packet_bytes (publish p) = frame (publish_byte p.retain p.qos p.dup) (publish_body p)
packet_bytes (puback pid) = frame 0x40 (u16_bytes pid)
packet_bytes (pubrec pid) = frame 0x50 (u16_bytes pid)
packet_bytes (pubrel pid) = frame 0x62 (u16_bytes pid)
packet_bytes (pubcomp pid) = frame 0x70 (u16_bytes pid)
packet_bytes (subscribe s) = frame 0x82 (subscribe_body s)
packet_bytes (suback s) = frame 0x90 (suback_body s)
packet_bytes (unsubscribe u) = frame 0xa2 (unsubscribe_body u)
packet_bytes (unsuback pid) = frame 0xb0 (u16_bytes pid)
packet_bytes pingreq = 0xc0 ∷ 0 ∷ []
packet_bytes pingresp = 0xd0 ∷ 0 ∷ []
packet_bytes disconnect = 0xe0 ∷ 0 ∷ []

-- What the types of the source do not say of a packet that can be sent: texts are UTF-8 of at most
-- 65535 bytes, an identifier goes with the QoS, the protocol is one of two, the size is in range.
abbrev pub Fits : Packet → Type 0
Fits (connect c) = ConnectFits c
Fits (publish p) = PublishFits p
Fits (subscribe s) = SubscribeFits s
Fits (suback s) = SubackFits s
Fits (unsubscribe u) = UnsubscribeFits u
Fits _ = Unit

write_acknowledgement-frame :
    (hd pid : ℕ) → Writes (write_acknowledgement hd pid) (frame hd (u16_bytes pid))
unfolding write_acknowledgement
write_acknowledgement-frame hd pid out =
    rw (length_field_two, Writes-write (hd ∷ 2 ∷ []), Writes-u16 pid) (simp append_assoc)

pub write_packet-bytes : (p : Packet) → Fits p → Writes (write_packet p) (packet_bytes p)
unfolding write_packet packet_bytes
write_packet-bytes (connect c) h = Writes-connect c h
write_packet-bytes (connack c) h =
    rw length_field_two
      (Writes-write (0x20 ∷ 2 ∷ bool_u8 c.session_present ∷ ConnectReturnCode.to_u8 c.code ∷ []))
write_packet-bytes (publish p) h = Writes-publish p h
write_packet-bytes (puback pid) h = write_acknowledgement-frame 0x40 pid
write_packet-bytes (pubrec pid) h = write_acknowledgement-frame 0x50 pid
write_packet-bytes (pubrel pid) h = write_acknowledgement-frame 0x62 pid
write_packet-bytes (pubcomp pid) h = write_acknowledgement-frame 0x70 pid
write_packet-bytes (subscribe s) h = Writes-subscribe s h
write_packet-bytes (suback s) h = Writes-suback s h
write_packet-bytes (unsubscribe u) h = Writes-unsubscribe u h
write_packet-bytes (unsuback pid) h = write_acknowledgement-frame 0xb0 pid
write_packet-bytes pingreq h = Writes-write (0xc0 ∷ 0 ∷ [])
write_packet-bytes pingresp h = Writes-write (0xd0 ∷ 0 ∷ [])
write_packet-bytes disconnect h = Writes-write (0xe0 ∷ 0 ∷ [])

-- The fixed header, then the body under its limit.
read_packet-frame :
    (hd : ℕ) (body : Bytes) (h : Header) (p : Packet)
    → 0 < length body
    → length body ≤ max_payload_size
    → Header.new hd (length body) ≡ ok h
    → ReadsAll (read_body h h.typ) body p
    → Reads read_packet (frame hd body) p
unfolding read_packet read_u8
read_packet-frame hd body h p pos small head reads rest = rw (
  append_assoc (length_field (length body)) body rest,
  Reads-remaining_length (length body) small,
  head,
  ==-zero_of_pos (length body) pos,
  limited-ReadsAll (read_body h h.typ) body reads,
)

abbrev header : ℕ → PacketType → ℕ → Header
header hd typ len = record { hd = hd; typ = typ; len = len }

read_acknowledgement-frame :
    (hd pid : ℕ) (typ : PacketType) (packet : ℕ → Packet)
    → Header.new hd 2 ≡ ok (header hd typ 2)
    → read_body (header hd typ 2) typ ≡ read_acknowledgement packet 2
    → Reads read_packet (frame hd (u16_bytes pid)) (packet pid)
unfolding read_acknowledgement
read_acknowledgement-frame hd pid typ packet head arm =
    read_packet-frame hd (u16_bytes pid) (header hd typ 2) (packet pid) (omega arith) (omega arith)
      head (rw (arm, Reads→ReadsAll read_u16 (u16_bytes pid) (Reads-u16 pid)))

read_packet-empty :
    (hd : ℕ) (typ : PacketType)
    → Header.new hd 0 ≡ ok (header hd typ 0)
    → (rest : Bytes) → read_packet (hd ∷ 0 ∷ rest) ≡ read_empty typ rest
unfolding read_packet read_u8 read_remaining_length
read_packet-empty hd typ head rest = rw head

-- `read_packet` has no arm that accepts a DISCONNECT.
abbrev pub IsReadable : Packet → Type 0
IsReadable disconnect = ⊥
IsReadable _ = Unit

present : (b : Bool) → (bit_and (bool_u8 b) 0x01 == 1) ≡ b
present true = refl
present false = refl

connect_body_pos : (c : Connect) → 0 < length (connect_body c)
unfolding connect_body
connect_body_pos c = omega arith

publish_body_pos : (p : Publish) → 0 < length (publish_body p)
unfolding publish_body
publish_body_pos p = omega arith

subscribe_body_size :
    (s : Subscribe)
    → SubscribeFits s
    → (0 < length (subscribe_body s)) × (length (subscribe_body s) ≤ max_payload_size)
unfolding subscribe_body
subscribe_body_size s h = omega (arith, h.size)

suback_body_size :
    (s : Suback)
    → SubackFits s
    → (0 < length (suback_body s)) × (length (suback_body s) ≤ max_payload_size)
unfolding suback_body
suback_body_size s h = omega (arith, h, length-codes s.return_codes)

unsubscribe_body_size :
    (u : Unsubscribe)
    → UnsubscribeFits u
    → (0 < length (unsubscribe_body u)) × (length (unsubscribe_body u) ≤ max_payload_size)
unfolding unsubscribe_body
unsubscribe_body_size u h = omega (arith, h.size)

pub read_packet-bytes : (p : Packet) → Fits p → IsReadable p → Reads read_packet (packet_bytes p) p
unfolding packet_bytes Header.new read_body read_connack read_u8
read_packet-bytes (connect c) h r =
    read_packet-frame 0x10 (connect_body c) (header 0x10 PacketType.connect _) (connect c)
      (connect_body_pos c) (omega (arith, connect_size-length c, connect_size-le c h)) refl
      (rw (ReadsAll-connect c h))
read_packet-bytes (connack c) h r =
    read_packet-frame 0x20 (bool_u8 c.session_present ∷ ConnectReturnCode.to_u8 c.code ∷ [])
      (header 0x20 PacketType.connack 2) (connack c) (omega arith) (omega arith) refl
      (rw (from_u8-to_u8 c.code, present c.session_present))
read_packet-bytes (publish p) h r =
    let head = publish_byte_fields p.retain p.qos p.dup (length (publish_body p)) in
    read_packet-frame (publish_byte p.retain p.qos p.dup) (publish_body p)
      (publish_header p.retain p.qos p.dup (length (publish_body p))) (publish p)
      (publish_body_pos p) (omega (arith, publish_size-length p, h.size)) head.0
      (rw (ReadsAll-publish p (length (publish_body p)) h))
read_packet-bytes (puback pid) h r =
    read_acknowledgement-frame 0x40 pid PacketType.puback puback refl refl
read_packet-bytes (pubrec pid) h r =
    read_acknowledgement-frame 0x50 pid PacketType.pubrec pubrec refl refl
read_packet-bytes (pubrel pid) h r =
    read_acknowledgement-frame 0x62 pid PacketType.pubrel pubrel refl refl
read_packet-bytes (pubcomp pid) h r =
    read_acknowledgement-frame 0x70 pid PacketType.pubcomp pubcomp refl refl
read_packet-bytes (subscribe s) h r =
    let size = subscribe_body_size s h in
    let head = header 0x82 PacketType.subscribe (length (subscribe_body s)) in
    read_packet-frame 0x82 (subscribe_body s) head (subscribe s) size.0 size.1 refl
      (rw (ReadsAll-subscribe s head h refl))
read_packet-bytes (suback s) h r =
    let size = suback_body_size s h in
    let head = header 0x90 PacketType.suback (length (suback_body s)) in
    read_packet-frame 0x90 (suback_body s) head (suback s) size.0 size.1 refl
      (rw (ReadsAll-suback s head h refl))
read_packet-bytes (unsubscribe u) h r =
    let size = unsubscribe_body_size u h in
    let head = header 0xa2 PacketType.unsubscribe (length (unsubscribe_body u)) in
    read_packet-frame 0xa2 (unsubscribe_body u) head (unsubscribe u) size.0 size.1 refl
      (rw (ReadsAll-unsubscribe u head h refl))
read_packet-bytes (unsuback pid) h r =
    read_acknowledgement-frame 0xb0 pid PacketType.unsuback unsuback refl refl
read_packet-bytes pingreq h r =
    λ rest. read_packet-empty 0xc0 PacketType.pingreq refl rest ∙ unfold read_empty in refl
read_packet-bytes pingresp h r =
    λ rest. read_packet-empty 0xd0 PacketType.pingresp refl rest ∙ unfold read_empty in refl
read_packet-bytes disconnect h r = absurd r

read_packet-disconnect :
    (rest : Bytes) → read_packet (packet_bytes disconnect ++ rest) ≡ failed payload_required rest
unfolding packet_bytes Header.new read_empty
read_packet-disconnect rest = read_packet-empty 0xe0 PacketType.disconnect refl rest

-- What the reader answers to the bytes of a packet, with `rest` behind them.
abbrev pub read_back : Packet → Bytes → Outcome Error Bytes Packet
read_back disconnect rest = failed payload_required rest
read_back p rest = done p rest

read_packet-back :
    (p : Packet) (rest : Bytes) → Fits p → read_packet (packet_bytes p ++ rest) ≡ read_back p rest
read_packet-back (connect c) rest h = read_packet-bytes (connect c) h tt rest
read_packet-back disconnect rest h = read_packet-disconnect rest
read_packet-back p rest h = read_packet-bytes p h tt rest

-- For every packet that fits the protocol's ranges the writer appends some bytes to whatever was
-- written before, and the reader makes the same packet of these bytes and leaves just what follows
-- them; only a DISCONNECT is written and then refused by the reader, with `payload_required`.
pub read_packet-write_packet :
    (p : Packet) (out rest : Bytes)
    → Fits p
    → (bytes : Bytes) × (write_packet p out ≡ done tt (out ++ bytes))
      × (read_packet (bytes ++ rest) ≡ read_back p rest)
read_packet-write_packet p out rest h =
    (packet_bytes p, write_packet-bytes p h out, read_packet-back p rest h)
