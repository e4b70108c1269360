-- ===== src/Mqtt3/Accept/Safety.antt =====
-- What `read_packet` of mqtt3/src/read.rs promises on any stream of bytes.
use rust_mq.Base.{ℕ, ◌/◌, ◌%◌, ◌≡◌, ◌≢◌, ◌↔◌, refl, ◌∷◌, ◌++◌, [], All, arith, inl, inr}
use rust_mq.Base.Bits.{qos_bits}
use rust_mq.Outcome.{ok, err, Outcome, done, failed, panicked, stuck}
use rust_mq.Mqtt3.Bytes.{Bytes, IsByte}
use rust_mq.Mqtt3.Errors.{Error, unsupported_quality_of_service}
use rust_mq.Mqtt3.PacketType.{PacketType}
use rust_mq.Mqtt3.PacketType
use rust_mq.Mqtt3.Header.{Header}
use rust_mq.Mqtt3.Header
use rust_mq.Mqtt3.Packet.{Packet}
use rust_mq.Mqtt3.Stream.{read_u8, read_remaining_length}
use rust_mq.Mqtt3.Read.{read_after_length, read_packet}
use rust_mq.Mqtt3.Write.{write_packet}
use rust_mq.Mqtt3.Codec.RoundTrip.{
  Fits, IsReadable, packet_bytes, write_packet-bytes, read_packet-bytes,
}
use rust_mq.Mqtt3.Codec.Counts.{==-zero_of_pos}
use rust_mq.Mqtt3.Accept.Takes.{Takes, takes, refuses, All-rest}
use rust_mq.Mqtt3.Accept.Strings.{Takes-remaining_length}
use rust_mq.Mqtt3.Accept.Packets.{Sound, HasBadQos, HasBadHeader, panics, read_packet_cases}

publish_type : (hd : ℕ) → hd / 16 ≡ 3 → PacketType.from_hd hd ≡ ok PacketType.publish
unfolding PacketType.from_hd PacketType.from_u8
publish_type hd e = rw e refl

bad_qos :
    (h : Header)
    → IsByte h.hd
    → h.hd / 2 % 4 ≡ 3
    → Header.qos h ≡ err unsupported_quality_of_service
unfolding Header.qos
bad_qos h small e = ground (arith, qos_bits h.hd)

bad_header-panics :
    (hd len : ℕ) (s : Bytes)
    → IsByte hd
    → All IsByte s
    → HasBadQos hd len
    → read_after_length hd len s ≡ panicked
unfolding read_after_length Header.new
bad_header-panics hd len s hb hs bad =
    rw (publish_type hd bad.0, ==-zero_of_pos len bad.2)
      (panics (record { hd = hd; typ = PacketType.publish; len = len })
        unsupported_quality_of_service s hs
        (bad_qos (record { hd = hd; typ = PacketType.publish; len = len }) hb bad.1))

-- What holds of an outcome by what the reader takes.
abbrev Holds : Bytes → Outcome Error Bytes Packet → Type 0
Holds s (done p rest) = Fits p × IsReadable p × ((front : Bytes) × (s ≡ front ++ rest))
Holds s (failed e rest) = Unit
Holds s panicked = ⊥
Holds s stuck = ⊥

Takes-Holds : {s : Bytes} {o : Outcome Error Bytes Packet} → Takes (λ q n. Sound q) s o → Holds s o
Takes-Holds (takes front cut fits) = (fits.0, fits.1, (front, cut))
Takes-Holds (refuses front cut) = tt

abbrev IsPanicked : Outcome Error Bytes Packet → Type 0
IsPanicked panicked = Unit
IsPanicked _ = ⊥

is_panicked : {o : Outcome Error Bytes Packet} → o ≡ panicked → IsPanicked o
is_panicked e = rw e tt

abbrev LengthRest : Outcome Error Bytes ℕ → Type 0
LengthRest (done len rest) = All IsByte rest
LengthRest _ = Unit

length_rest :
    (t : Bytes) {o : Outcome Error Bytes ℕ} {P : ℕ → ℕ → Type 0}
    → All IsByte t
    → Takes P t o
    → LengthRest o
length_rest t hs (takes {rest} front cut _) = All-rest front rest cut hs
length_rest t hs (refuses front cut) = tt

remaining_length-All :
    (t rest : Bytes) (len : ℕ)
    → All IsByte t
    → read_remaining_length t ≡ done len rest
    → All IsByte rest
remaining_length-All t rest len hs e = rw e at (length_rest t hs (Takes-remaining_length t hs))

HasBadHeader-panics : (s : Bytes) → All IsByte s → HasBadHeader s → read_packet s ≡ panicked
unfolding read_packet read_u8
HasBadHeader-panics [] hs bad = absurd bad
HasBadHeader-panics (hd ∷ t) hs (len, rest, e, bad) =
    rw e (bad_header-panics hd len rest hs.0 (remaining_length-All t rest len hs.1 e) bad)

-- The reader panics on a stream of bytes exactly when the stream begins with the header of a
-- PUBLISH packet with a body whose two QoS bits are both set.
pub read_packet-panics : (s : Bytes) → All IsByte s → (read_packet s ≡ panicked) ↔ HasBadHeader s
read_packet-panics s hs = (
  (λ e. elim (read_packet_cases s hs) [
    | inl bad ↦ bad.0
    | inr good ↦ absurd (rw e at (Takes-Holds good))
  ]),
  HasBadHeader-panics s hs,
)

-- Whatever bytes it is given, the reader comes to an end within the rounds that the model gives its
-- loops: its outcome is a packet, an error or a panic, never `stuck`.
pub read_packet-total : (s : Bytes) → All IsByte s → read_packet s ≢ stuck
read_packet-total s hs e = elim (read_packet_cases s hs) [
  | inl bad ↦ rw e at (is_panicked bad.1)
  | inr good ↦ rw e at (Takes-Holds good)
]

-- What is accepted fits the protocol's ranges and is not a DISCONNECT, and the reader has taken a
-- front part of the stream.
pub read_packet_sound :
    (s rest : Bytes) (p : Packet)
    → All IsByte s
    → read_packet s ≡ done p rest
    → Fits p × IsReadable p × ((front : Bytes) × (s ≡ front ++ rest))
read_packet_sound s rest p hs e = elim (read_packet_cases s hs) [
  | inl bad ↦ absurd (rw e at (is_panicked bad.1))
  | inr good ↦ rw e at (Takes-Holds good)
]

-- A packet that the reader accepts can be written, and the reader makes the same packet of the
-- bytes that are written, whatever follows them.
pub write_packet-read_packet :
    (s rest out more : Bytes) (p : Packet)
    → All IsByte s
    → read_packet s ≡ done p rest
    → (bytes : Bytes) × (write_packet p out ≡ done tt (out ++ bytes))
      × (read_packet (bytes ++ more) ≡ done p more)
write_packet-read_packet s rest out more p hs e =
    let (fits, readable, front) = read_packet_sound s rest p hs e in
    (packet_bytes p, write_packet-bytes p fits out, read_packet-bytes p fits readable more)
