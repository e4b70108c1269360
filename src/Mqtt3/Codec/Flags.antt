-- ===== src/Mqtt3/Codec/Flags.antt =====
-- The connect flags and the header byte of PUBLISH: every bit that the writer sets is the bit that
-- the reader tests. Each lemma goes through all settings.
use rust_mq.Base.{ℕ, ◌/◌, ◌≡◌, Bool, true, false, not, Option, none, some, bit_and, ◌==◌, arith}
use rust_mq.Outcome.{ok}
use rust_mq.Mqtt3.Bytes.{Text}
use rust_mq.Mqtt3.Qos.{Qos, at_most_once, at_least_once, exactly_once}
use rust_mq.Mqtt3.Qos
use rust_mq.Mqtt3.Packet.{LastWill}
use rust_mq.Mqtt3.Header
use rust_mq.Mqtt3.Header.{Header}
use rust_mq.Mqtt3.PacketType.{PacketType}
use rust_mq.Mqtt3.Write.{connect_flags, publish_byte}

-- A will of which only the two fields that are flags count.
abbrev pub will : Text → Text → Qos → Bool → Option LastWill
will t m q r = some (record { topic = t; message = m; qos = q; retain = r })

module _ (t m : Text) where
  pub flags_will :
      (c p u : Bool) (q : Qos) (r : Bool)
      → (bit_and (connect_flags c (will t m q r) p u) 0b100 == 0) ≡ false
  unfolding connect_flags
  flags_will c p u q r = ground arith

  pub flags_will_qos :
      (c p u : Bool) (q : Qos) (r : Bool)
      → Qos.from_u8 (bit_and (connect_flags c (will t m q r) p u) 0b11000 / 8) ≡ ok q
  unfolding connect_flags Qos.from_u8
  flags_will_qos c p u q r = ground arith

  pub flags_will_retain :
      (c p u : Bool) (q : Qos) (r : Bool)
      → not (bit_and (connect_flags c (will t m q r) p u) 0b00100000 == 0) ≡ r
  unfolding connect_flags
  flags_will_retain c p u q r = ground arith

pub flags_no_will :
    (c p u : Bool)
    → ((bit_and (connect_flags c none p u) 0b100 == 0) ≡ true)
      × (not (bit_and (connect_flags c none p u) 0b00111000 == 0) ≡ false)
unfolding connect_flags
flags_no_will c p u = ground arith

-- The three flags that every CONNECT has.
abbrev OuterFlags : Bool → Bool → Bool → ℕ → Type 0
OuterFlags c p u flags =
    (not (bit_and flags 0b10 == 0) ≡ c)
    × (not (bit_and flags 0b01000000 == 0) ≡ p)
    × (not (bit_and flags 0b10000000 == 0) ≡ u)

flags_outer_will :
    (t m : Text) (c p u : Bool) (q : Qos) (r : Bool)
    → OuterFlags c p u (connect_flags c (will t m q r) p u)
unfolding connect_flags
flags_outer_will t m c p u q r = ground arith

pub flags_outer :
    (c : Bool) (w : Option LastWill) (p u : Bool) → OuterFlags c p u (connect_flags c w p u)
unfolding connect_flags
flags_outer c (some w) p u = flags_outer_will w.topic w.message c p u w.qos w.retain
flags_outer c none p u = ground arith

-- The header that `read_packet` makes of the first byte of a PUBLISH.
abbrev pub publish_header : Bool → Qos → Bool → ℕ → Header
publish_header r q d len = record { hd = publish_byte r q d; typ = PacketType.publish; len = len }

pub publish_byte_fields :
    (r : Bool) (q : Qos) (d : Bool) (len : ℕ)
    → (Header.new (publish_byte r q d) len ≡ ok (publish_header r q d len))
      × (Header.qos (publish_header r q d len) ≡ ok q)
      × (Header.dup (publish_header r q d len) ≡ d)
      × (Header.retain (publish_header r q d len) ≡ r)
unfolding Header.new Header.qos Header.dup Header.retain publish_byte
publish_byte_fields r q d len = ground arith
