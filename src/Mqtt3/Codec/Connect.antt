-- ===== src/Mqtt3/Codec/Connect.antt =====
-- CONNECT and PUBLISH: what the writer sends is what the reader makes the packet of.
use rust_mq.Base.{
  ℕ, ◌≤◌, ◌≡◌, refl, Bool, not, [], ◌∷◌, ◌++◌, Option, none, some, bit_and, ◌==◌, length,
  length-append, arith, append_assoc,
}
use rust_mq.Base.Utf8.{is_utf8}
use rust_mq.Outcome.{ok}
use rust_mq.Mqtt3.Bytes.{Bytes, Text, IsU16, IsShort, max_payload_size}
use rust_mq.Mqtt3.Protocol.{Protocol, IsSupported, version_3_1, version_3_1_1}
use rust_mq.Mqtt3.Protocol
use rust_mq.Mqtt3.Packet.{LastWill, Connect}
use rust_mq.Mqtt3.Stream.{read_u8}
use rust_mq.Mqtt3.Read.{read_will, read_optional, read_connect}
use rust_mq.Mqtt3.Write.{
  is_some, connect_flags, connect_size, write_will, write_optional, write_connect, will_size,
  text_size,
}
use rust_mq.Mqtt3.Codec.Actions.{
  Writes, Reads, ReadsAll, Reads→ReadsAll, Writes-then, Writes-nothing, Writes-u8, Writes-u16,
  Writes-text, Reads-u16, Reads-text, u16_bytes, text_bytes,
}
use rust_mq.Mqtt3.Codec.Length.{length_field, Writes-remaining_length}
use rust_mq.Mqtt3.Codec.Flags.{
  flags_will, flags_will_qos, flags_will_retain, flags_no_will, flags_outer,
}

abbrev pub will_bytes : Option LastWill → Bytes
will_bytes none = []
will_bytes (some w) = text_bytes w.topic ++ text_bytes w.message

abbrev pub optional_bytes : Option Text → Bytes
optional_bytes none = []
optional_bytes (some t) = text_bytes t

abbrev pub WillFits : Option LastWill → Type 0
WillFits none = Unit
WillFits (some w) = IsShort w.topic × IsShort w.message

abbrev pub OptionalFits : Option Text → Type 0
OptionalFits none = Unit
OptionalFits (some t) = IsShort t

-- What the types of the source do not say of a CONNECT that can be sent.
pub record ConnectFits (c : Connect) : Type 0 where
  pub supported : IsSupported c.protocol
  pub keep_alive : IsU16 c.keep_alive
  pub client_id : IsShort c.client_id
  pub last_will : WillFits c.last_will
  pub username : OptionalFits c.username
  pub password : OptionalFits c.password

abbrev pub flags_of : Connect → ℕ
flags_of c = connect_flags c.clean_session c.last_will (is_some c.password) (is_some c.username)

unfoldable pub connect_body : Connect → Bytes
unfolding Protocol.name Protocol.level
connect_body c =
    text_bytes (Protocol.name c.protocol)
    ++ (Protocol.level c.protocol
        ∷ flags_of c
        ∷ (u16_bytes c.keep_alive
            ++ (text_bytes c.client_id
                ++ (will_bytes c.last_will
                    ++ (optional_bytes c.username ++ optional_bytes c.password)))))

Writes-will : (w : Option LastWill) → WillFits w → Writes (write_will w) (will_bytes w)
unfolding write_will
Writes-will none h = Writes-nothing
Writes-will (some w) h =
    Writes-then _ _ _ _ (Writes-text w.topic h.0.1) (Writes-text w.message h.1.1)

Writes-optional : (t : Option Text) → OptionalFits t → Writes (write_optional t) (optional_bytes t)
unfolding write_optional
Writes-optional none h = Writes-nothing
Writes-optional (some t) h = Writes-text t h.1

Reads-will :
    (c p u : Bool) (w : Option LastWill)
    → WillFits w
    → Reads (read_will (connect_flags c w p u)) (will_bytes w) w
unfolding read_will
Reads-will c p u none h rest = rw ((flags_no_will c p u).0, (flags_no_will c p u).1)
Reads-will c p u (some w) h rest = rw (
  append_assoc w.topic (text_bytes w.message) rest,
  flags_will w.topic w.message c p u w.qos w.retain,
  Reads-text w.topic h.0,
  Reads-text w.message h.1,
  flags_will_qos w.topic w.message c p u w.qos w.retain,
  flags_will_retain w.topic w.message c p u w.qos w.retain,
)

Reads-optional :
    (flag : ℕ) (t : Option Text)
    → not (flag == 0) ≡ is_some t
    → OptionalFits t
    → Reads (read_optional flag) (optional_bytes t) t
unfolding read_optional
Reads-optional flag none e h rest = ground arith
Reads-optional flag (some t) e h rest = ground (arith, Reads-text t h rest)

Protocol-name-IsShort : (p : Protocol) → IsShort (Protocol.name p)
unfolding Protocol.name is_utf8
Protocol-name-IsShort (Protocol.mq_isdp l) = (refl, omega arith)
Protocol-name-IsShort (Protocol.mqtt l) = (refl, omega arith)

Protocol-new-name :
    (p : Protocol) → IsSupported p → Protocol.new (Protocol.name p) (Protocol.level p) ≡ ok p
unfolding Protocol.new Protocol.name Protocol.level
Protocol-new-name (Protocol.mq_isdp l) (version_3_1 e) = ground arith
Protocol-new-name (Protocol.mqtt l) (version_3_1_1 e) = ground arith

pub ReadsAll-connect : (c : Connect) → ConnectFits c → ReadsAll read_connect (connect_body c) c
unfolding read_connect connect_body read_u8
ReadsAll-connect c h =
    let (clean, pass, user) =
      flags_outer c.clean_session c.last_will (is_some c.password) (is_some c.username) in
    rw (
      Reads-text (Protocol.name c.protocol) (Protocol-name-IsShort c.protocol),
      Protocol-new-name c.protocol h.supported,
      Reads-u16 c.keep_alive,
      Reads-text c.client_id h.client_id,
      Reads-will c.clean_session (is_some c.password) (is_some c.username) c.last_will h.last_will,
      Reads-optional (bit_and (flags_of c) 0b10000000) c.username user h.username,
      Reads→ReadsAll (read_optional (bit_and (flags_of c) 0b01000000)) (optional_bytes c.password)
          (Reads-optional (bit_and (flags_of c) 0b01000000) c.password pass h.password),
      clean,
    )

length-will_bytes : (w : Option LastWill) → length (will_bytes w) ≡ will_size w
length-will_bytes none = refl
length-will_bytes (some w) = omega (arith, length-append w.topic (text_bytes w.message))

length-optional_bytes : (t : Option Text) → length (optional_bytes t) ≡ text_size t
length-optional_bytes none = refl
length-optional_bytes (some t) = omega arith

will_size-le : (w : Option LastWill) → WillFits w → will_size w ≤ 131074
will_size-le none h = omega arith
will_size-le (some w) h = omega arith

text_size-le : (t : Option Text) → OptionalFits t → text_size t ≤ 65537
text_size-le none h = omega arith
text_size-le (some t) h = omega arith

pub connect_size-length : (c : Connect) → connect_size c ≡ length (connect_body c)
unfolding connect_size connect_body
connect_size-length c = simp (length-append, length-will_bytes, length-optional_bytes) (omega arith)

pub connect_size-le : (c : Connect) → ConnectFits c → connect_size c ≤ max_payload_size
unfolding connect_size
connect_size-le c h = omega (
  arith,
  (Protocol-name-IsShort c.protocol).1,
  h.client_id.1,
  will_size-le c.last_will h.last_will,
  text_size-le c.username h.username,
  text_size-le c.password h.password,
)

pub Writes-connect :
    (c : Connect)
    → ConnectFits c
    → Writes (write_connect c) (0x10 ∷ (length_field (length (connect_body c)) ++ connect_body c))
unfolding write_connect connect_body
Writes-connect c h out =
    rw
      (
        Writes-u8 0x10,
        ← connect_size-length c,
        Writes-remaining_length (connect_size c) (connect_size-le c h),
        Writes-text (Protocol.name c.protocol) (Protocol-name-IsShort c.protocol).1,
        Writes-u8 (Protocol.level c.protocol),
        Writes-u8 (flags_of c),
        Writes-u16 c.keep_alive,
        Writes-text c.client_id h.client_id.1,
        Writes-will c.last_will h.last_will,
        Writes-optional c.username h.username,
        Writes-optional c.password h.password,
      )
      (simp append_assoc)
