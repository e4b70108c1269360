-- ===== src/Mqtt3/Write.antt =====
-- mqtt3/src/write.rs: `MqttWrite`. The state is what has been written; writing adds at its end, as
-- for a `Cursor<Vec<u8>>`. After an error it holds what was written before.
use rust_mq.Base.{
  ℕ, ◌+◌, ◌*◌, ◌/◌, ◌%◌, ◌<◌, ltb, Bool, true, false, not, List, [], ◌∷◌, ◌++◌, Option, none, some,
  bit_or, if◌then◌else◌, length, map, arith,
}
use rust_mq.Base.Order.{lt_wf}
use mathlib.Core.Logic.{dite}
use mathlib.Core.WellFounded.{Acc}
use native.Mathlib.Decide.{dec_lt}
use rust_mq.Outcome.{done, Action, ◌>>◌, pure, fail}
use rust_mq.Mqtt3.Bytes.{Bytes, Text, max_payload_size}
use rust_mq.Mqtt3.Errors.{Error, payload_too_long}
use rust_mq.Mqtt3.Protocol
use rust_mq.Mqtt3.Qos.{Qos, at_most_once}
use rust_mq.Mqtt3.Qos
use rust_mq.Mqtt3.ConnectReturnCode
use rust_mq.Mqtt3.Packet.{
  LastWill, Connect, Publish, SubscribeTopic, Subscribe, SubscribeReturnCodes, success, failure,
  Suback, Unsubscribe, Packet, connect, connack, publish, puback, pubrec, pubrel, pubcomp,
  subscribe, suback, unsubscribe, unsuback, pingreq, pingresp, disconnect,
}

abbrev pub Writer : Type 0
Writer = Action Error Bytes (Unit {0})

unfoldable pub write : Bytes → Writer
write bytes out = done tt (out ++ bytes)

unfoldable pub write_u8 : ℕ → Writer
unfolding write
write_u8 b = write (b ∷ [])

-- `write_u16::<BigEndian>`
unfoldable pub write_u16 : ℕ → Writer
unfolding write
write_u16 n = write (n / 256 ∷ n % 256 ∷ [])

-- The length is cut to 16 bits by `as u16`; the text is written whole.
unfoldable pub write_mqtt_string : Text → Writer
unfolding write_u16 write
write_mqtt_string s = write_u16 (length s % 65536) >> write s

pub quotient_shrinks : (x : ℕ) → 0 < x / 128 → x / 128 < x
quotient_shrinks x h = omega arith

-- The `while` loop, in the order in which the bytes are written.
unfoldable pub length_bytes : (x : ℕ) → Acc ◌<◌ x → Bytes
unfolding dec_lt
length_bytes x (Acc.intro _ smaller) =
    dite (dec_lt 0 (x / 128))
      (λ more. bit_or (x % 128) 128 ∷ length_bytes (x / 128) (smaller _ (quotient_shrinks x more)))
      (λ _. x % 128 ∷ [])

unfoldable pub write_remaining_length : ℕ → Writer
unfolding length_bytes lt_wf write
write_remaining_length len =
    if ltb max_payload_size len
    then fail payload_too_long
    else write (length_bytes len (lt_wf.apply len))

abbrev pub bool_u8 : Bool → ℕ
bool_u8 b = if b then 1 else 0

abbrev pub is_some {ℓ} : {A : Type ℓ} → Option A → Bool
is_some none = false
is_some (some _) = true

abbrev pub will_size : Option LastWill → ℕ
will_size none = 0
will_size (some w) = 4 + length w.topic + length w.message

abbrev pub text_size : Option Text → ℕ
text_size none = 0
text_size (some t) = 2 + length t

unfoldable pub connect_size : Connect → ℕ
unfolding Protocol.name
connect_size c =
    8
    + length (Protocol.name c.protocol)
    + length c.client_id
    + will_size c.last_will
    + text_size c.username
    + text_size c.password

abbrev pub set_bits : Bool → ℕ → ℕ → ℕ
set_bits b mask flags = if b then bit_or flags mask else flags

abbrev pub will_flags : Option LastWill → ℕ → ℕ
will_flags none flags = flags
will_flags (some w) flags =
    set_bits w.retain 0x20 (bit_or (bit_or flags 0x04) (Qos.to_u8 w.qos * 8))

unfoldable pub connect_flags : Bool → Option LastWill → Bool → Bool → ℕ
unfolding Qos.to_u8
connect_flags clean_session last_will password username =
    set_bits username 0x80
      (set_bits password 0x40 (will_flags last_will (set_bits clean_session 0x02 0)))

unfoldable pub write_will : Option LastWill → Writer
unfolding write_mqtt_string
write_will none = pure tt
write_will (some w) = write_mqtt_string w.topic >> write_mqtt_string w.message

unfoldable pub write_optional : Option Text → Writer
unfolding write_mqtt_string
write_optional none = pure tt
write_optional (some t) = write_mqtt_string t

unfoldable pub write_connect : Connect → Writer
write_connect c = do
  write_u8 0b00010000
  write_remaining_length (connect_size c)
  write_mqtt_string (Protocol.name c.protocol)
  write_u8 (Protocol.level c.protocol)
  write_u8 (connect_flags c.clean_session c.last_will (is_some c.password) (is_some c.username))
  write_u16 c.keep_alive
  write_mqtt_string c.client_id
  write_will c.last_will
  write_optional c.username
  write_optional c.password

-- `qos != AtMostOnce` with the identifier that is then written, if there is one.
abbrev pub written_pid : Publish → Option ℕ
written_pid p = if not (Qos.eq p.qos at_most_once) then p.pid else none

abbrev pub pid_size : Option ℕ → ℕ
pid_size none = 0
pid_size (some _) = 2

unfoldable pub publish_byte : Bool → Qos → Bool → ℕ
unfolding Qos.to_u8
publish_byte retain qos dup =
    bit_or (bit_or (bit_or 0b00110000 (bool_u8 retain)) (Qos.to_u8 qos * 2)) (bool_u8 dup * 8)

unfoldable pub write_pid : Option ℕ → Writer
unfolding write_u16
write_pid none = pure tt
write_pid (some pid) = write_u16 pid

unfoldable pub write_publish : Publish → Writer
write_publish p = do
  write_u8 (publish_byte p.retain p.qos p.dup)
  write_remaining_length (length p.topic_name + 2 + length p.payload + pid_size (written_pid p))
  write_mqtt_string p.topic_name
  write_pid (written_pid p)
  write p.payload

-- `iter().fold(0, |s, ref t| s + t.topic_path.len() + 3)`
unfoldable pub topics_fold : ℕ → List SubscribeTopic → ℕ
topics_fold s [] = s
topics_fold s (t ∷ ts) = topics_fold (s + length t.topic_path + 3) ts

unfoldable pub write_topics : List SubscribeTopic → Writer
write_topics [] = pure tt
write_topics (t ∷ ts) = do
  write_mqtt_string t.topic_path
  write_u8 (Qos.to_u8 t.qos)
  write_topics ts

unfoldable pub write_subscribe : Subscribe → Writer
write_subscribe s = do
  write (0x82 ∷ [])
  write_remaining_length (2 + topics_fold 0 s.topics)
  write_u16 s.pid
  write_topics s.topics

unfoldable pub return_code_u8 : SubscribeReturnCodes → ℕ
unfolding Qos.to_u8
return_code_u8 (success qos) = Qos.to_u8 qos
return_code_u8 failure = 0x80

unfoldable pub write_suback : Suback → Writer
write_suback s = do
  write (0x90 ∷ [])
  write_remaining_length (length s.return_codes + 2)
  write_u16 s.pid
  write (map return_code_u8 s.return_codes)

-- `iter().fold(0, |s, ref topic| s + topic.len() + 2)`
unfoldable pub names_fold : ℕ → List Text → ℕ
names_fold s [] = s
names_fold s (t ∷ ts) = names_fold (s + length t + 2) ts

unfoldable pub write_names : List Text → Writer
write_names [] = pure tt
write_names (t ∷ ts) = write_mqtt_string t >> write_names ts

unfoldable pub write_unsubscribe : Unsubscribe → Writer
write_unsubscribe u = do
  write (0xa2 ∷ [])
  write_remaining_length (2 + names_fold 0 u.topics)
  write_u16 u.pid
  write_names u.topics

unfoldable pub write_acknowledgement : ℕ → ℕ → Writer
write_acknowledgement byte pid = write (byte ∷ 0x02 ∷ []) >> write_u16 pid

unfoldable pub write_packet : Packet → Writer
write_packet (connect c) = write_connect c
write_packet (connack c) =
    write (0x20 ∷ 0x02 ∷ bool_u8 c.session_present ∷ ConnectReturnCode.to_u8 c.code ∷ [])
write_packet (publish p) = write_publish p
write_packet (puback pid) = write_acknowledgement 0x40 pid
write_packet (pubrec pid) = write_acknowledgement 0x50 pid
write_packet (pubrel pid) = write_acknowledgement 0x62 pid
write_packet (pubcomp pid) = write_acknowledgement 0x70 pid
write_packet (subscribe s) = write_subscribe s
write_packet (suback s) = write_suback s
write_packet (unsubscribe u) = write_unsubscribe u
write_packet (unsuback pid) = write_acknowledgement 0xb0 pid
write_packet pingreq = write (0xc0 ∷ 0 ∷ [])
write_packet pingresp = write (0xd0 ∷ 0 ∷ [])
write_packet disconnect = write (0xe0 ∷ 0 ∷ [])
