-- ===== src/Mqtt3/Read.antt =====
-- The packet-level part of `MqttRead` in mqtt3/src/read.rs.
use rust_mq.Base.{
  ℕ, zero, suc, ◌+◌, ◌-◌, ◌/◌, ◌%◌, ◌^◌, ◌==◌, true, false, not, List, [], ◌∷◌, Option, none, some,
  bit_and, if◌then◌else◌, length,
}
use rust_mq.Outcome.{Result, ok, err, done, stuck, ◌>>=◌, pure, fail, from_result, unwrap, attempt}
use rust_mq.Mqtt3.Bytes.{Text}
use rust_mq.Mqtt3.Errors.{
  Error, payload_required, payload_size_incorrect, incorrect_packet_format, unsupported_packet_type,
}
use rust_mq.Mqtt3.Stream.{
  Reader, read_u8, read_u16, read_to_end, limited, read_mqtt_string, read_remaining_length,
}
use rust_mq.Mqtt3.Protocol
use rust_mq.Mqtt3.Qos.{Qos, at_most_once}
use rust_mq.Mqtt3.Qos
use rust_mq.Mqtt3.PacketType.{PacketType}
use rust_mq.Mqtt3.ConnectReturnCode
use rust_mq.Mqtt3.Header.{Header}
use rust_mq.Mqtt3.Header
use rust_mq.Mqtt3.Packet.{
  LastWill, Connect, Connack, Publish, SubscribeTopic, Subscribe, SubscribeReturnCodes, success,
  failure, Suback, Unsubscribe, Packet,
}

-- `remaining_bytes -= n` on a `usize`, as the release build computes it.
abbrev pub sub_usize : ℕ → ℕ → ℕ
sub_usize a b = (a + 2 ^ 64 - b) % 2 ^ 64

unfoldable pub read_will : ℕ → Reader (Option LastWill)
read_will flags =
    if bit_and flags 0b100 == 0
    then (if not (bit_and flags 0b00111000 == 0) then fail incorrect_packet_format else pure none)
    else (do
      will_topic ← read_mqtt_string
      will_message ← read_mqtt_string
      will_qos ← from_result (Qos.from_u8 (bit_and flags 0b11000 / 8))
      pure (
          some (record {
            topic = will_topic;
            message = will_message;
            qos = will_qos;
            retain = not (bit_and flags 0b00100000 == 0);
          })))

-- `match connect_flags & bit { 0 => None, _ => Some(try!(self.read_mqtt_string())) }`
unfoldable pub read_optional : ℕ → Reader (Option Text)
read_optional flag = if flag == 0 then pure none else (do text ← read_mqtt_string; pure (some text))

unfoldable pub read_connect : Reader Connect
read_connect = do
  protocol_name ← read_mqtt_string
  protocol_level ← read_u8
  protocol ← from_result (Protocol.new protocol_name protocol_level)
  connect_flags ← read_u8
  keep_alive ← read_u16
  client_id ← read_mqtt_string
  last_will ← read_will connect_flags
  username ← read_optional (bit_and connect_flags 0b10000000)
  password ← read_optional (bit_and connect_flags 0b01000000)
  pure (record {
    protocol = protocol;
    keep_alive = keep_alive;
    client_id = client_id;
    clean_session = not (bit_and connect_flags 0b10 == 0);
    last_will = last_will;
    username = username;
    password = password;
  })

unfoldable pub read_connack : Header → Reader Connack
read_connack header = if not (header.len == 2) then fail payload_size_incorrect else (do
  flags ← read_u8
  return_code ← read_u8
  code ← from_result (ConnectReturnCode.from_u8 return_code)
  pure (record { session_present = bit_and flags 0x01 == 1; code = code }))

unfoldable pub read_pid : Qos → Reader (Option ℕ)
read_pid qos =
    if not (Qos.eq qos at_most_once) then (do pid ← read_u16; pure (some pid)) else pure none

-- The topic name is read first, and its error is passed on last.
unfoldable pub read_publish : Header → Reader Publish
read_publish header = do
  topic_name ← attempt read_mqtt_string
  unwrapped ← unwrap (Header.qos header)
  pid ← read_pid unwrapped
  payload ← read_to_end
  qos ← from_result (Header.qos header)
  topic_name' ← from_result topic_name
  pure (record {
    dup = Header.dup header;
    qos = qos;
    retain = Header.retain header;
    topic_name = topic_name';
    pid = pid;
    payload = payload;
  })

-- Each round reads two bytes at least, so one round more than there are bytes is enough.
unfoldable pub subscribe_loop : ℕ → ℕ → Reader (List SubscribeTopic)
subscribe_loop zero remaining_bytes = λ s. stuck
subscribe_loop (suc fuel) remaining_bytes = λ s. elim (remaining_bytes == 0) [
  | true ↦ done [] s
  | false ↦
      (do
        topic_filter ← read_mqtt_string
        requested_qos ← read_u8
        qos ← from_result (Qos.from_u8 requested_qos)
        rest ← subscribe_loop fuel (sub_usize remaining_bytes (length topic_filter + 3))
        pure (record { topic_path = topic_filter; qos = qos } ∷ rest))
        s
]

unfoldable pub read_subscribe : Header → Reader Subscribe
read_subscribe header = do
  pid ← read_u16
  topics ← λ s. subscribe_loop (suc (length s)) (sub_usize header.len 2) s
  pure (record { pid = pid; topics = topics })

unfoldable pub suback_code : ℕ → Result Error SubscribeReturnCodes
suback_code byte =
    if byte / 128 == 1
    then ok failure
    else elim (Qos.from_u8 (bit_and byte 0x3)) [ ok q ↦ ok (success q) | err e ↦ err e ]

unfoldable pub suback_loop : ℕ → Reader (List SubscribeReturnCodes)
suback_loop zero = pure []
suback_loop (suc remaining_bytes) = do
  return_code ← read_u8
  code ← from_result (suback_code return_code)
  rest ← suback_loop remaining_bytes
  pure (code ∷ rest)

unfoldable pub read_suback : Header → Reader Suback
read_suback header = do
  pid ← read_u16
  codes ← suback_loop (sub_usize header.len 2)
  pure (record { pid = pid; return_codes = codes })

unfoldable pub unsubscribe_loop : ℕ → ℕ → Reader (List Text)
unsubscribe_loop zero remaining_bytes = λ s. stuck
unsubscribe_loop (suc fuel) remaining_bytes = λ s. elim (remaining_bytes == 0) [
  | true ↦ done [] s
  | false ↦
      (do
        topic_filter ← read_mqtt_string
        rest ← unsubscribe_loop fuel (sub_usize remaining_bytes (length topic_filter + 2))
        pure (topic_filter ∷ rest))
        s
]

unfoldable pub read_unsubscribe : Header → Reader Unsubscribe
read_unsubscribe header = do
  pid ← read_u16
  topics ← λ s. unsubscribe_loop (suc (length s)) (sub_usize header.len 2) s
  pure (record { pid = pid; topics = topics })

-- The arms for PUBACK, PUBREC, PUBREL, PUBCOMP and UNSUBACK.
unfoldable pub read_acknowledgement : (ℕ → Packet) → ℕ → Reader Packet
read_acknowledgement packet len =
    if not (len == 2) then fail payload_size_incorrect else (do pid ← read_u16; pure (packet pid))

-- The `match header.typ` on a packet with a body.
unfoldable pub read_body : Header → PacketType → Reader Packet
read_body header PacketType.connect = do c ← read_connect; pure (Packet.connect c)
read_body header PacketType.connack = do c ← read_connack header; pure (Packet.connack c)
read_body header PacketType.publish = do p ← read_publish header; pure (Packet.publish p)
read_body header PacketType.puback = read_acknowledgement Packet.puback header.len
read_body header PacketType.pubrec = read_acknowledgement Packet.pubrec header.len
read_body header PacketType.pubrel = read_acknowledgement Packet.pubrel header.len
read_body header PacketType.pubcomp = read_acknowledgement Packet.pubcomp header.len
read_body header PacketType.subscribe = do s ← read_subscribe header; pure (Packet.subscribe s)
read_body header PacketType.suback = do s ← read_suback header; pure (Packet.suback s)
read_body header PacketType.unsubscribe = do
  u ← read_unsubscribe header
  pure (Packet.unsubscribe u)
read_body header PacketType.unsuback = read_acknowledgement Packet.unsuback header.len
read_body header PacketType.pingreq = fail incorrect_packet_format
read_body header PacketType.pingresp = fail incorrect_packet_format
read_body header _ = fail unsupported_packet_type

-- The `match header.typ` on a packet with no body.
unfoldable pub read_empty : PacketType → Reader Packet
read_empty PacketType.pingreq = pure Packet.pingreq
read_empty PacketType.pingresp = pure Packet.pingresp
read_empty _ = fail payload_required

-- `read_packet` from `Header::new` on, and from its start.
unfoldable pub read_after_length : ℕ → ℕ → Reader Packet
read_after_length hd len = do
  header ← from_result (Header.new hd len)
  if len == 0 then read_empty header.typ else limited len (read_body header header.typ)

unfoldable pub read_packet : Reader Packet
unfolding read_after_length
read_packet = do hd ← read_u8; len ← read_remaining_length; read_after_length hd len
