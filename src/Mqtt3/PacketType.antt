-- ===== src/Mqtt3/PacketType.antt =====
-- `PacketType` of mqtt3/src/lib.rs.
use rust_mq.Base.{ℕ, ◌/◌, ◌==◌, if◌then◌else◌}
use rust_mq.Outcome.{Result, ok, err}
use rust_mq.Mqtt3.Errors.{Error, unsupported_packet_type}

pub data PacketType : Type 0 where
  connect connack publish puback pubrec pubrel pubcomp : PacketType
  subscribe suback unsubscribe unsuback pingreq pingresp disconnect : PacketType

unfoldable pub to_u8 : PacketType → ℕ
to_u8 connect = 1
to_u8 connack = 2
to_u8 publish = 3
to_u8 puback = 4
to_u8 pubrec = 5
to_u8 pubrel = 6
to_u8 pubcomp = 7
to_u8 subscribe = 8
to_u8 suback = 9
to_u8 unsubscribe = 10
to_u8 unsuback = 11
to_u8 pingreq = 12
to_u8 pingresp = 13
to_u8 disconnect = 14

unfoldable pub from_u8 : ℕ → Result Error PacketType
from_u8 byte =
    if byte == 1
    then ok connect
    else if byte == 2
    then ok connack
    else if byte == 3
    then ok publish
    else if byte == 4
    then ok puback
    else if byte == 5
    then ok pubrec
    else if byte == 6
    then ok pubrel
    else if byte == 7
    then ok pubcomp
    else if byte == 8
    then ok subscribe
    else if byte == 9
    then ok suback
    else if byte == 10
    then ok unsubscribe
    else if byte == 11
    then ok unsuback
    else if byte == 12
    then ok pingreq
    else if byte == 13
    then ok pingresp
    else if byte == 14
    then ok disconnect
    else err unsupported_packet_type

unfoldable pub from_hd : ℕ → Result Error PacketType
unfolding from_u8
from_hd hd = from_u8 (hd / 16)
