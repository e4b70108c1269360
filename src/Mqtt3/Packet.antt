-- ===== src/Mqtt3/Packet.antt =====
-- mqtt3/src/mqtt.rs: the control packets. `LastWill` is of mqtt3/src/lib.rs.
use rust_mq.Base.{ℕ, Bool, List, Option}
use rust_mq.Mqtt3.Bytes.{Bytes, Text}
use rust_mq.Mqtt3.Protocol.{Protocol}
use rust_mq.Mqtt3.Qos.{Qos}
use rust_mq.Mqtt3.ConnectReturnCode.{ConnectReturnCode}
use rust_mq.Mqtt3.PacketIdentifier.{PacketIdentifier}

pub record LastWill : Type 0 where
  pub topic : Text
  pub message : Text
  pub qos : Qos
  pub retain : Bool

pub record Connect : Type 0 where
  pub protocol : Protocol
  pub keep_alive : ℕ
  pub client_id : Text
  pub clean_session : Bool
  pub last_will : Option LastWill
  pub username : Option Text
  pub password : Option Text

pub record Connack : Type 0 where
  pub session_present : Bool
  pub code : ConnectReturnCode

pub record Publish : Type 0 where
  pub dup : Bool
  pub qos : Qos
  pub retain : Bool
  pub topic_name : Text
  pub pid : Option PacketIdentifier
  pub payload : Bytes

pub record SubscribeTopic : Type 0 where
  pub topic_path : Text
  pub qos : Qos

pub record Subscribe : Type 0 where
  pub pid : PacketIdentifier
  pub topics : List SubscribeTopic

pub data SubscribeReturnCodes : Type 0 where
  success : Qos → SubscribeReturnCodes
  failure : SubscribeReturnCodes

pub record Suback : Type 0 where
  pub pid : PacketIdentifier
  pub return_codes : List SubscribeReturnCodes

pub record Unsubscribe : Type 0 where
  pub pid : PacketIdentifier
  pub topics : List Text

pub data Packet : Type 0 where
  connect : Connect → Packet
  connack : Connack → Packet
  publish : Publish → Packet
  puback pubrec pubrel pubcomp : PacketIdentifier → Packet
  subscribe : Subscribe → Packet
  suback : Suback → Packet
  unsubscribe : Unsubscribe → Packet
  unsuback : PacketIdentifier → Packet
  pingreq pingresp disconnect : Packet
