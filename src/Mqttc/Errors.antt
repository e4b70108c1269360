-- ===== src/Mqttc/Errors.antt =====
-- mqttc/src/error.rs and the error of mqttc/src/store.rs.
use rust_mq.Mqtt3.Errors.{ErrorKind}
use rust_mq.Mqtt3.Errors
use rust_mq.Mqtt3.PacketIdentifier.{PacketIdentifier}
use rust_mq.Mqtt3.ConnectReturnCode.{ConnectReturnCode}

pub data StoreError : Type 0 where
  not_found unavailable : PacketIdentifier → StoreError

pub data Error : Type 0 where
  already_connected unsupported_feature unrecognized_packet connection_abort : Error
  incomming_storage_absent outgoing_storage_absent handshake_failed protocol_violation : Error
  disconnected timeout : Error
  unhandled_puback unhandled_pubrec unhandled_pubrel unhandled_pubcomp : PacketIdentifier → Error
  connection_refused : ConnectReturnCode → Error
  storage : StoreError → Error
  mqtt : Errors.Error → Error
  io : ErrorKind → Error

-- `impl From<MqttError> for Error`.
unfoldable pub from_mqtt : Errors.Error → Error
from_mqtt (Errors.io e) = io e
from_mqtt e = mqtt e
