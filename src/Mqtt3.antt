-- ===== src/Mqtt3.antt =====
-- The crate mqtt3.
pub mod Errors
pub mod Bytes
pub mod Protocol
pub mod Qos
pub mod PacketType
pub mod ConnectReturnCode
pub mod PacketIdentifier
pub mod Header
pub mod Packet
pub mod Stream
pub mod Read
pub mod Write
pub mod Codec
pub mod Topic
pub mod Message
pub mod Accept
pub mod Samples
mod Examples
pub mod TopicExamples
