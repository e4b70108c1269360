-- ===== src/Mqttc.antt =====
-- The crate mqttc: the client of the protocol.
pub mod Wire
pub mod Dial
pub mod Errors
pub mod PubOpt
pub mod Store
pub mod Network
pub mod Sub
pub mod Options
pub mod Client
pub mod Examples
