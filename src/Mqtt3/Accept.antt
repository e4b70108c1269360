-- ===== src/Mqtt3/Accept.antt =====
-- What the reader of mqtt3/src/read.rs does on any stream of bytes.
pub mod Takes
pub mod Strings
pub mod Bodies
pub mod Lists
pub mod Packets
pub mod Safety
