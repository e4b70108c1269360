-- ===== src/Netopt.antt =====
-- The crate netopt: streams, their options, and the connection of the client.
pub mod Mock
pub mod Ssl
pub mod Stream
pub mod Options
pub mod Connection
mod Examples
