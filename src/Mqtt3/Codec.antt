-- ===== src/Mqtt3/Codec.antt =====
-- The reader of mqtt3/src/read.rs against the writer of mqtt3/src/write.rs.
pub mod Actions
pub mod Length
pub mod Flags
pub mod Connect
pub mod Publish
pub mod Counts
pub mod Subscribe
pub mod Suback
pub mod Unsubscribe
pub mod RoundTrip
pub mod Limits
