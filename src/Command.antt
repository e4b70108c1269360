-- ===== src/Command.antt =====
-- The command mqttc of src/: the command line and the two commands.
pub mod Ending
pub mod Numbers
pub mod Getopts
pub mod Tls
pub mod Settings
pub mod Publish
pub mod Subscribe
pub mod Cli
mod Examples
