-- ===== src/Host.antt =====
-- crates/snaca-channel-host/src: the host's side of a plugin process.
pub mod Params
pub mod Reader
