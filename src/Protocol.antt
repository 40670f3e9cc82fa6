-- ===== src/Protocol.antt =====
-- crates/snaca-channel-protocol/src: what host and plugins say to each other.
pub mod JsonRpc
pub mod Codec
