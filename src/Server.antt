-- ===== src/Server.antt =====
-- crates/snaca-server/src: delivery to the IM plugins.
pub mod Channel
pub mod Outbox
pub mod Scheduler
