-- ===== src/Engine.antt =====
-- crates/snaca-engine/src: the turn engine.
pub mod Pairing
pub mod LoopGuard
pub mod History
pub mod Approval
pub mod Collapse
pub mod Fence
