-- ===== src/Workspace.antt =====
-- crates/snaca-workspace/src.
pub mod PathGuard
