-- ===== src/Tools.antt =====
-- crates/snaca-tools/src and crates/snaca-tools-api/src: the tools that change files and plans.
pub mod Files
pub mod Edit
