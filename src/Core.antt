-- ===== src/Core.antt =====
-- The canonical conversation types of crates/snaca-core/src.
pub mod Content
pub mod Usage
pub mod Ascii
pub mod Patterns
