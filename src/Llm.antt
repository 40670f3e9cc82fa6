-- ===== src/Llm.antt =====
-- crates/snaca-llm/src: provider errors, streamed responses and retries.
pub mod Error
pub mod Json
pub mod Response
pub mod Stream
pub mod Retry
pub mod Lines
pub mod Deepseek
pub mod Classify
