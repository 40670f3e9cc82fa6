-- ===== src/State.antt =====
-- crates/snaca-state/src: the SQLite tables. A table is the list of its rows in insertion order; an
-- `UPDATE … WHERE id = ?` changes every row with that id, and an `INSERT` of a primary key that is
-- there fails. A time stamp is in seconds.
pub mod Outbox
pub mod Schedule
pub mod Decisions
