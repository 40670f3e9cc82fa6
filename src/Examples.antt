-- ===== src/Examples.antt =====
-- Concrete inputs for the theorems: a workspace path, a conversation, a stream, a retried call, an
-- outbox, a schedule, an edited file and a plugin that talks to its host.
mod Paths
mod Turns
mod Streams
mod Approvals
mod Calls
mod Rows
mod Schedules
mod Feeds
mod Edits
mod Plugins
