-- ===== src/Lib.antt =====
-- snaca is an agent server: messages from chat plugins become turns of an engine that calls a
-- language model and tools, and replies go out through a persistent outbox. This library models
-- the parts below and proves what makes each correct.
--
-- Base: the shared helpers. A number is the native ℕ; a machine integer's wrap-around is written
--   out.
-- Core: content blocks, messages and token usage (crates/snaca-core/src).
-- Workspace.PathGuard: `resolve_within` (crates/snaca-workspace/src/path_guard.rs). A path is the
--   list of its components; Walk says which place a path names, and Containment and Parents
--   compare.
-- Engine.Pairing: `ensure_tool_result_pairing` (crates/snaca-engine/src/engine.rs), the gate that
--   every history passes before it is sent. `turn` is one round of the loop and `pair_from` the
--   loop.
-- Engine.History, Engine.Collapse: the byte budget, the conversation window and the collapse of
--   old results (the same file).
-- Engine.LoopGuard: the tally of identical tool calls (crates/snaca-engine/src/loop_guard.rs).
-- Engine.Fence: the streaming scrubber (crates/snaca-engine/src/memory_fence.rs). `scan` is the
--   loop of `push`, `round` one turn of it; a text is its bytes, and what is left replaces an
--   offset.
-- Engine.Approval: `gate_check` in front of every tool call (crates/snaca-engine/src/engine.rs),
--   with the decisions of crates/snaca-agent-api/src/approval.rs and their mapping in
--   crates/snaca-server/src/gate.rs. It reads and writes the table of State.Decisions.
-- Llm.Error, Llm.Response, Llm.Classify, Llm.Stream, Llm.Retry: the errors and responses of
--   providers, the class of an HTTP error, the stream accumulator and the retry loop (the files of
--   these names in crates/snaca-llm/src). Llm.Json is serde_json as the streams use it, a record
--   of operations. Retry uses the classification of Error; Engine and Llm share Core's
--   messages.
-- Llm.Lines, Llm.Deepseek: the line buffer that the stream decoders share, and the decoder of
--   crates/snaca-llm/src/deepseek/sse.rs, whose events are those of Llm.Stream. `process_chunk` is
--   taken apart by its four numbered steps; Wire holds the types of a chunk, and Loop the loop of
--   `parse_byte_stream`, `parse_lines`.
-- State.Outbox, State.Schedule, State.Decisions: three SQLite tables and their statements
--   (crates/snaca-state/src/db.rs).
-- Server.Channel: a plugin, its parameters and errors
--   (crates/snaca-channel-protocol/src/methods.rs, crates/snaca-channel-host/src/error.rs).
-- Server.Outbox: write a row, try the plugin, settle the row (crates/snaca-server/src/outbox.rs);
--   it acts on the table of State.Outbox. The functions end in `_now` where a row's kind has their
--   name.
-- Server.Scheduler: a pass over the due tasks (crates/snaca-server/src/scheduler.rs), on the table
--   of State.Schedule. The range of chrono is a parameter; a panic ends the pass.
-- Tools.Files, Tools.Edit: the read tracker and the tools Edit and MultiEdit
--   (crates/snaca-tools-api/src/context.rs, crates/snaca-tools/src/edit.rs and multi_edit.rs),
--   over any file system. `load` is what both do before they replace, on a path from
--   Workspace.PathGuard.
-- Protocol.JsonRpc, Protocol.Codec: the envelope and the line framing between host and plugin
--   (crates/snaca-channel-protocol/src/jsonrpc.rs and codec.rs). serde is a parameter.
-- Host.Params, Host.Reader: `reader_task` and its handlers
--   (crates/snaca-channel-host/src/supervisor.rs), which decode lines by Protocol.Codec and take
--   senders out of the maps of calls, approvals and questions; a decision has the type of
--   Engine.Approval.
-- Examples: concrete inputs.
--
-- Fuel: the retry loop takes one unit for each call, and the attempts that are left are enough.
-- The scheduler's walk takes the code's own 100000 hops. A round of the scrubber that goes on
-- shortens its text, so fuel beyond the text's length is enough. All other loops recurse on their
-- input.
--
-- Not modelled: the asynchronous shell (timers, the outbox worker, actors, processes), times before
-- 1970 and, in the order of the texts of times, after the year 9999, SQL errors other than a
-- conflict of a key, the requests of the providers, the
-- other tools, memory, MCP, skills, the clients, the SDK and the admin interface. Symbolic links
-- are outside `resolve_within`, which is lexical. Logging is left out.
pub mod Base
pub mod Core
pub mod Workspace
pub mod Engine
pub mod Llm
pub mod State
pub mod Server
pub mod Examples
pub mod Host
pub mod Protocol
pub mod Tools
