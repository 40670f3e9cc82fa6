-- ===== src/Examples/Feeds.antt =====
-- Streams that come in chunks: a text with a protected block (crates/snaca-engine/src/memory_fence.rs) and the
-- events of a message (crates/snaca-llm/src/deepseek/sse.rs), of which the first byte says what it is.
use mathlib.Core.List.{flatten}
use snaca.Base.{ℕ, Option, none, some, List, [], ◌∷◌, ◌++◌, ◌≡◌, refl, ◌==◌, if◌then◌else◌, arith}
use snaca.Core.Content.{Text, bytes}
use snaca.Core.Ascii.{starts_ci}
use snaca.Engine.Fence.{
  new, scrub_from, scan, push, flush, round, classify_open, try_names, try_name, tag_end,
  after_close, tail_overlap, before_lt, after_lt,
}
use snaca.Engine.Fence.Chunks.{scrub_from-chunks}
use snaca.Llm.Lines.{lines_from, split_lines, lines_from-flatten}
use snaca.Llm.Deepseek.Kinds.{WellTyped}
use snaca.Llm.Deepseek.Routed.{process_all, process_all-WellTyped}
use snaca.Llm.Deepseek.{ChatStreamChunk, StreamToolCall, fresh}
use snaca.Llm.Deepseek.Loop.{Received, received_chunk, transport_error, parse_byte_stream}
use snaca.Llm.Deepseek.Phases.{before}
use snaca.Llm.Deepseek.Endings.{EndsFrom, parse_byte_stream-EndsFrom}

abbrev cut_block : List Text
cut_block = bytes "a<memory-con" ∷ bytes "text>secret</memory" ∷ bytes "-context>b" ∷ []

cut_block_scrubbed : scrub_from new cut_block ≡ bytes "ab"
unfolding scrub_from scan push flush round classify_open try_names try_name tag_end after_close
    tail_overlap before_lt after_lt starts_ci
cut_block_scrubbed = refl

scrub_from-chunks_example : scrub_from new cut_block ≡ scrub_from new (flatten cut_block ∷ [])
scrub_from-chunks_example = scrub_from-chunks cut_block

abbrev cut_lines : List Text
cut_lines =
    (bytes "data: t" ++ 10 ∷ [])
    ∷ bytes "data"
    ∷ (bytes ": t" ++ 13 ∷ 10 ∷ [])
    ∷ bytes "data: [DONE]"
    ∷ []

lines_from-flatten_example : lines_from [] cut_lines ≡ (split_lines (flatten cut_lines)).0
lines_from-flatten_example = lines_from-flatten cut_lines

-- A payload `t` brings a text; any other is malformed.
abbrev chunk_of : Text → ChatStreamChunk
chunk_of content = record {
  id = some "m";
  model = none;
  choices =
      record {
        delta = record { content = some content; reasoning_content = none; tool_calls = none };
        finish_reason = none;
      }
      ∷ [];
  usage = none;
}

abbrev read_chunk : Text → Option ChatStreamChunk
read_chunk [] = none
read_chunk (b ∷ t) = if b == 116 then some (chunk_of (bytes "hi")) else none

-- The transport fails before the last line.
abbrev received : List Received
received =
    received_chunk (bytes "data: t" ++ 10 ∷ [])
    ∷ received_chunk (bytes "data: t")
    ∷ transport_error
    ∷ received_chunk (10 ∷ [])
    ∷ []

parse_byte_stream-EndsFrom_example : EndsFrom before (parse_byte_stream read_chunk received)
parse_byte_stream-EndsFrom_example = parse_byte_stream-EndsFrom read_chunk received

-- Two tool calls that take turns.
abbrev call : ℕ → StreamToolCall
call index = record {
  index = index;
  id = some "call";
  function = some (record { name = some "Read"; arguments = some (bytes "{}") });
}

abbrev calls_chunk : ChatStreamChunk
calls_chunk = record {
  id = some "m";
  model = none;
  choices =
      record {
        delta = record {
          content = some (bytes "hi");
          reasoning_content = none;
          tool_calls = some (call 0 ∷ call 1 ∷ call 0 ∷ []);
        };
        finish_reason = some "tool_calls";
      }
      ∷ [];
  usage = none;
}

process_all-WellTyped_example :
    WellTyped [] (process_all (chunk_of (bytes "hi") ∷ calls_chunk ∷ []) fresh).0
process_all-WellTyped_example =
    process_all-WellTyped (chunk_of (bytes "hi") ∷ calls_chunk ∷ []) (omega arith)
