-- ===== src/Llm/Deepseek.antt =====
-- crates/snaca-llm/src/deepseek/sse.rs: the wire's chunks become stream events. A chunk's types are those of
-- Wire; Loop reads the lines, and the JSON in them by serde_json, the parameter `from_str`.
pub mod Endings
pub mod Kinds
mod Opened
pub mod Routed
pub mod Phases
mod Wire
pub mod Loop
pub use Wire.*
use snaca.Base.{
  ℕ, suc, ◌+◌, ◌%◌, ◌^◌, String, Bool, true, false, not, ◌&&◌, Option, none, some, List, [], ◌∷◌,
  ◌++◌, ◌==◌, str_eq, if◌then◌else◌,
}
use snaca.Core.Content.{Text, bytes}
use snaca.Core.Patterns.{strip_prefix, same_text}
use snaca.Core.Usage.{Usage}
use snaca.Llm.Json.{trim_start}
use snaca.Llm.Lines.{lines_from, without_return}
use snaca.Llm.Response.{StopReason, end_turn, max_tokens, tool_use, stop_sequence, other}
use snaca.Llm.Stream.{
  StreamEvent, message_start, content_block_start, content_block_delta, content_block_stop,
  message_delta, message_stop, ContentBlockStart, text_start, thinking_start, tool_use_start,
  ContentDelta, text_delta, thinking_delta, tool_input_json, unwrap_or, u32,
}

-- `ToolUse` holds the canonical index and the chunk's.
pub data ActiveBlock : Type 0 where
  in_text in_thinking : ℕ → ActiveBlock
  in_tool_use : ℕ → ℕ → ActiveBlock

-- `tool_indices` lists the wire's index and the canonical one.
pub record StreamState : Type 0 where
  pub started : Bool
  pub finished : Bool
  pub next_index : ℕ
  pub current : Option ActiveBlock
  pub tool_indices : List (ℕ × ℕ)

abbrev pub fresh : StreamState
fresh = record {
  started = false;
  finished = false;
  next_index = 0;
  current = none;
  tool_indices = [];
}

-- What a step pushes to `out`, and the state it leaves.
abbrev pub Out : Type 0
Out = List StreamEvent × StreamState

abbrev pub and_then : Out → (StreamState → Out) → Out
and_then (events, s) next = let (later, s') = next s in (events ++ later, s')

abbrev pub stop_of : Option ActiveBlock → List StreamEvent
stop_of none = []
stop_of (some (in_text i)) = content_block_stop i ∷ []
stop_of (some (in_thinking i)) = content_block_stop i ∷ []
stop_of (some (in_tool_use i chunk_index)) = content_block_stop i ∷ []

unfoldable pub close_current : StreamState → Out
close_current s = (stop_of s.current, record s { current = none })

-- `next_idx`, the new current block and the event that starts it.
unfoldable pub open_block : (ℕ → ActiveBlock) → ContentBlockStart → StreamState → Out
open_block block start s = (
  content_block_start s.next_index start ∷ [],
  record s { next_index = u32 (s.next_index + 1); current = some (block s.next_index) },
)

abbrev pub is_text : Option ActiveBlock → Bool
is_text (some (in_text i)) = true
is_text _ = false

abbrev pub is_thinking : Option ActiveBlock → Bool
is_thinking (some (in_thinking i)) = true
is_thinking _ = false

unfoldable pub ensure_text : StreamState → Out
unfolding close_current open_block
ensure_text s =
    if is_text s.current
    then ([], s)
    else and_then (close_current s) (open_block in_text text_start)

unfoldable pub ensure_thinking : StreamState → Out
unfolding close_current open_block
ensure_thinking s =
    if is_thinking s.current
    then ([], s)
    else and_then (close_current s) (open_block in_thinking thinking_start)

abbrev pub text_to : Text → Option ActiveBlock → List StreamEvent
text_to t (some (in_text i)) = content_block_delta i (text_delta t) ∷ []
text_to t _ = []

abbrev pub thinking_to : Text → Option ActiveBlock → List StreamEvent
thinking_to t (some (in_thinking i)) = content_block_delta i (thinking_delta t) ∷ []
thinking_to t _ = []

-- Steps 1 and 2; an empty text is passed over.
unfoldable pub on_reasoning : Option Text → StreamState → Out
unfolding ensure_thinking
on_reasoning none s = ([], s)
on_reasoning (some []) s = ([], s)
on_reasoning (some (b ∷ t)) s =
    and_then (ensure_thinking s) (λ s. (thinking_to (b ∷ t) s.current, s))

unfoldable pub on_content : Option Text → StreamState → Out
unfolding ensure_text
on_content none s = ([], s)
on_content (some []) s = ([], s)
on_content (some (b ∷ t)) s = and_then (ensure_text s) (λ s. (text_to (b ∷ t) s.current, s))

unfoldable pub canonical_of : ℕ → List (ℕ × ℕ) → Option ℕ
canonical_of index [] = none
canonical_of index ((k, i) ∷ known) = if k == index then some i else canonical_of index known

abbrev pub function_name : Option StreamToolCallFunction → String
function_name none = ""
function_name (some f) = unwrap_or f.name ""

abbrev pub arguments_of : Option StreamToolCallFunction → Option Text
arguments_of none = none
arguments_of (some f) = f.arguments

abbrev pub args_to : ℕ → Option Text → List StreamEvent
args_to i none = []
args_to i (some []) = []
args_to i (some (b ∷ args)) = content_block_delta i (tool_input_json (b ∷ args)) ∷ []

-- The first sight of a tool call.
unfoldable pub open_call : StreamToolCall → StreamState → Out
unfolding open_block
open_call tc s =
    let start = tool_use_start (unwrap_or tc.id "") (function_name tc.function) in
    let (events, s') = open_block (λ i. in_tool_use i tc.index) start s in
    (events, record s' { tool_indices = (tc.index, s.next_index) ∷ s.tool_indices })

-- The current block is anchored to the call, and its arguments go to the call's block.
abbrev pub on_known : StreamToolCall → ℕ → StreamState → Out
on_known tc i s =
    (args_to i (arguments_of tc.function), record s { current = some (in_tool_use i tc.index) })

abbrev pub on_call_at : StreamToolCall → Option ℕ → StreamState → Out
on_call_at tc (some i) s = on_known tc i s
on_call_at tc none s =
    and_then (close_current s) (λ s. and_then (open_call tc s) (on_known tc s.next_index))

unfoldable pub on_calls : List StreamToolCall → StreamState → Out
unfolding canonical_of close_current open_call
on_calls [] s = ([], s)
on_calls (tc ∷ calls) s =
    and_then (on_call_at tc (canonical_of tc.index s.tool_indices) s) (on_calls calls)

abbrev pub calls_of : Option (List StreamToolCall) → List StreamToolCall
calls_of none = []
calls_of (some calls) = calls

unfoldable pub map_stop_reason : String → StopReason
map_stop_reason s =
    if str_eq s "stop"
    then end_turn
    else if str_eq s "length"
    then max_tokens
    else if str_eq s "tool_calls"
    then tool_use
    else if str_eq s "function_call"
    then tool_use
    else if str_eq s "stop_sequence"
    then stop_sequence
    else other s

abbrev pub map_usage : Option WireUsage → Option Usage
map_usage none = none
map_usage (some w) = some (to_usage w)

-- Step 4.
unfoldable pub on_finish : Option String → Option WireUsage → StreamState → Out
unfolding close_current map_stop_reason
on_finish none usage s = ([], s)
on_finish (some reason) usage s = and_then (close_current s) (λ s. (
  message_delta (some (map_stop_reason reason)) (map_usage usage) ∷ message_stop ∷ [],
  record s { finished = true },
))

unfoldable pub on_start : ChatStreamChunk → StreamState → Out
on_start chunk s =
    if s.started
    then ([], s)
    else (message_start (unwrap_or chunk.id "") chunk.model ∷ [], record s { started = true })

-- The first choice, if there is one.
unfoldable pub on_choices : List StreamChoice → Option WireUsage → StreamState → Out
unfolding on_reasoning on_content on_calls on_finish
on_choices [] usage s = ([], s)
on_choices (choice ∷ choices) usage s =
    and_then (on_reasoning choice.delta.reasoning_content s) (λ s.
      and_then (on_content choice.delta.content s) (λ s.
        and_then (on_calls (calls_of choice.delta.tool_calls) s)
          (on_finish choice.finish_reason usage)))

unfoldable pub process_chunk : ChatStreamChunk → StreamState → Out
unfolding on_start on_choices
process_chunk chunk s =
    if s.finished
    then ([], s)
    else and_then (on_start chunk s) (on_choices chunk.choices chunk.usage)
