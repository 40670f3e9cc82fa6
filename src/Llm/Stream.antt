-- ===== src/Llm/Stream.antt =====
-- crates/snaca-llm/src/stream.rs: stream events, their synthesis from a response, and the accumulator
-- that collapses events into one response. A text is its UTF-8 bytes.
pub mod Blocks
pub mod Chars
pub mod RoundTrip
pub mod Interleaving
use mathlib.Core.List.{foldl}
use snaca.Base.{
  ℕ, suc, ◌+◌, ◌%◌, ◌^◌, String, Bool, true, false, Option, none, some, List, [], ◌∷◌, ◌++◌, length,
  any, if◌then◌else◌,
}
use snaca.Core.Content.{
  ContentBlock, text, thinking, tool_use, tool_result, image, Message, Text, assistant, bytes,
}
use snaca.Core.Usage.{Usage}
use snaca.Llm.Error.{LlmError, malformed_tool_args, provider, LlmResult, ok, err}
use snaca.Llm.Json.{Json, is_blank}
use snaca.Llm.Response.{StopReason, end_turn, max_tokens, MessageResponse}
use snaca.Llm.Stream.Chars.{chars, preview_args}
use snaca.Llm.Stream.Blocks.{BlockMap, insert, update}

pub data ContentBlockStart : Type 0 where
  text_start thinking_start : ContentBlockStart
  tool_use_start : String → String → ContentBlockStart

pub data ContentDelta : Type 0 where
  text_delta thinking_delta tool_input_json : Text → ContentDelta

pub data StreamEvent : Type 0 where
  message_start : String → Option String → StreamEvent
  content_block_start : ℕ → ContentBlockStart → StreamEvent
  content_block_delta : ℕ → ContentDelta → StreamEvent
  content_block_stop : ℕ → StreamEvent
  message_delta : Option StopReason → Option Usage → StreamEvent
  message_stop : StreamEvent
  error : Text → StreamEvent

pub data PartialBlock : Type 0 where
  text_part : Text → PartialBlock
  thinking_part : Text → Option String → PartialBlock
  tool_use_part : String → String → Text → PartialBlock

abbrev pub from_start : ContentBlockStart → PartialBlock
from_start text_start = text_part []
from_start thinking_start = thinking_part [] none
from_start (tool_use_start id name) = tool_use_part id name []

-- A delta of another kind than its block is ignored.
unfoldable pub ingest_delta : ContentDelta → PartialBlock → PartialBlock
ingest_delta (text_delta t) (text_part buf) = text_part (buf ++ t)
ingest_delta (thinking_delta t) (thinking_part buf signature) = thinking_part (buf ++ t) signature
ingest_delta (tool_input_json t) (tool_use_part id name args) = tool_use_part id name (args ++ t)
ingest_delta _ part = part

pub record StreamAccumulator : Type 0 where
  pub message_id : Option String
  pub model : Option String
  pub blocks : BlockMap PartialBlock
  pub stop_reason : Option StopReason
  pub usage : Option Usage
  pub error : Option Text

abbrev pub new : StreamAccumulator
new = record {
  message_id = none;
  model = none;
  blocks = [];
  stop_reason = none;
  usage = none;
  error = none;
}

-- `if let Some(x) = new { old = Some(x) }`, and the first error is kept.
abbrev pub or_keep : {A : Type 0} → Option A → Option A → Option A
or_keep (some a) old = some a
or_keep none old = old

unfoldable pub ingest : StreamAccumulator → StreamEvent → StreamAccumulator
ingest acc (message_start id model) = record acc { message_id = some id; model = model }
ingest acc (content_block_start index block) = record acc {
  blocks = insert index (from_start block) acc.blocks;
}
ingest acc (content_block_delta index delta) = record acc {
  blocks = update index (ingest_delta delta) acc.blocks;
}
ingest acc (content_block_stop index) = acc
ingest acc (message_delta stop_reason usage) = record acc {
  stop_reason = or_keep stop_reason acc.stop_reason;
  usage = or_keep usage acc.usage;
}
ingest acc message_stop = acc
ingest acc (error message) = record acc { error = or_keep acc.error (some message) }

abbrev pub ingest_all : StreamAccumulator → List StreamEvent → StreamAccumulator
ingest_all = foldl ingest

abbrev pub u32 : ℕ → ℕ
u32 n = n % 2 ^ 32

abbrev default_usage : Usage
default_usage = record {
  input_tokens = 0;
  output_tokens = 0;
  cache_creation_input_tokens = none;
  cache_read_input_tokens = none;
}

abbrev pub unwrap_or : {A : Type 0} → Option A → A → A
unwrap_or (some a) d = a
unwrap_or none d = d

abbrev hit_max_tokens : Option StopReason → Bool
hit_max_tokens (some max_tokens) = true
hit_max_tokens _ = false

module _ (json : Json) where
  open json use {Value, to_string, from_str, empty_object}

  -- The events of the block at `index`; a block that no assistant sends gives none.
  abbrev pub block_events : ℕ → ContentBlock Value → List StreamEvent
  block_events index (text t) =
      content_block_start index text_start
      ∷ content_block_delta index (text_delta t)
      ∷ content_block_stop index
      ∷ []
  block_events index (thinking t signature) =
      content_block_start index thinking_start
      ∷ content_block_delta index (thinking_delta t)
      ∷ content_block_stop index
      ∷ []
  block_events index (tool_use id name input) =
      content_block_start index (tool_use_start id name)
      ∷ content_block_delta index (tool_input_json (to_string input))
      ∷ content_block_stop index
      ∷ []
  block_events index (tool_result id body is_error) = []
  block_events index (image source) = []

  -- The loop over `enumerate()` from `idx` on.
  unfoldable pub events_from : ℕ → List (ContentBlock Value) → List StreamEvent
  events_from idx [] = []
  events_from idx (block ∷ content) = block_events (u32 idx) block ++ events_from (idx + 1) content

  unfoldable pub synthesize_events : MessageResponse Value → List StreamEvent
  synthesize_events resp =
      (message_start resp.id none ∷ events_from 0 resp.message.content)
      ++ (message_delta (some resp.stop_reason) (some resp.usage) ∷ message_stop ∷ [])

  abbrev parsed_args :
      Option StopReason → String → String → Text → Option Value → LlmResult (ContentBlock Value)
  parsed_args stop_reason id name args (some input) = ok (tool_use id name input)
  parsed_args stop_reason id name args none = err (
      malformed_tool_args name (length (chars args))
        (record { max_tokens_hit = hit_max_tokens stop_reason; raw_preview = preview_args args }))

  unfoldable pub into_content_block :
      Option StopReason → PartialBlock → LlmResult (ContentBlock Value)
  into_content_block stop_reason (text_part t) = ok (text t)
  into_content_block stop_reason (thinking_part t signature) = ok (thinking t signature)
  into_content_block stop_reason (tool_use_part id name args) =
      if is_blank args
      then ok (tool_use id name empty_object)
      else parsed_args stop_reason id name args (from_str args)

  abbrev push_block :
      LlmResult (ContentBlock Value)
      → LlmResult (List (ContentBlock Value))
      → LlmResult (List (ContentBlock Value))
  push_block (ok block) (ok content) = ok (block ∷ content)
  push_block (ok block) (err e) = err e
  push_block (err e) rest = err e

  -- The loop of `finalize` over the map; `?` ends it at the first error.
  unfoldable pub collect_blocks :
      Option StopReason → BlockMap PartialBlock → LlmResult (List (ContentBlock Value))
  unfolding into_content_block
  collect_blocks stop_reason [] = ok []
  collect_blocks stop_reason ((index, part) ∷ blocks) =
      push_block (into_content_block stop_reason part) (collect_blocks stop_reason blocks)

  abbrev is_tool_use : ContentBlock Value → Bool
  is_tool_use (tool_use id name input) = true
  is_tool_use _ = false

  abbrev infer_stop_reason : List (ContentBlock Value) → StopReason
  infer_stop_reason content = if any is_tool_use content then StopReason.tool_use else end_turn

  -- `new_id` and `now` are the values of `MessageId::new()` and `Utc::now()`.
  abbrev pub finish :
      String
      → ℕ
      → StreamAccumulator
      → LlmResult (List (ContentBlock Value))
      → LlmResult (MessageResponse Value)
  finish new_id now acc (err e) = err e
  finish new_id now acc (ok content) = ok (record {
    id = unwrap_or acc.message_id "";
    message = record { id = new_id; role = assistant; content = content; created_at = now };
    usage = unwrap_or acc.usage default_usage;
    stop_reason = unwrap_or acc.stop_reason (infer_stop_reason content);
  })

  abbrev finalize_with :
      String → ℕ → StreamAccumulator → Option Text → LlmResult (MessageResponse Value)
  finalize_with new_id now acc (some message) = err (provider (bytes "stream_error") message)
  finalize_with new_id now acc none =
      finish new_id now acc (collect_blocks acc.stop_reason acc.blocks)

  unfoldable pub finalize : String → ℕ → StreamAccumulator → LlmResult (MessageResponse Value)
  finalize new_id now acc = finalize_with new_id now acc acc.error
