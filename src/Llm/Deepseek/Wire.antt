-- ===== src/Llm/Deepseek/Wire.antt =====
-- crates/snaca-llm/src/deepseek/wire.rs and sse.rs: the chunks of a stream as they come over the wire.
use snaca.Base.{ℕ, String, Option, List}
use snaca.Core.Content.{Text}
use snaca.Core.Usage.{Usage}

pub record WireUsage : Type 0 where
  pub prompt_tokens : ℕ
  pub completion_tokens : ℕ
  pub total_tokens : ℕ
  pub prompt_cache_hit_tokens : Option ℕ
  pub prompt_cache_miss_tokens : Option ℕ

abbrev pub to_usage : WireUsage → Usage
to_usage w = record {
  input_tokens = w.prompt_tokens;
  output_tokens = w.completion_tokens;
  cache_creation_input_tokens = w.prompt_cache_miss_tokens;
  cache_read_input_tokens = w.prompt_cache_hit_tokens;
}

pub record StreamToolCallFunction : Type 0 where
  pub name : Option String
  pub arguments : Option Text

pub record StreamToolCall : Type 0 where
  pub index : ℕ
  pub id : Option String
  pub function : Option StreamToolCallFunction

pub record StreamDelta : Type 0 where
  pub content : Option Text
  pub reasoning_content : Option Text
  pub tool_calls : Option (List StreamToolCall)

-- The source does not read the index of a choice.
pub record StreamChoice : Type 0 where
  pub delta : StreamDelta
  pub finish_reason : Option String

pub record ChatStreamChunk : Type 0 where
  pub id : Option String
  pub model : Option String
  pub choices : List StreamChoice
  pub usage : Option WireUsage
