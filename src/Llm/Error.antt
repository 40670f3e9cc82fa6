-- ===== src/Llm/Error.antt =====
-- crates/snaca-llm/src/error.rs. What a variant holds of a foreign error (`reqwest`, `serde_json`) is
-- its text. A duration is in nanoseconds.
use snaca.Base.{ℕ, String, Bool, true, false, Option, none}
use snaca.Core.Content.{Text}

-- What `preview_args` of stream.rs shows of the raw arguments: all of them, or their first and last
-- characters with the number of those left out.
pub data Preview : Type 0 where
  whole : Text → Preview
  elided : Text → ℕ → Text → Preview

-- The parts that the message of `MalformedToolArgs` is formatted from.
pub record ArgsMessage : Type 0 where
  pub max_tokens_hit : Bool
  pub raw_preview : Preview

pub data LlmError : Type 0 where
  transport : Text → LlmError
  serde : Text → LlmError
  http_status : ℕ → Text → LlmError
  rate_limited : Option ℕ → LlmError
  context_overflow : LlmError
  server_transient : ℕ → LlmError
  auth_expired : ℕ → LlmError
  stream_interrupted : Text → LlmError
  malformed_response : Text → LlmError
  malformed_tool_args : String → ℕ → ArgsMessage → LlmError
  provider : Text → Text → LlmError
  content_filtered : Text → Text → LlmError
  timeout : LlmError
  invalid_config : Text → LlmError
  unsupported : String → Text → LlmError
  other : Text → LlmError

pub data LlmResult (A : Type 0) : Type 0 where
  ok : A → LlmResult A
  err : LlmError → LlmResult A

abbrev pub is_retryable : LlmError → Bool
is_retryable (rate_limited retry_after) = true
is_retryable (server_transient status) = true
is_retryable (transport e) = true
is_retryable timeout = true
is_retryable (stream_interrupted e) = true
is_retryable _ = false

abbrev pub retry_after : LlmError → Option ℕ
retry_after (rate_limited d) = d
retry_after _ = none
