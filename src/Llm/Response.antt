-- ===== src/Llm/Response.antt =====
-- crates/snaca-llm/src/response.rs.
use snaca.Base.{String}
use snaca.Core.Content.{Message}
use snaca.Core.Usage.{Usage}

pub data StopReason : Type 0 where
  end_turn max_tokens tool_use stop_sequence : StopReason
  other : String → StopReason

pub record MessageResponse (V : Type 0) : Type 0 where
  pub id : String
  pub message : Message V
  pub usage : Usage
  pub stop_reason : StopReason
