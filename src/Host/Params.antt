-- ===== src/Host/Params.antt =====
-- The parameters of crates/snaca-channel-protocol/src/methods.rs that plugins send, and the events of
-- crates/snaca-channel-host/src/inbound.rs. `serde_json` is the parameter `Wire`; of the parameters that
-- the host only passes on, `auth` is a field and the rest a JSON object.
use snaca.Base.{String, Bool, Option}
use snaca.Engine.Approval.{WireDecision}

pub record ApprovalCallbackParams : Type 0 where
  pub auth : String
  pub callback_token : String
  pub decision : WireDecision
  pub user_id : String
  pub decided_at : String

-- The answers are a JSON array.
pub record QuestionCallbackParams (V : Type 0) : Type 0 where
  pub auth : String
  pub callback_token : String
  pub answers : V
  pub user_id : String
  pub decided_at : String

pub record ToolAdvertiseParams (V : Type 0) : Type 0 where
  pub auth : String
  pub name : String
  pub description : String
  pub input_schema : V
  pub is_read_only : Bool

pub record CommandAdvertiseParams : Type 0 where
  pub auth : String
  pub name : String
  pub description : String
  pub argument_hint : Option String

pub record PassedOn (V : Type 0) : Type 0 where
  pub auth : String
  pub rest : V

-- `InboundEvent`, less the name of the plugin.
pub data InboundEvent (V : Type 0) : Type 0 where
  message_received message_recalled log : PassedOn V → InboundEvent V
  approval_callback : ApprovalCallbackParams → InboundEvent V
  question_callback : QuestionCallbackParams V → InboundEvent V
  plugin_error : String → String → Option V → InboundEvent V
  unknown : String → Option V → InboundEvent V

-- `from_value` at each type, `get(key)` and `as_str`.
pub record Wire : Type 1 where
  pub Value : Type 0
  pub null : Value
  pub empty_object : Value
  pub get : Value → String → Option Value
  pub as_str : Value → Option String
  pub approval_params : Value → Option ApprovalCallbackParams
  pub question_params : Value → Option (QuestionCallbackParams Value)
  pub tool_params : Value → Option (ToolAdvertiseParams Value)
  pub command_params : Value → Option CommandAdvertiseParams
  pub received_params : Value → Option (PassedOn Value)
  pub recalled_params : Value → Option (PassedOn Value)
  pub log_params : Value → Option (PassedOn Value)
