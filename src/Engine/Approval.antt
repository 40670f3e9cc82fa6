-- ===== src/Engine/Approval.antt =====
-- The gate in front of a tool call: `gate_check` of crates/snaca-engine/src/engine.rs, the decisions of
-- crates/snaca-agent-api/src/approval.rs and their mapping in crates/snaca-server/src/gate.rs. The
-- database succeeds, and `input_signature` is an argument. `rejected` is `ApprovalDecision::Deny`.
pub mod Authorised
use snaca.Base.{ℕ, String, Bool, true, false, Option, none, some, List}
use snaca.Server.Channel.{ChannelError}
use snaca.State.Decisions.{
  PersistedDecision, allow, deny, StoredApprovalDecision, Scope, find_decision, remember_decision,
}

pub data ApprovalRequirement : Type 0 where
  never always unless_remembered : ApprovalRequirement

pub data ApprovalDecision : Type 0 where
  allow_once allow_always rejected : ApprovalDecision

pub data ApprovalError : Type 0 where
  timeout cancelled : ApprovalError
  other : String → ApprovalError

pub data GateResult : Type 0 where
  ok : ApprovalDecision → GateResult
  err : ApprovalError → GateResult

abbrev pub is_allow : ApprovalDecision → Bool
is_allow rejected = false
is_allow _ = true

pub record ApprovalRequest (V : Type 0) : Type 0 where
  pub tenant_id : String
  pub project_id : String
  pub tool_name : String
  pub tool_input : V
  pub reason : String

-- What the engine asks a tool and its context.
pub record Tool : Type 0 where
  pub name : String
  pub description : String
  pub approval_requirement : ApprovalRequirement

pub record ToolContext : Type 0 where
  pub tenant_id : String
  pub project_id : String

-- The message of `ToolError::PermissionDenied`, which names the tool.
pub data Denial : Type 0 where
  project_policy user_denied : String → Denial

-- `EngineResult<Option<ToolError>>`.
pub data Checked : Type 0 where
  allowed : Checked
  denied : Denial → Checked
  failed : ApprovalError → Checked

abbrev pub scope_of : Tool → ToolContext → Scope
scope_of tool ctx = record {
  tenant = ctx.tenant_id;
  project = ctx.project_id;
  tool_name = tool.name;
}

abbrev pub by_policy : Tool → PersistedDecision → Checked
by_policy tool allow = allowed
by_policy tool deny = denied (project_policy tool.name)

module _ {V : Type 0} (input_signature : V → String) where
  abbrev pub request_of : Tool → V → ToolContext → ApprovalRequest V
  request_of tool input ctx = record {
    tenant_id = ctx.tenant_id;
    project_id = ctx.project_id;
    tool_name = tool.name;
    tool_input = input;
    reason = tool.description;
  }

  -- The final `match`.
  abbrev pub on_decision :
      ℕ
      → Tool
      → V
      → ToolContext
      → GateResult
      → List StoredApprovalDecision
      → Checked × List StoredApprovalDecision
  on_decision now tool input ctx (err e) db = (failed e, db)
  on_decision now tool input ctx (ok allow_once) db = (allowed, db)
  on_decision now tool input ctx (ok allow_always) db =
      (allowed, (remember_decision now (scope_of tool ctx) (input_signature input) allow db).1)
  on_decision now tool input ctx (ok rejected) db = (denied (user_denied tool.name), db)

  abbrev pub ask :
      ℕ
      → Tool
      → V
      → ToolContext
      → (ApprovalRequest V → GateResult)
      → List StoredApprovalDecision
      → Checked × List StoredApprovalDecision
  ask now tool input ctx gate db =
      on_decision now tool input ctx (gate (request_of tool input ctx)) db

  -- A remembered decision is honoured, and without one the gate is asked.
  abbrev pub unless_found :
      ℕ
      → Tool
      → V
      → ToolContext
      → (ApprovalRequest V → GateResult)
      → Option StoredApprovalDecision
      → List StoredApprovalDecision
      → Checked × List StoredApprovalDecision
  unless_found now tool input ctx gate (some row) db = (by_policy tool row.decision, db)
  unless_found now tool input ctx gate none db = ask now tool input ctx gate db

  abbrev pub by_requirement :
      ApprovalRequirement
      → ℕ
      → Tool
      → V
      → ToolContext
      → (ApprovalRequest V → GateResult)
      → List StoredApprovalDecision
      → Checked × List StoredApprovalDecision
  by_requirement never now tool input ctx gate db = (allowed, db)
  by_requirement always now tool input ctx gate db = ask now tool input ctx gate db
  by_requirement unless_remembered now tool input ctx gate db =
      unless_found now tool input ctx gate
        (find_decision (scope_of tool ctx) (input_signature input) db) db

  unfoldable pub gate_check :
      ℕ
      → Tool
      → V
      → ToolContext
      → (ApprovalRequest V → GateResult)
      → List StoredApprovalDecision
      → Checked × List StoredApprovalDecision
  gate_check now tool input ctx gate db =
      by_requirement tool.approval_requirement now tool input ctx gate db

-- The plugin's answer to an approval card.
pub data WireDecision : Type 0 where
  wire_allow wire_deny wire_allow_once wire_allow_always : WireDecision

unfoldable pub translate : WireDecision → ApprovalDecision
translate wire_allow = allow_once
translate wire_allow_once = allow_once
translate wire_allow_always = allow_always
translate wire_deny = rejected

unfoldable pub map_channel_error : (ChannelError → String) → ChannelError → ApprovalError
map_channel_error display ChannelError.timeout = timeout
map_channel_error display ChannelError.disconnected = cancelled
map_channel_error display ChannelError.send_closed = cancelled
map_channel_error display e = other (display e)
