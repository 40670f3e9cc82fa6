-- ===== src/Examples/Approvals.antt =====
-- A tool that asks unless it is remembered, and a user who allows a call for good
-- (crates/snaca-engine/src/engine.rs, crates/snaca-state/src/db.rs).
use snaca.Base.{String, none, List, [], ◌∷◌, ◌≡◌, refl}
use snaca.State.Decisions.{deny, StoredApprovalDecision, find_decision, stored}
use snaca.Engine.Approval.{
  unless_remembered, allow_always, rejected, GateResult, ok, ApprovalRequest, Tool, ToolContext,
  allowed, scope_of, gate_check,
}
use snaca.Engine.Approval.Authorised.{IsAuthorised, gate_check-IsAuthorised, gate_check-remembers}

abbrev bash : Tool
bash = record {
  name = "Bash";
  description = "run a command";
  approval_requirement = unless_remembered;
}

abbrev ctx : ToolContext
ctx = record { tenant_id = "t"; project_id = "p" }

abbrev signature : String → String
signature command = command

abbrev gate_always : ApprovalRequest String → GateResult
gate_always request = ok allow_always

abbrev gate_never : ApprovalRequest String → GateResult
gate_never request = ok rejected

abbrev rules : List StoredApprovalDecision
rules = stored 1 (record { tenant = "t"; project = "p"; tool_name = "Bash" }) "rm" deny ∷ []

nothing_remembered : find_decision (scope_of bash ctx) "ls" rules ≡ none
unfolding find_decision
nothing_remembered = refl

ls_allowed : (gate_check signature 5 bash "ls" ctx gate_always rules).0 ≡ allowed
unfolding gate_check find_decision
ls_allowed = refl

gate_check-IsAuthorised_example : IsAuthorised signature bash "ls" ctx gate_always rules
gate_check-IsAuthorised_example =
    gate_check-IsAuthorised signature 5 bash "ls" ctx gate_always rules ls_allowed

gate_check-remembers_example :
    gate_check signature 9 bash "ls" ctx gate_never
      (gate_check signature 5 bash "ls" ctx gate_always rules).1
    ≡ (allowed, (gate_check signature 5 bash "ls" ctx gate_always rules).1)
gate_check-remembers_example =
    gate_check-remembers signature 5 9 bash "ls" ctx gate_always gate_never rules refl refl
      nothing_remembered refl
