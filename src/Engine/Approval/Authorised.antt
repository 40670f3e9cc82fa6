-- ===== src/Engine/Approval/Authorised.antt =====
-- `gate_check` of crates/snaca-engine/src/engine.rs: what allows a call, and what a remembered decision
-- allows later.
use snaca.Base.{
  ℕ, String, true, false, Option, none, some, List, ◌≡◌, refl, ap, ◌∙◌, str_eq, eq_refl,
}
use snaca.State.Decisions.{
  PersistedDecision, allow, deny, StoredApprovalDecision, Scope, find_decision, remember_decision,
}
use snaca.State.Decisions.Lookup.{decision_of, remember_decision-find}
use snaca.Engine.Approval.{
  ApprovalRequirement, never, always, unless_remembered, ApprovalDecision, allow_once, allow_always,
  rejected, GateResult, ok, err, is_allow, ApprovalRequest, Tool, ToolContext, allowed, scope_of,
  by_policy, request_of, on_decision, ask, unless_found, by_requirement, gate_check,
}

module _ {V : Type 0} (input_signature : V → String) where
  -- Why a call may run.
  pub data IsAuthorised (tool : Tool) (input : V) (ctx : ToolContext)
      (gate : ApprovalRequest V → GateResult) (db : List StoredApprovalDecision) : Type 0 where
    is_free : tool.approval_requirement ≡ never → IsAuthorised tool input ctx gate db
    is_remembered :
        tool.approval_requirement ≡ unless_remembered
        → decision_of (find_decision (scope_of tool ctx) (input_signature input) db) ≡ some allow
        → IsAuthorised tool input ctx gate db
    is_approved :
        (d : ApprovalDecision)
        → gate (request_of input_signature tool input ctx) ≡ ok d
        → is_allow d ≡ true
        → IsAuthorised tool input ctx gate db

  on_decision-allowed :
      (now : ℕ) (tool : Tool) (input : V) (ctx : ToolContext)
      (gate : ApprovalRequest V → GateResult) (db : List StoredApprovalDecision) (res : GateResult)
      → gate (request_of input_signature tool input ctx) ≡ res
      → (on_decision input_signature now tool input ctx res db).0 ≡ allowed
      → IsAuthorised tool input ctx gate db
  on_decision-allowed now tool input ctx gate db (err e) h a = absurd (cc)
  on_decision-allowed now tool input ctx gate db (ok allow_once) h a = is_approved allow_once h refl
  on_decision-allowed now tool input ctx gate db (ok allow_always) h a =
      is_approved allow_always h refl
  on_decision-allowed now tool input ctx gate db (ok rejected) h a = absurd (cc)

  ask-allowed :
      (now : ℕ) (tool : Tool) (input : V) (ctx : ToolContext)
      (gate : ApprovalRequest V → GateResult) (db : List StoredApprovalDecision)
      → (ask input_signature now tool input ctx gate db).0 ≡ allowed
      → IsAuthorised tool input ctx gate db
  ask-allowed now tool input ctx gate db a =
      on_decision-allowed now tool input ctx gate db
        (gate (request_of input_signature tool input ctx)) refl a

  by_policy-allowed : (tool : Tool) (d : PersistedDecision) → by_policy tool d ≡ allowed → d ≡ allow
  by_policy-allowed tool allow a = refl
  by_policy-allowed tool deny a = absurd (cc)

  unless_found-allowed :
      (now : ℕ) (tool : Tool) (input : V) (ctx : ToolContext)
      (gate : ApprovalRequest V → GateResult) (db : List StoredApprovalDecision)
      (found : Option StoredApprovalDecision)
      → tool.approval_requirement ≡ unless_remembered
      → find_decision (scope_of tool ctx) (input_signature input) db ≡ found
      → (unless_found input_signature now tool input ctx gate found db).0 ≡ allowed
      → IsAuthorised tool input ctx gate db
  unless_found-allowed now tool input ctx gate db none r h a =
      ask-allowed now tool input ctx gate db a
  unless_found-allowed now tool input ctx gate db (some row) r h a =
      is_remembered r (ap decision_of h ∙ ap some (by_policy-allowed tool row.decision a))

  by_requirement-allowed :
      (r : ApprovalRequirement) (now : ℕ) (tool : Tool) (input : V) (ctx : ToolContext)
      (gate : ApprovalRequest V → GateResult) (db : List StoredApprovalDecision)
      → tool.approval_requirement ≡ r
      → (by_requirement input_signature r now tool input ctx gate db).0 ≡ allowed
      → IsAuthorised tool input ctx gate db
  by_requirement-allowed never now tool input ctx gate db h a = is_free h
  by_requirement-allowed always now tool input ctx gate db h a =
      ask-allowed now tool input ctx gate db a
  by_requirement-allowed unless_remembered now tool input ctx gate db h a =
      unless_found-allowed now tool input ctx gate db
        (find_decision (scope_of tool ctx) (input_signature input) db) h refl a

  -- A call that the check allows is of a tool that never needs approval, or is allowed by the decision
  -- remembered for it, or by the gate's answer to it.
  pub gate_check-IsAuthorised :
      (now : ℕ) (tool : Tool) (input : V) (ctx : ToolContext)
      (gate : ApprovalRequest V → GateResult) (db : List StoredApprovalDecision)
      → (gate_check input_signature now tool input ctx gate db).0 ≡ allowed
      → IsAuthorised tool input ctx gate db
  unfolding gate_check
  gate_check-IsAuthorised now tool input ctx gate db a =
      by_requirement-allowed tool.approval_requirement now tool input ctx gate db refl a

  honoured :
      (now : ℕ) (tool : Tool) (input : V) (ctx : ToolContext)
      (gate : ApprovalRequest V → GateResult) (db : List StoredApprovalDecision)
      (found : Option StoredApprovalDecision)
      → decision_of found ≡ some allow
      → unless_found input_signature now tool input ctx gate found db ≡ (allowed, db)
  honoured now tool input ctx gate db none h = absurd (cc)
  honoured now tool input ctx gate db (some row) h = ap (λ c. (c, db)) (policy row.decision (cc))
    where
      policy : (d : PersistedDecision) → d ≡ allow → by_policy tool d ≡ allowed
      policy allow e = refl
      policy deny e = absurd (cc)

  -- For a tool that asks unless it is remembered, and an input whose signature is not empty and for
  -- which nothing is remembered: after the gate answered the call with `AllowAlways`, the same call is
  -- allowed in the same tenant and project, whatever the gate would answer then.
  pub gate_check-remembers :
      (now later : ℕ) (tool : Tool) (input : V) (ctx : ToolContext)
      (gate gate' : ApprovalRequest V → GateResult) (db : List StoredApprovalDecision)
      → tool.approval_requirement ≡ unless_remembered
      → str_eq (input_signature input) "" ≡ false
      → find_decision (scope_of tool ctx) (input_signature input) db ≡ none
      → gate (request_of input_signature tool input ctx) ≡ ok allow_always
      → let db' : List StoredApprovalDecision =
          (gate_check input_signature now tool input ctx gate db).1 in
        gate_check input_signature later tool input ctx gate' db' ≡ (allowed, db')
  unfolding gate_check
  gate_check-remembers now later tool input ctx gate gate' db r s n g =
      let k : Scope = scope_of tool ctx in
      let sig : String = input_signature input in
      let db' : List StoredApprovalDecision = (remember_decision now k sig allow db).1 in
      let found : decision_of (find_decision k sig db') ≡ some allow =
        rw
          (
            remember_decision-find now k sig allow k sig db s,
            eq_refl ctx.tenant_id,
            eq_refl ctx.project_id,
            eq_refl tool.name,
            eq_refl sig,
          )
          refl in
      rw (r, n, g) (honoured later tool input ctx gate' db' (find_decision k sig db') found)
