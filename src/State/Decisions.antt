-- ===== src/State/Decisions.antt =====
-- crates/snaca-state/src/models.rs and db.rs: the table `approval_decisions`. Its key is the tenant, the
-- project, the tool and the input's signature; the empty signature is the catch-all of a tool.
pub mod Lookup
use snaca.Base.{
  ℕ, String, Bool, true, false, not, ◌&&◌, Option, none, some, List, [], ◌∷◌, ◌++◌, any, select,
  str_eq, if◌then◌else◌,
}

pub data PersistedDecision : Type 0 where
  allow deny : PersistedDecision

pub record StoredApprovalDecision : Type 0 where
  pub tenant_id : String
  pub project_id : String
  pub tool_name : String
  pub input_signature : String
  pub decision : PersistedDecision
  pub decided_at : ℕ

-- The rule of a tool in a project, without the signature.
pub record Scope : Type 0 where
  pub tenant : String
  pub project : String
  pub tool_name : String

abbrev pub in_scope : Scope → StoredApprovalDecision → Bool
in_scope k row =
    str_eq row.tenant_id k.tenant
    && (str_eq row.project_id k.project && str_eq row.tool_name k.tool_name)

abbrev pub has_key : Scope → String → StoredApprovalDecision → Bool
has_key k signature row = in_scope k row && str_eq row.input_signature signature

-- `fetch_optional` on one key.
unfoldable pub fetch : Scope → String → List StoredApprovalDecision → Option StoredApprovalDecision
fetch k signature [] = none
fetch k signature (row ∷ table) =
    let rest = fetch k signature table in if has_key k signature row then some row else rest

abbrev pub or_else : {A : Type 0} → Option A → Option A → Option A
or_else (some a) other = some a
or_else none other = other

unfoldable pub find_decision :
    Scope → String → List StoredApprovalDecision → Option StoredApprovalDecision
unfolding fetch
find_decision k input_signature table =
    if not (str_eq input_signature "")
    then or_else (fetch k input_signature table) (fetch k "" table)
    else fetch k "" table

abbrev pub stored : ℕ → Scope → String → PersistedDecision → StoredApprovalDecision
stored now k input_signature decision = record {
  tenant_id = k.tenant;
  project_id = k.project;
  tool_name = k.tool_name;
  input_signature = input_signature;
  decision = decision;
  decided_at = now;
}

-- `INSERT … ON CONFLICT … DO UPDATE`.
unfoldable pub upsert :
    ℕ
    → Scope
    → String
    → PersistedDecision
    → List StoredApprovalDecision
    → List StoredApprovalDecision
upsert now k input_signature decision [] = stored now k input_signature decision ∷ []
upsert now k input_signature decision (row ∷ table) =
    let rest = upsert now k input_signature decision table in
    if has_key k input_signature row
    then record row { decision = decision; decided_at = now } ∷ table
    else row ∷ rest

unfoldable pub remember_decision :
    ℕ
    → Scope
    → String
    → PersistedDecision
    → List StoredApprovalDecision
    → StoredApprovalDecision × List StoredApprovalDecision
unfolding upsert
remember_decision now k input_signature decision table =
    (stored now k input_signature decision, upsert now k input_signature decision table)

unfoldable pub forget_decision :
    Scope → String → List StoredApprovalDecision → List StoredApprovalDecision
forget_decision k input_signature = select (λ row. not (has_key k input_signature row))

unfoldable pub forget_decisions_for_tool :
    Scope → List StoredApprovalDecision → List StoredApprovalDecision
forget_decisions_for_tool k = select (λ row. not (in_scope k row))
