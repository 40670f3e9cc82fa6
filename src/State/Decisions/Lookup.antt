-- ===== src/State/Decisions/Lookup.antt =====
-- What a remembered decision changes for later lookups (crates/snaca-state/src/db.rs).
use snaca.Base.{
  ℕ, String, Bool, true, false, not, Option, none, some, List, [], ◌∷◌, ◌≡◌, refl, sym, ◌∙◌, str_eq,
  eq_iff, if◌then◌else◌, arith, Bool-cases, inl, inr,
}
use snaca.State.Decisions.{
  PersistedDecision, StoredApprovalDecision, Scope, has_key, stored, fetch, or_else, find_decision,
  upsert, remember_decision,
}

abbrev pub decision_of : Option StoredApprovalDecision → Option PersistedDecision
decision_of none = none
decision_of (some row) = some row.decision

abbrev pub same_key : Scope → String → Scope → String → Bool
same_key k signature k' signature' =
    has_key k' signature' (stored 0 k signature PersistedDecision.allow)

fetch-cons :
    (k : Scope) (signature : String) (row : StoredApprovalDecision)
    (table : List StoredApprovalDecision)
    → decision_of (fetch k signature (row ∷ table)) ≡ (
        if has_key k signature row
        then some row.decision
        else decision_of (fetch k signature table))
unfolding fetch
fetch-cons k signature row table = elim (Bool-cases (has_key k signature row)) [
  | inl same ↦ rw same refl
  | inr other ↦ rw other refl
]

-- A row under one key is under another one exactly when the keys are the same.
has_key-same :
    (k : Scope) (signature : String) (k' : Scope) (signature' : String)
    (row : StoredApprovalDecision)
    → has_key k signature row ≡ true
    → has_key k' signature' row ≡ same_key k signature k' signature'
has_key-same k signature k' signature' row h =
    let t : row.tenant_id ≡ k.tenant = ground (arith, h, eq_iff row.tenant_id k.tenant) in
    let p : row.project_id ≡ k.project = ground (arith, h, eq_iff row.project_id k.project) in
    let n : row.tool_name ≡ k.tool_name = ground (arith, h, eq_iff row.tool_name k.tool_name) in
    let s : row.input_signature ≡ signature =
      ground (arith, h, eq_iff row.input_signature signature) in
    rw (t, p, n, s) refl

replaced :
    {A : Type 0} (b : Bool) (x y z : A)
    → (if b then x else z) ≡ (if b then x else (if b then y else z))
replaced true x y z = refl
replaced false x y z = refl

behind :
    {A : Type 0} (front same : Bool) (x y z : A)
    → (front ≡ true → same ≡ false)
    → (if front then y else (if same then x else z))
      ≡ (if same then x else (if front then y else z))
behind true same x y z h = rw (h refl) refl
behind false same x y z h = refl

has_key-row :
    (k : Scope) (signature : String) (k' : Scope) (signature' : String)
    (row : StoredApprovalDecision)
    → row.tenant_id ≡ k'.tenant
    → row.project_id ≡ k'.project
    → row.tool_name ≡ k'.tool_name
    → row.input_signature ≡ signature'
    → same_key k signature k' signature' ≡ true
    → has_key k signature row ≡ true
has_key-row k signature k' signature' row t p n s same = ground (
  arith,
  t,
  p,
  n,
  s,
  same,
  eq_iff k.tenant k'.tenant,
  eq_iff k.project k'.project,
  eq_iff k.tool_name k'.tool_name,
  eq_iff signature signature',
  eq_iff row.tenant_id k.tenant,
  eq_iff row.project_id k.project,
  eq_iff row.tool_name k.tool_name,
  eq_iff row.input_signature signature,
)

has_key-other :
    (k : Scope) (signature : String) (k' : Scope) (signature' : String)
    (row : StoredApprovalDecision)
    → has_key k signature row ≡ false
    → has_key k' signature' row ≡ true
    → same_key k signature k' signature' ≡ false
has_key-other k signature k' signature' row h h' =
    let t : row.tenant_id ≡ k'.tenant = ground (arith, h', eq_iff row.tenant_id k'.tenant) in
    let p : row.project_id ≡ k'.project = ground (arith, h', eq_iff row.project_id k'.project) in
    let n : row.tool_name ≡ k'.tool_name = ground (arith, h', eq_iff row.tool_name k'.tool_name) in
    let s : row.input_signature ≡ signature' =
      ground (arith, h', eq_iff row.input_signature signature') in
    elim (Bool-cases (same_key k signature k' signature')) [
      | inr other ↦ other
      | inl same ↦ same ∙ sym (has_key-row k signature k' signature' row t p n s same) ∙ h
    ]

fetch-upsert :
    (now : ℕ) (k : Scope) (signature : String) (d : PersistedDecision) (k' : Scope)
    (signature' : String) (table : List StoredApprovalDecision)
    → decision_of (fetch k' signature' (upsert now k signature d table)) ≡ (
        if same_key k signature k' signature'
        then some d
        else decision_of (fetch k' signature' table))
unfolding upsert
fetch-upsert now k signature d k' signature' [] =
    fetch-cons k' signature' (stored now k signature d) []
fetch-upsert now k signature d k' signature' (row ∷ table) =
    let after : StoredApprovalDecision = record row { decision = d; decided_at = now } in
    let kept = decision_of (fetch k' signature' table) in
    elim (Bool-cases (has_key k signature row)) [
      | inl same ↦
          rw
            (
              same,
              fetch-cons k' signature' after table,
              fetch-cons k' signature' row table,
              has_key-same k signature k' signature' row same,
            )
            (replaced (same_key k signature k' signature') (some d) (some row.decision) kept)
      | inr other ↦
          rw
            (
              other,
              fetch-cons k' signature' row (upsert now k signature d table),
              fetch-cons k' signature' row table,
              fetch-upsert now k signature d k' signature' table,
            )
            (behind (has_key k' signature' row) (same_key k signature k' signature') (some d)
              (some row.decision) kept (has_key-other k signature k' signature' row other))
    ]

or_else-decision :
    (a b : Option StoredApprovalDecision)
    → decision_of (or_else a b) ≡ or_else (decision_of a) (decision_of b)
or_else-decision none b = refl
or_else-decision (some row) b = refl

find_decision-decision :
    (k : Scope) (signature : String) (table : List StoredApprovalDecision)
    → decision_of (find_decision k signature table) ≡ (
        if not (str_eq signature "")
        then or_else (decision_of (fetch k signature table)) (decision_of (fetch k "" table))
        else decision_of (fetch k "" table))
unfolding find_decision
find_decision-decision k signature table = elim (Bool-cases (str_eq signature "")) [
  | inl all ↦ rw all refl
  | inr one ↦ rw one (or_else-decision (fetch k signature table) (fetch k "" table))
]

-- The catch-all of the key is another key, and so is the key itself when it is the catch-all.
merge :
    (all same same_all : Bool) (d : PersistedDecision) (exact catch_all : Option PersistedDecision)
    → same_all ≡ false
    → (all ≡ true → same ≡ false)
    → (if not all
        then or_else (if same then some d else exact) (if same_all then some d else catch_all)
        else (if same_all then some d else catch_all))
      ≡ (if same then some d else (if not all then or_else exact catch_all else catch_all))
merge false true same_all d exact catch_all h k = refl
merge false false same_all d exact catch_all h k = rw h refl
merge true same same_all d exact catch_all h k = rw (h, k refl) refl

pub remember_decision-find :
    (now : ℕ) (k : Scope) (signature : String) (d : PersistedDecision) (k' : Scope)
    (signature' : String) (table : List StoredApprovalDecision)
    → str_eq signature "" ≡ false
    → decision_of (find_decision k' signature' (remember_decision now k signature d table).1) ≡ (
        if same_key k signature k' signature'
        then some d
        else decision_of (find_decision k' signature' table))
unfolding remember_decision
remember_decision-find now k signature d k' signature' table h =
    rw
      (
        find_decision-decision k' signature' (upsert now k signature d table),
        find_decision-decision k' signature' table,
        fetch-upsert now k signature d k' signature' table,
        fetch-upsert now k signature d k' "" table,
      )
      (merge (str_eq signature' "") (same_key k signature k' signature')
        (same_key k signature k' "") d (decision_of (fetch k' signature' table))
        (decision_of (fetch k' "" table)) (ground (arith, h))
        (λ e.
          ground
            (arith, h, e, eq_iff signature' "", eq_iff signature signature', eq_iff signature "")))
