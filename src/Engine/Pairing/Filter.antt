-- ===== src/Engine/Pairing/Filter.antt =====
-- `filter_tool_result_blocks` of crates/snaca-engine/src/engine.rs: what it keeps and records.
use snaca.Base.{
  String, true, false, List, [], ◌∷◌, ◌++◌, ◌≡◌, refl, ap, subst, ◌||◌, arith, contains,
  contains-append, AllIn, AllIn-mono, Fresh, Bool-cases, inl, inr, eq_refl,
}
use snaca.Core.Content.{ContentBlock, text, thinking, tool_use, tool_result, image, tool_result_ids}
use snaca.Engine.Pairing.{filter_tool_result_blocks, synthetic_tool_errors, missing_ids}

pub tool_result_ids-synthetic :
    (V : Type 0) (ids : List String) → tool_result_ids (synthetic_tool_errors {V = V} ids) ≡ ids
tool_result_ids-synthetic V [] = refl
tool_result_ids-synthetic V (id ∷ ids) = ap (λ s. id ∷ s) (tool_result_ids-synthetic V ids)

module _ {V : Type 0} where
  pub tool_result_ids-append :
      (xs ys : List (ContentBlock V))
      → tool_result_ids (xs ++ ys) ≡ tool_result_ids xs ++ tool_result_ids ys
  tool_result_ids-append [] ys = refl
  tool_result_ids-append (text t ∷ xs) ys = tool_result_ids-append xs ys
  tool_result_ids-append (thinking t s ∷ xs) ys = tool_result_ids-append xs ys
  tool_result_ids-append (tool_use i n v ∷ xs) ys = tool_result_ids-append xs ys
  tool_result_ids-append (tool_result i b e ∷ xs) ys =
      ap (λ s. i ∷ s) (tool_result_ids-append xs ys)
  tool_result_ids-append (image s ∷ xs) ys = tool_result_ids-append xs ys

  -- The results that stay answer uses that were seen.
  pub filter-AllIn :
      (content : List (ContentBlock V)) (seen answered : List String)
      → AllIn seen (tool_result_ids (filter_tool_result_blocks content seen answered).0)
  unfolding filter_tool_result_blocks
  filter-AllIn [] seen answered = tt
  filter-AllIn (text t ∷ content) seen answered = filter-AllIn content seen answered
  filter-AllIn (thinking t s ∷ content) seen answered = filter-AllIn content seen answered
  filter-AllIn (tool_use i n v ∷ content) seen answered = filter-AllIn content seen answered
  filter-AllIn (image s ∷ content) seen answered = filter-AllIn content seen answered
  filter-AllIn (tool_result i b e ∷ content) seen answered = elim (Bool-cases (contains seen i)) [
    | inl known ↦ elim (Bool-cases (contains answered i)) [
      | inl old ↦ rw (known, old) (filter-AllIn content seen answered)
      | inr new ↦ rw (known, new) (known, filter-AllIn content seen (i ∷ answered))
    ]
    | inr orphan ↦ rw orphan (filter-AllIn content seen answered)
  ]

  -- They are unanswered before, and no id comes twice.
  pub filter-Fresh :
      (content : List (ContentBlock V)) (seen answered : List String)
      → Fresh answered (tool_result_ids (filter_tool_result_blocks content seen answered).0)
  unfolding filter_tool_result_blocks
  filter-Fresh [] seen answered = tt
  filter-Fresh (text t ∷ content) seen answered = filter-Fresh content seen answered
  filter-Fresh (thinking t s ∷ content) seen answered = filter-Fresh content seen answered
  filter-Fresh (tool_use i n v ∷ content) seen answered = filter-Fresh content seen answered
  filter-Fresh (image s ∷ content) seen answered = filter-Fresh content seen answered
  filter-Fresh (tool_result i b e ∷ content) seen answered = elim (Bool-cases (contains seen i)) [
    | inl known ↦ elim (Bool-cases (contains answered i)) [
      | inl old ↦ rw (known, old) (filter-Fresh content seen answered)
      | inr new ↦ rw (known, new) (new, filter-Fresh content seen (i ∷ answered))
    ]
    | inr orphan ↦ rw orphan (filter-Fresh content seen answered)
  ]

  -- The answered set grows by exactly the ids that stay.
  pub filter-answered :
      (content : List (ContentBlock V)) (seen answered : List String) (k : String)
      → contains (filter_tool_result_blocks content seen answered).1 k ≡ (
          contains (tool_result_ids (filter_tool_result_blocks content seen answered).0) k
          || contains answered k)
  unfolding filter_tool_result_blocks
  filter-answered [] seen answered k = refl
  filter-answered (text t ∷ content) seen answered k = filter-answered content seen answered k
  filter-answered (thinking t s ∷ content) seen answered k = filter-answered content seen answered k
  filter-answered (tool_use i n v ∷ content) seen answered k =
      filter-answered content seen answered k
  filter-answered (image s ∷ content) seen answered k = filter-answered content seen answered k
  filter-answered (tool_result i b e ∷ content) seen answered k = ground (
    arith,
    filter-answered content seen answered k,
    filter-answered content seen (i ∷ answered) k,
  )

contains-keep :
    (xs ys : List String) (i k : String)
    → contains (xs ++ ys) k ≡ true
    → contains (xs ++ i ∷ ys) k ≡ true
contains-keep xs ys i k h = ground (arith, contains-append xs ys k, contains-append xs (i ∷ ys) k)

missing_ids_old :
    (id : String) (uses here : List String)
    → contains here id ≡ true
    → missing_ids uses here ≡ missing_ids (id ∷ uses) here
missing_ids_old id uses here h = ground arith

missing_ids_new :
    (id : String) (uses here : List String)
    → contains here id ≡ false
    → id ∷ missing_ids uses here ≡ missing_ids (id ∷ uses) here
missing_ids_new id uses here h = ground arith

-- Every id of `uses` is answered here or is in the missing ids.
pub missing_ids-AllIn : (uses here : List String) → AllIn (here ++ missing_ids uses here) uses
missing_ids-AllIn [] here = tt
missing_ids-AllIn (id ∷ uses) here =
    let m : List String = missing_ids uses here in
    let ih : AllIn (here ++ m) uses = missing_ids-AllIn uses here in
    elim (Bool-cases (contains here id)) [
      | inl old ↦
          subst (λ x. AllIn (here ++ x) (id ∷ uses)) (missing_ids_old id uses here old)
            (ground (arith, contains-append here (missing_ids uses here) id), ih)
      | inr new ↦
          subst (λ x. AllIn (here ++ x) (id ∷ uses)) (missing_ids_new id uses here new)
            (
              ground (arith, contains-append here (id ∷ missing_ids uses here) id, eq_refl id),
              AllIn-mono (here ++ m) (here ++ id ∷ m) uses (λ k. contains-keep here m id k) ih,
            )
    ]
