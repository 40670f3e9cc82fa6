-- ===== src/Engine/Pairing/Heads.antt =====
-- The ids that a history emits and answers, and one message in front of a history, for
-- `ensure_tool_result_pairing` of crates/snaca-engine/src/engine.rs.
use snaca.Base.{
  String, Bool, true, false, List, [], ◌∷◌, ◌++◌, ◌≡◌, sym, ◌∙◌, subst, ◌||◌, arith, contains,
  contains-append, Fresh, Fresh-mono, Fresh-append, Bool-cases, inl, inr, if◌then◌else◌,
}
use snaca.Core.Content.{ContentBlock, Message, tool_result_ids, is_tool}
use snaca.Engine.Pairing.{assistant_tool_uses, missing_ids, kept_message, filter_tool_result_blocks}
use snaca.Engine.Pairing.Filter.{filter-Fresh, filter-answered}

-- The missing ids are fresh for a set that the uses and the ids answered here rule out.
pub missing_ids-Fresh :
    (s t uses here : List String)
    → ((k : String) → contains t k ≡ true → (contains s k || contains here k) ≡ true)
    → Fresh s uses
    → Fresh t (missing_ids uses here)
missing_ids-Fresh s t [] here h f = tt
missing_ids-Fresh s t (id ∷ uses) here h f = elim (Bool-cases (contains here id)) [
  | inl old ↦ rw old (missing_ids-Fresh (id ∷ s) t uses here (λ k e. ground (arith, h k)) f.1)
  | inr new ↦
      rw new
        (absent new, missing_ids-Fresh (id ∷ s) (id ∷ t) uses here (λ k e. ground (arith, h k)) f.1)
]
  where
    absent : contains here id ≡ false → contains t id ≡ false
    absent new = ground (arith, h id)

module _ {V : Type 0} where
  -- The ids that the tool messages of a history answer, in order.
  abbrev pub answered_ids : List (Message V) → List String
  answered_ids [] = []
  answered_ids (m ∷ out) =
      (if is_tool m.role then tool_result_ids m.content else []) ++ answered_ids out

  -- The ids that the assistant messages of a history emit, in order.
  abbrev pub emitted_ids : List (Message V) → List String
  emitted_ids [] = []
  emitted_ids (m ∷ out) = assistant_tool_uses m ++ emitted_ids out

  pub tool_head-Fresh :
      (answered : List String) (m : Message V) (out : List (Message V))
      → is_tool m.role ≡ true
      → Fresh answered (tool_result_ids m.content)
      → Fresh (tool_result_ids m.content ++ answered) (answered_ids out)
      → Fresh answered (answered_ids (m ∷ out))
  tool_head-Fresh answered m out t f g =
      subst
        (λ (b : Bool).
          Fresh answered ((if b then tool_result_ids m.content else []) ++ answered_ids out))
        (sym t) (Fresh-append answered (tool_result_ids m.content) (answered_ids out) f g)

  pub other_head-Fresh :
      (answered : List String) (m : Message V) (out : List (Message V))
      → is_tool m.role ≡ false
      → Fresh answered (answered_ids out)
      → Fresh answered (answered_ids (m ∷ out))
  other_head-Fresh answered m out t f =
      subst
        (λ (b : Bool).
          Fresh answered ((if b then tool_result_ids m.content else []) ++ answered_ids out))
        (sym t) f

  -- The answered set after the filter, as a list of ids.
  pub filter-answered_append :
      (content : List (ContentBlock V)) (seen answered : List String) (k : String)
      → let f = filter_tool_result_blocks content seen answered in
        contains (tool_result_ids f.0 ++ answered) k ≡ contains f.1 k
  filter-answered_append content seen answered k =
      contains-append (tool_result_ids (filter_tool_result_blocks content seen answered).0) answered
        k
      ∙ sym (filter-answered content seen answered k)

  pub kept_message-Fresh :
      (attached : Bool) (seen answered : List String) (msg : Message V) (out : List (Message V))
      → is_tool msg.role ≡ true
      → let f = filter_tool_result_blocks msg.content seen answered in
        Fresh (if attached then f.1 else answered) (answered_ids out)
        → Fresh answered (answered_ids ((if attached then kept_message msg f.0 else []) ++ out))
  kept_message-Fresh false seen answered msg out t h = h
  kept_message-Fresh true seen answered msg out t h =
      go (filter_tool_result_blocks msg.content seen answered).0
        (filter-Fresh msg.content seen answered)
        (Fresh-mono (filter_tool_result_blocks msg.content seen answered).1
          (tool_result_ids (filter_tool_result_blocks msg.content seen answered).0 ++ answered)
          (answered_ids out) (λ k e. sym (filter-answered_append msg.content seen answered k) ∙ e)
          h)
    where
      go :
          (content : List (ContentBlock V))
          → Fresh answered (tool_result_ids content)
          → Fresh (tool_result_ids content ++ answered) (answered_ids out)
          → Fresh answered (answered_ids (kept_message msg content ++ out))
      go [] f g = g
      go (b ∷ content) f g =
          tool_head-Fresh answered (record msg { content = b ∷ content }) out t f g
