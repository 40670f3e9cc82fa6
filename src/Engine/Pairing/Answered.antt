-- ===== src/Engine/Pairing/Answered.antt =====
-- `ensure_tool_result_pairing` of crates/snaca-engine/src/engine.rs: every tool use is answered in
-- the next message, and tool messages stand only there.
use snaca.Base.{
  ℕ, String, Bool, true, false, Option, none, some, List, [], ◌∷◌, ◌++◌, ◌≡◌, refl, sym, ap, ◌∙◌,
  subst, arith, AllIn, Bool-cases, inl, inr, append-nil, if◌then◌else◌,
}
use snaca.Core.Content.{ContentBlock, Message, tool, tool_result_ids, is_tool}
use snaca.Engine.Pairing.{
  Ids, push_turn, answer_turn, assistant_tool_uses, peeked_tool, missing_ids, turn, last_pushed,
  pair_from, ensure_tool_result_pairing, kept_message, filter_tool_result_blocks,
  synthetic_tool_errors, last_was_assistant_with_tool_use,
}
use snaca.Engine.Pairing.Filter.{
  missing_ids-AllIn, tool_result_ids-append, tool_result_ids-synthetic,
}

module _ {V : Type 0} where
  -- The next message is a tool message that holds a result for each id.
  abbrev pub AnswersNext : List String → List (Message V) → Type 0
  AnswersNext [] out = Unit
  AnswersNext (id ∷ ids) [] = ⊥
  AnswersNext (id ∷ ids) (next ∷ out) =
      (is_tool next.role ≡ true) × AllIn (tool_result_ids next.content) (id ∷ ids)

  -- Each assistant message's tool uses are answered by the message that follows it.
  abbrev pub IsAnswered : List (Message V) → Type 0
  IsAnswered [] = Unit
  IsAnswered (m ∷ out) = AnswersNext (assistant_tool_uses m) out × IsAnswered out

  pub no_uses_of_tool : (m : Message V) → is_tool m.role ≡ true → assistant_tool_uses m ≡ []
  no_uses_of_tool m h = ground arith

  tool_head-IsAnswered :
      (m : Message V) (out : List (Message V))
      → is_tool m.role ≡ true
      → IsAnswered out
      → IsAnswered (m ∷ out)
  tool_head-IsAnswered m out t h =
      (subst (λ u. AnswersNext u out) (sym (no_uses_of_tool m t)) tt, h)

  kept_message-IsAnswered :
      (attached : Bool) (msg : Message V) (content : List (ContentBlock V)) (out : List (Message V))
      → is_tool msg.role ≡ true
      → IsAnswered out
      → IsAnswered ((if attached then kept_message msg content else []) ++ out)
  kept_message-IsAnswered false msg content out t h = h
  kept_message-IsAnswered true msg [] out t h = h
  kept_message-IsAnswered true msg (b ∷ content) out t h =
      tool_head-IsAnswered (record msg { content = b ∷ content }) out t h

  abbrev pub IsToolNext : Option (Message V) → Type 0
  IsToolNext none = Unit
  IsToolNext (some m) = is_tool m.role ≡ true

  pub peeked_tool_role : (next : Option (Message V)) → IsToolNext (peeked_tool next)
  peeked_tool_role none = tt
  peeked_tool_role (some m) = elim (Bool-cases (is_tool m.role)) [
    | inl t ↦ subst IsToolNext (took m t) t
    | inr f ↦ subst IsToolNext (left m f) tt
  ]
    where
      took : (m : Message V) → is_tool m.role ≡ true → some m ≡ peeked_tool (some m)
      took m t = ground arith

      left : (m : Message V) → is_tool m.role ≡ false → none ≡ peeked_tool (some m)
      left m t = ground arith

  -- The kept results with the synthetic errors answer every use.
  answers_all :
      (uses : List String) (here : List (ContentBlock V))
      → AllIn
          (tool_result_ids
            (here ++ synthetic_tool_errors (missing_ids uses (tool_result_ids here))))
          uses
  answers_all uses here =
      let m : List String = missing_ids uses (tool_result_ids here) in
      subst (λ x. AllIn x uses)
        (sym (
          tool_result_ids-append here (synthetic_tool_errors m)
          ∙ ap (λ x. tool_result_ids here ++ x) (tool_result_ids-synthetic V m)))
        (missing_ids-AllIn uses (tool_result_ids here))

module _ {V : Type 0} (new_id : ℕ → String) (now : ℕ → ℕ) where
  push_turn-IsAnswered :
      (uses : List String) (ids : Ids) (msg : Message V) (next : Option (Message V))
      (out : List (Message V))
      → assistant_tool_uses msg ≡ uses
      → IsAnswered out
      → IsAnswered ((push_turn new_id now uses ids msg next).pushed ++ out)
  push_turn-IsAnswered [] ids msg next out e h = (subst (λ u. AnswersNext u out) (sym e) tt, h)
  push_turn-IsAnswered (id ∷ uses) ids msg next out e h =
      answer (record ids { seen = (id ∷ uses) ++ ids.seen }) (peeked_tool next)
        (peeked_tool_role next)
    where
      -- The next message answers the uses of `msg`.
      answered_by :
          (m : Message V)
          → is_tool m.role ≡ true
          → AllIn (tool_result_ids m.content) (id ∷ uses)
          → IsAnswered (msg ∷ m ∷ out)
      answered_by m t a =
          (subst (λ u. AnswersNext u (m ∷ out)) (sym e) (t, a), tool_head-IsAnswered m out t h)

      answer :
          (ids : Ids) (next : Option (Message V))
          → IsToolNext next
          → IsAnswered ((answer_turn new_id now (id ∷ uses) ids msg next).pushed ++ out)
      answer ids none t =
          answered_by
            (record {
              id = new_id ids.minted;
              role = tool;
              content = synthetic_tool_errors (missing_ids (id ∷ uses) []);
              created_at = now ids.minted;
            })
            refl (answers_all (id ∷ uses) [])
      answer ids (some m) t =
          let f = filter_tool_result_blocks m.content ids.seen ids.answered in
          let missing = missing_ids (id ∷ uses) (tool_result_ids f.0) in
          answered_by (record m { content = f.0 ++ synthetic_tool_errors missing }) t
            (answers_all (id ∷ uses) f.0)

  turn-IsAnswered :
      (last : Option (Message V)) (ids : Ids) (msg : Message V) (next : Option (Message V))
      (out : List (Message V))
      → IsAnswered out
      → IsAnswered ((turn new_id now last ids msg next).pushed ++ out)
  unfolding turn
  turn-IsAnswered last ids msg next out h = elim (Bool-cases (is_tool msg.role)) [
    | inl t ↦ rw t (
        kept_message-IsAnswered (last_was_assistant_with_tool_use last) msg
          (filter_tool_result_blocks msg.content ids.seen ids.answered).0 out t h)
    | inr f ↦ rw f (push_turn-IsAnswered (assistant_tool_uses msg) ids msg next out refl h)
  ]

  elim-IsAnswered :
      (b : Bool) (xs ys : List (Message V))
      → IsAnswered xs
      → IsAnswered ys
      → IsAnswered (elim b [ true ↦ xs | false ↦ ys ])
  elim-IsAnswered true xs ys h k = h
  elim-IsAnswered false xs ys h k = k

  pair_from-IsAnswered :
      (last : Option (Message V)) (ids : Ids) (messages : List (Message V))
      → IsAnswered (pair_from new_id now last ids messages)
  unfolding pair_from
  pair_from-IsAnswered last ids [] = tt
  pair_from-IsAnswered last ids (msg ∷ []) =
      subst IsAnswered (append-nil (turn new_id now last ids msg none).pushed)
        (turn-IsAnswered last ids msg none [] tt)
  pair_from-IsAnswered last ids (msg ∷ next ∷ rest) =
      let t = turn new_id now last ids msg (some next) in
      let last' = last_pushed last t.pushed in
      turn-IsAnswered last ids msg (some next)
        (elim t.took_next [
          | true ↦ pair_from new_id now last' t.ids rest
          | false ↦ pair_from new_id now last' t.ids (next ∷ rest)
        ])
        (elim-IsAnswered t.took_next (pair_from new_id now last' t.ids rest)
          (pair_from new_id now last' t.ids (next ∷ rest)) (pair_from-IsAnswered last' t.ids rest)
          (pair_from-IsAnswered last' t.ids (next ∷ rest)))

  -- For every history, each assistant message of the result that holds tool uses is followed
  -- by a tool message that holds a result for each of them.
  pub pairing-IsAnswered :
      (messages : List (Message V)) → IsAnswered (ensure_tool_result_pairing new_id now messages)
  unfolding ensure_tool_result_pairing
  pairing-IsAnswered messages =
      pair_from-IsAnswered none (record { seen = []; answered = []; minted = 0 }) messages
