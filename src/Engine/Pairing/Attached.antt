-- ===== src/Engine/Pairing/Attached.antt =====
-- `ensure_tool_result_pairing` of crates/snaca-engine/src/engine.rs: where tool messages stand in the
-- result, and which uses they answer.
use snaca.Base.{
  ℕ, String, Bool, true, false, Option, none, some, List, [], ◌∷◌, ◌++◌, ◌≡◌, refl, sym, ap, ◌∙◌,
  subst, arith, contains, AllIn, AllIn-mono, All-append, Bool-cases, inl, inr, if◌then◌else◌,
  append-nil, eq_refl,
}
use snaca.Core.Content.{ContentBlock, Message, tool, tool_result_ids, is_tool}
use snaca.Engine.Pairing.{
  Ids, push_turn, answer_turn, assistant_tool_uses, peeked_tool, missing_ids, turn, last_pushed,
  pair_from, ensure_tool_result_pairing, kept_message, has_tool_use, filter_tool_result_blocks,
  synthetic_tool_errors, last_was_assistant_with_tool_use,
}
use snaca.Engine.Pairing.Filter.{tool_result_ids-append, tool_result_ids-synthetic, filter-AllIn}
use snaca.Engine.Pairing.Answered.{no_uses_of_tool, IsToolNext, peeked_tool_role}

-- The missing ids are uses, and uses come into the seen set.
pub missing_ids-AllIn_uses :
    (seen uses here : List String) → AllIn seen uses → AllIn seen (missing_ids uses here)
missing_ids-AllIn_uses seen [] here h = tt
missing_ids-AllIn_uses seen (id ∷ uses) here h = elim (Bool-cases (contains here id)) [
  | inl old ↦ rw old (missing_ids-AllIn_uses seen uses here h.1)
  | inr new ↦ rw new (h.0, missing_ids-AllIn_uses seen uses here h.1)
]

pub AllIn-self : (uses seen : List String) → AllIn (uses ++ seen) uses
AllIn-self [] seen = tt
AllIn-self (id ∷ uses) seen = (
  ground (arith, eq_refl id),
  AllIn-mono (uses ++ seen) (id ∷ uses ++ seen) uses (λ k h. ground arith) (AllIn-self uses seen),
)

module _ {V : Type 0} where
  -- Reading `out` with the ids in `seen` emitted before and `prev` the ids of the message just
  -- before: a tool message follows a message with tool uses, and answers only emitted ids.
  abbrev pub IsAttached : List String → List String → List (Message V) → Type 0
  IsAttached seen prev [] = Unit
  IsAttached seen prev (m ∷ out) =
      (is_tool m.role ≡ true → (has_tool_use prev ≡ true) × AllIn seen (tool_result_ids m.content))
      × IsAttached (assistant_tool_uses m ++ seen) (assistant_tool_uses m) out

  abbrev uses_of : Option (Message V) → List String
  uses_of none = []
  uses_of (some m) = assistant_tool_uses m

  has_tool_use-uses_of :
      (last : Option (Message V))
      → last_was_assistant_with_tool_use last ≡ has_tool_use (uses_of last)
  has_tool_use-uses_of none = refl
  has_tool_use-uses_of (some m) = ground arith

  -- One tool message in front.
  tool_head-IsAttached :
      (seen prev : List String) (m : Message V) (out : List (Message V))
      → is_tool m.role ≡ true
      → has_tool_use prev ≡ true
      → AllIn seen (tool_result_ids m.content)
      → IsAttached seen (assistant_tool_uses m) out
      → IsAttached seen prev (m ∷ out)
  tool_head-IsAttached seen prev m out t p a h = (
    λ _. (p, a),
    subst (λ u. IsAttached (u ++ seen) (assistant_tool_uses m) out) (sym (no_uses_of_tool m t)) h,
  )

  kept_message-IsAttached :
      (attached : Bool) (seen : List String) (last : Option (Message V)) (msg : Message V)
      (content : List (ContentBlock V)) (out : List (Message V))
      → last_was_assistant_with_tool_use last ≡ attached
      → is_tool msg.role ≡ true
      → AllIn seen (tool_result_ids content)
      → let pushed = (if attached then kept_message msg content else []) in
        IsAttached seen (uses_of (last_pushed last pushed)) out
        → IsAttached seen (uses_of last) (pushed ++ out)
  kept_message-IsAttached false seen last msg content out e t a h = h
  kept_message-IsAttached true seen last msg [] out e t a h = h
  kept_message-IsAttached true seen last msg (b ∷ content) out e t a h =
      tool_head-IsAttached seen (uses_of last) (record msg { content = b ∷ content }) out t
        (sym (has_tool_use-uses_of last) ∙ e) a h

  -- A message that is no tool message in front.
  other_head-IsAttached :
      (seen prev uses : List String) (m : Message V) (out : List (Message V))
      → is_tool m.role ≡ false
      → assistant_tool_uses m ≡ uses
      → IsAttached (uses ++ seen) uses out
      → IsAttached seen prev (m ∷ out)
  other_head-IsAttached seen prev uses m out f e h =
      (λ t. cc (f, t), subst (λ u. IsAttached (u ++ seen) u out) (sym e) h)

  -- The tool turn that the loop builds answers ids in the seen set.
  answers-AllIn :
      (seen uses : List String) (here : List (ContentBlock V))
      → AllIn seen uses
      → AllIn seen (tool_result_ids here)
      → AllIn seen (
          tool_result_ids (here ++ synthetic_tool_errors (missing_ids uses (tool_result_ids here))))
  answers-AllIn seen uses here u h =
      let m : List String = missing_ids uses (tool_result_ids here) in
      subst (AllIn seen)
        (sym (
          tool_result_ids-append here (synthetic_tool_errors m)
          ∙ ap (λ x. tool_result_ids here ++ x) (tool_result_ids-synthetic V m)))
        (All-append (λ k. contains seen k ≡ true) (tool_result_ids here) m h
          (missing_ids-AllIn_uses seen uses (tool_result_ids here) u))

module _ {V : Type 0} (new_id : ℕ → String) (now : ℕ → ℕ) where
  answer_turn-IsAttached :
      (last : Option (Message V)) (id : String) (uses : List String) (ids : Ids) (msg : Message V)
      (next : Option (Message V)) (prev : List String) (out : List (Message V))
      → IsToolNext next
      → is_tool msg.role ≡ false
      → assistant_tool_uses msg ≡ id ∷ uses
      → let ids' : Ids = record ids { seen = (id ∷ uses) ++ ids.seen } in
        let t = answer_turn new_id now (id ∷ uses) ids' msg next in
        IsAttached t.ids.seen (uses_of (last_pushed last t.pushed)) out
        → IsAttached ids.seen prev (t.pushed ++ out)
  answer_turn-IsAttached last id uses ids msg next prev out n f e h = go next n h
    where
      seen' : List String
      seen' = (id ∷ uses) ++ ids.seen

      ids' : Ids
      ids' = record ids { seen = seen' }

      front :
          (m : Message V)
          → is_tool m.role ≡ true
          → AllIn seen' (tool_result_ids m.content)
          → IsAttached seen' (assistant_tool_uses m) out
          → IsAttached ids.seen prev (msg ∷ m ∷ out)
      front m t a k =
          other_head-IsAttached ids.seen prev (id ∷ uses) msg (m ∷ out) f e
            (tool_head-IsAttached seen' (id ∷ uses) m out t refl a k)

      go :
          (next : Option (Message V))
          → IsToolNext next
          → let t = answer_turn new_id now (id ∷ uses) ids' msg next in
            IsAttached t.ids.seen (uses_of (last_pushed last t.pushed)) out
            → IsAttached ids.seen prev (t.pushed ++ out)
      go none t k =
          front
            (record {
              id = new_id ids.minted;
              role = tool;
              content = synthetic_tool_errors (missing_ids (id ∷ uses) []);
              created_at = now ids.minted;
            })
            refl (answers-AllIn seen' (id ∷ uses) [] (AllIn-self (id ∷ uses) ids.seen) tt) k
      go (some m) t k =
          let f' = filter_tool_result_blocks m.content seen' ids.answered in
          front
            (record m {
              content =
                  f'.0 ++ synthetic_tool_errors (missing_ids (id ∷ uses) (tool_result_ids f'.0));
            })
            t
            (answers-AllIn seen' (id ∷ uses) f'.0 (AllIn-self (id ∷ uses) ids.seen)
              (filter-AllIn m.content seen' ids.answered))
            k

  turn-IsAttached :
      (last : Option (Message V)) (ids : Ids) (msg : Message V) (next : Option (Message V))
      (out : List (Message V))
      → let t = turn new_id now last ids msg next in
        IsAttached t.ids.seen (uses_of (last_pushed last t.pushed)) out
        → IsAttached ids.seen (uses_of last) (t.pushed ++ out)
  unfolding turn
  turn-IsAttached last ids msg next out h = elim (Bool-cases (is_tool msg.role)) [
    | inl t ↦ rw t (
        kept_message-IsAttached (last_was_assistant_with_tool_use last) ids.seen last msg
          (filter_tool_result_blocks msg.content ids.seen ids.answered).0 out refl t
          (filter-AllIn msg.content ids.seen ids.answered) (rw t at h))
    | inr f ↦ rw f (push (assistant_tool_uses msg) f refl (rw f at h))
  ]
    where
      push :
          (uses : List String)
          → is_tool msg.role ≡ false
          → assistant_tool_uses msg ≡ uses
          → let t = push_turn new_id now uses ids msg next in
            IsAttached t.ids.seen (uses_of (last_pushed last t.pushed)) out
            → IsAttached ids.seen (uses_of last) (t.pushed ++ out)
      push [] f e k =
          other_head-IsAttached ids.seen (uses_of last) [] msg out f e
            (subst (λ u. IsAttached ids.seen u out) e k)
      push (id ∷ uses) f e k =
          answer_turn-IsAttached last id uses ids msg (peeked_tool next) (uses_of last) out
            (peeked_tool_role next) f e k

  elim-IsAttached :
      (b : Bool) (seen prev : List String) (xs ys : List (Message V))
      → IsAttached seen prev xs
      → IsAttached seen prev ys
      → IsAttached seen prev (elim b [ true ↦ xs | false ↦ ys ])
  elim-IsAttached true seen prev xs ys h k = h
  elim-IsAttached false seen prev xs ys h k = k

  pair_from-IsAttached :
      (last : Option (Message V)) (ids : Ids) (messages : List (Message V))
      → IsAttached ids.seen (uses_of last) (pair_from new_id now last ids messages)
  unfolding pair_from
  pair_from-IsAttached last ids [] = tt
  pair_from-IsAttached last ids (msg ∷ []) =
      subst (IsAttached ids.seen (uses_of last))
        (append-nil (turn new_id now last ids msg none).pushed)
        (turn-IsAttached last ids msg none [] tt)
  pair_from-IsAttached last ids (msg ∷ next ∷ rest) =
      let t = turn new_id now last ids msg (some next) in
      let last' = last_pushed last t.pushed in
      turn-IsAttached last ids msg (some next)
        (elim t.took_next [
          | true ↦ pair_from new_id now last' t.ids rest
          | false ↦ pair_from new_id now last' t.ids (next ∷ rest)
        ])
        (elim-IsAttached t.took_next t.ids.seen (uses_of last')
          (pair_from new_id now last' t.ids rest) (pair_from new_id now last' t.ids (next ∷ rest))
          (pair_from-IsAttached last' t.ids rest) (pair_from-IsAttached last' t.ids (next ∷ rest)))

  -- For every history, each tool message of the result directly follows an assistant message that
  -- holds tool uses, and every tool result in it answers a use that an assistant message of the
  -- result emitted before.
  pub pairing-IsAttached :
      (messages : List (Message V))
      → IsAttached [] [] (ensure_tool_result_pairing new_id now messages)
  unfolding ensure_tool_result_pairing
  pairing-IsAttached messages =
      pair_from-IsAttached none (record { seen = []; answered = []; minted = 0 }) messages
