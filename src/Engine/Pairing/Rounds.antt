-- ===== src/Engine/Pairing/Rounds.antt =====
-- One round of `ensure_tool_result_pairing` (crates/snaca-engine/src/engine.rs) and the ids that it
-- answers.
use snaca.Base.{
  ℕ, String, Bool, true, false, Option, none, some, List, [], ◌∷◌, ◌++◌, ◌≡◌, refl, sym, ap, ◌∙◌,
  subst, arith, contains, contains-append, Fresh, Fresh-mono, Fresh-append, Fresh-split,
  contains-AllIn, Bool-cases, inl, inr, if◌then◌else◌,
}
use snaca.Core.Content.{ContentBlock, Message, tool, tool_result_ids, is_tool}
use snaca.Engine.Pairing.{
  Ids, Turn, tool_turn, push_turn, answer_turn, assistant_tool_uses, peeked_tool, missing_ids, turn,
  filter_tool_result_blocks, synthetic_tool_errors, last_was_assistant_with_tool_use,
}
use snaca.Engine.Pairing.Filter.{
  tool_result_ids-append, tool_result_ids-synthetic, filter-AllIn, filter-Fresh, filter-answered,
}
use snaca.Engine.Pairing.Answered.{no_uses_of_tool, IsToolNext, peeked_tool_role}
use snaca.Engine.Pairing.Attached.{missing_ids-AllIn_uses, AllIn-self}
use snaca.Engine.Pairing.Heads.{
  missing_ids-Fresh, answered_ids, tool_head-Fresh, other_head-Fresh, filter-answered_append,
  kept_message-Fresh,
}

abbrev pub Subset : List String → List String → Type 0
Subset xs ys = (k : String) → contains xs k ≡ true → contains ys k ≡ true

answers-Subset :
    (uses seen answered here : List String)
    → Subset answered (uses ++ seen)
    → Subset (missing_ids uses here ++ answered) (uses ++ seen)
answers-Subset uses seen answered here h k e =
    elim (Bool-cases (contains (missing_ids uses here) k)) [
      | inl m ↦
          contains-AllIn (uses ++ seen) (missing_ids uses here) k
            (missing_ids-AllIn_uses (uses ++ seen) uses here (AllIn-self uses seen)) m
      | inr o ↦ h k (rw o at (sym (contains-append (missing_ids uses here) answered k) ∙ e))
    ]

Subset-append : (xs uses seen : List String) → Subset xs seen → Subset xs (uses ++ seen)
Subset-append xs uses seen h k e = ground (arith, h k, contains-append uses seen k)

-- What is answered has been seen.
module _ {V : Type 0} where
  filter-Subset :
      (content : List (ContentBlock V)) (seen answered : List String)
      → Subset answered seen
      → Subset (filter_tool_result_blocks content seen answered).1 seen
  filter-Subset content seen answered h k e =
      let f = filter_tool_result_blocks content seen answered in
      elim (Bool-cases (contains (tool_result_ids f.0) k)) [
        | inl here ↦
            contains-AllIn seen (tool_result_ids f.0) k (filter-AllIn content seen answered) here
        | inr other ↦ h k (rw other at (sym (filter-answered content seen answered k) ∙ e))
      ]

  -- A message with tool uses and the tool message that answers them, in front.
  answer_heads-Fresh :
      (seen answered recorded uses here : List String) (msg m : Message V) (out : List (Message V))
      → is_tool msg.role ≡ false
      → is_tool m.role ≡ true
      → tool_result_ids m.content ≡ here ++ missing_ids uses here
      → Fresh answered here
      → ((k : String) → contains (here ++ answered) k ≡ contains recorded k)
      → Subset answered seen
      → Fresh seen uses
      → Fresh (missing_ids uses here ++ recorded) (answered_ids out)
      → Fresh answered (answered_ids (msg ∷ m ∷ out))
  answer_heads-Fresh seen answered recorded uses here msg m out f t e fh r sub fu h =
      other_head-Fresh answered msg (m ∷ out) f (
        tool_head-Fresh answered m out t
          (subst (Fresh answered) (sym e) (
            Fresh-append answered here missing fh (
              missing_ids-Fresh seen (here ++ answered) uses here
                (λ k p. ground (arith, contains-append here answered k, sub k)) fu)))
          (Fresh-mono (missing ++ recorded) (tool_result_ids m.content ++ answered)
            (answered_ids out)
            (λ k p. narrow k (subst (λ x. contains (x ++ answered) k ≡ true) e p)) h))
    where
      missing : List String
      missing = missing_ids uses here

      narrow :
          (k : String)
          → contains ((here ++ missing) ++ answered) k ≡ true
          → contains (missing ++ recorded) k ≡ true
      narrow k p = ground (
        arith,
        contains-append (here ++ missing) answered k,
        contains-append here missing k,
        contains-append missing recorded k,
        contains-append here answered k,
        r k,
      )

module _ {V : Type 0} (new_id : ℕ → String) (now : ℕ → ℕ) where
  -- What a round keeps: its answers are new, what is answered has been seen, and the ids that come
  -- later stay new.
  pub record IsOnce (ids : Ids) (msg : Message V) (next : Option (Message V)) (t : Turn V)
      : Type 0 where
    pub fresh :
        (out : List (Message V))
        → Fresh t.ids.answered (answered_ids out)
        → Fresh ids.answered (answered_ids (t.pushed ++ out))
    pub subset : Subset t.ids.answered t.ids.seen
    pub later :
        (us : List String) → Fresh ids.seen (assistant_tool_uses msg ++ us) → Fresh t.ids.seen us
    pub taken : t.took_next ≡ true → (m : Message V) × (next ≡ some m) × (is_tool m.role ≡ true)

  tool_turn-IsOnce :
      (last : Option (Message V)) (ids : Ids) (msg : Message V) (next : Option (Message V))
      → is_tool msg.role ≡ true
      → Subset ids.answered ids.seen
      → IsOnce ids msg next (tool_turn last ids msg)
  tool_turn-IsOnce last ids msg next t h = record {
    fresh = λ out f.
        kept_message-Fresh (last_was_assistant_with_tool_use last) ids.seen ids.answered msg out t
          f;
    subset = go (last_was_assistant_with_tool_use last);
    later = λ us f. subst (λ u. Fresh ids.seen (u ++ us)) (no_uses_of_tool msg t) f;
    taken = λ e. cc;
  }
    where
      go :
          (b : Bool)
          → Subset
              (if b
                then (filter_tool_result_blocks msg.content ids.seen ids.answered).1
                else ids.answered)
              ids.seen
      go true = filter-Subset msg.content ids.seen ids.answered h
      go false = h

  answer_turn-IsOnce :
      (id : String) (uses : List String) (ids : Ids) (msg : Message V) (next : Option (Message V))
      → is_tool msg.role ≡ false
      → assistant_tool_uses msg ≡ id ∷ uses
      → Fresh ids.seen (id ∷ uses)
      → Subset ids.answered ids.seen
      → IsToolNext next
      → IsOnce ids msg next (
          answer_turn new_id now
            (id ∷ uses)
            (record ids { seen = (id ∷ uses) ++ ids.seen })
            msg
            next)
  answer_turn-IsOnce id uses ids msg none f e d h n = record {
    fresh = λ out k.
        answer_heads-Fresh ids.seen ids.answered ids.answered (id ∷ uses) [] msg
          (record {
            id = new_id ids.minted;
            role = tool;
            content = synthetic_tool_errors (missing_ids (id ∷ uses) []);
            created_at = now ids.minted;
          })
          out f refl (tool_result_ids-synthetic V (missing_ids (id ∷ uses) [])) tt (λ j. refl) h d
          k;
    subset =
        answers-Subset (id ∷ uses) ids.seen ids.answered []
          (Subset-append ids.answered (id ∷ uses) ids.seen h);
    later =
        λ us k. (Fresh-split ids.seen (id ∷ uses) us (subst (λ u. Fresh ids.seen (u ++ us)) e k)).1;
    taken = λ k. cc;
  }
  answer_turn-IsOnce id uses ids msg (some m) f e d h n =
      let seen' : List String = (id ∷ uses) ++ ids.seen in
      let g = filter_tool_result_blocks m.content seen' ids.answered in
      let here : List String = tool_result_ids g.0 in
      let missing : List String = missing_ids (id ∷ uses) here in
      record {
        fresh = λ out k.
            answer_heads-Fresh ids.seen ids.answered g.1 (id ∷ uses) here msg
              (record m { content = g.0 ++ synthetic_tool_errors missing }) out f n
              (tool_result_ids-append g.0 (synthetic_tool_errors missing)
                ∙ ap (λ x. here ++ x) (tool_result_ids-synthetic V missing))
              (filter-Fresh m.content seen' ids.answered)
              (filter-answered_append m.content seen' ids.answered) h d k;
        subset = answers-Subset (id ∷ uses) ids.seen g.1 here (
            filter-Subset m.content seen' ids.answered
              (Subset-append ids.answered (id ∷ uses) ids.seen h));
        later = λ us k.
            (Fresh-split ids.seen (id ∷ uses) us (subst (λ u. Fresh ids.seen (u ++ us)) e k)).1;
        taken = λ k. (m, refl, n);
      }

  pub peeked_tool-eq-some :
      (next : Option (Message V)) (m : Message V)
      → peeked_tool next ≡ some m
      → is_tool m.role ≡ true
      → (n : Message V) × (next ≡ some n) × (is_tool n.role ≡ true)
  peeked_tool-eq-some none m e t = cc
  peeked_tool-eq-some (some n) m e t = (n, refl, ground arith)

  pub turn-IsOnce :
      (last : Option (Message V)) (ids : Ids) (msg : Message V) (next : Option (Message V))
      → Subset ids.answered ids.seen
      → Fresh ids.seen (assistant_tool_uses msg)
      → IsOnce ids msg (peeked_tool next) (turn new_id now last ids msg next)
  unfolding turn
  turn-IsOnce last ids msg next h d = elim (Bool-cases (is_tool msg.role)) [
    | inl t ↦ rw t (tool_turn-IsOnce last ids msg (peeked_tool next) t h)
    | inr f ↦ rw f (push (assistant_tool_uses msg) f refl)
  ]
    where
      push :
          (uses : List String)
          → is_tool msg.role ≡ false
          → assistant_tool_uses msg ≡ uses
          → IsOnce ids msg (peeked_tool next) (push_turn new_id now uses ids msg next)
      push [] f e = record {
        fresh = λ out k. other_head-Fresh ids.answered msg out f k;
        subset = h;
        later = λ us k. subst (λ u. Fresh ids.seen (u ++ us)) e k;
        taken = λ k. cc;
      }
      push (id ∷ uses) f e =
          answer_turn-IsOnce id uses ids msg (peeked_tool next) f e (subst (Fresh ids.seen) e d) h
            (peeked_tool_role next)
