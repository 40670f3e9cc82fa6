-- ===== src/Engine/Pairing/Once.antt =====
-- `ensure_tool_result_pairing` of crates/snaca-engine/src/engine.rs: no id is answered twice.
use snaca.Base.{
  ℕ, String, Bool, true, false, Option, none, some, List, [], ◌∷◌, ◌++◌, ◌≡◌, refl, subst, arith,
  Fresh, Fresh-split, append-nil,
}
use snaca.Core.Content.{Message, is_tool}
use snaca.Engine.Pairing.{
  Ids, Turn, assistant_tool_uses, peeked_tool, turn, last_pushed, pair_from,
  ensure_tool_result_pairing,
}
use snaca.Engine.Pairing.Answered.{no_uses_of_tool}
use snaca.Engine.Pairing.Heads.{answered_ids, emitted_ids}
use snaca.Engine.Pairing.Rounds
use snaca.Engine.Pairing.Rounds.{Subset}

module _ {V : Type 0} (new_id : ℕ → String) (now : ℕ → ℕ) where
  elim-Fresh :
      (b : Bool) (answered : List String) (xs ys : List (Message V))
      → (b ≡ true → Fresh answered (answered_ids xs))
      → (b ≡ false → Fresh answered (answered_ids ys))
      → Fresh answered (answered_ids (elim b [ true ↦ xs | false ↦ ys ]))
  elim-Fresh true answered xs ys h k = h refl
  elim-Fresh false answered xs ys h k = k refl

  -- The message that a round took emits no id.
  later_taken :
      (ids : Ids) (msg next : Message V) (t : Turn V) (rest : List (Message V))
      → Rounds.IsOnce new_id now ids msg (peeked_tool (some next)) t
      → Fresh ids.seen (emitted_ids (msg ∷ next ∷ rest))
      → t.took_next ≡ true
      → Fresh t.ids.seen (emitted_ids rest)
  later_taken ids msg next t rest o f e =
      let (m, p, r) = o.taken e in
      let (n, q, z) = Rounds.peeked_tool-eq-some new_id now (some next) m p r in
      subst (λ u. Fresh t.ids.seen (u ++ emitted_ids rest)) (no_uses_of_tool next (tool_next n q z))
        (o.later (emitted_ids (next ∷ rest)) f)
    where
      tool_next :
          (n : Message V) → some next ≡ some n → is_tool n.role ≡ true → is_tool next.role ≡ true
      tool_next n q z = ground arith

  pair_from-Fresh :
      (last : Option (Message V)) (ids : Ids) (messages : List (Message V))
      → Subset ids.answered ids.seen
      → Fresh ids.seen (emitted_ids messages)
      → Fresh ids.answered (answered_ids (pair_from new_id now last ids messages))
  unfolding pair_from
  pair_from-Fresh last ids [] h f = tt
  pair_from-Fresh last ids (msg ∷ []) h f =
      let d = Fresh-split ids.seen (assistant_tool_uses msg) [] f in
      let t = turn new_id now last ids msg none in
      let o : Rounds.IsOnce new_id now ids msg (peeked_tool none) t =
        Rounds.turn-IsOnce new_id now last ids msg none h d.0 in
      subst (λ x. Fresh ids.answered (answered_ids x)) (append-nil t.pushed) (o.fresh [] tt)
  pair_from-Fresh last ids (msg ∷ next ∷ rest) h f =
      let d = Fresh-split ids.seen (assistant_tool_uses msg) (emitted_ids (next ∷ rest)) f in
      let t = turn new_id now last ids msg (some next) in
      let last' = last_pushed last t.pushed in
      let o : Rounds.IsOnce new_id now ids msg (peeked_tool (some next)) t =
        Rounds.turn-IsOnce new_id now last ids msg (some next) h d.0 in
      o.fresh
        (elim t.took_next [
          | true ↦ pair_from new_id now last' t.ids rest
          | false ↦ pair_from new_id now last' t.ids (next ∷ rest)
        ])
        (elim-Fresh t.took_next t.ids.answered (pair_from new_id now last' t.ids rest)
          (pair_from new_id now last' t.ids (next ∷ rest))
          (λ e. pair_from-Fresh last' t.ids rest o.subset (later_taken ids msg next t rest o f e))
          (λ e.
            pair_from-Fresh last' t.ids (next ∷ rest) o.subset
              (o.later (emitted_ids (next ∷ rest)) f)))

  -- If the assistant messages of a history emit no tool use id twice, the tool messages of the
  -- result answer no id twice.
  pub pairing-Fresh :
      (messages : List (Message V))
      → Fresh [] (emitted_ids messages)
      → Fresh [] (answered_ids (ensure_tool_result_pairing new_id now messages))
  unfolding ensure_tool_result_pairing
  pairing-Fresh messages f =
      pair_from-Fresh none (record { seen = []; answered = []; minted = 0 }) messages (λ k e. e) f
