-- ===== src/Engine/History/Window.antt =====
-- crates/snaca-engine/src/engine.rs: the conversational half of the history window.
use snaca.Base.{
  ℕ, zero, suc, ◌-◌, ◌≤◌, min, false, List, [], ◌∷◌, ◌≡◌, leb, ◌==◌, arith, inl, inr, Bool-cases,
  leb→le, leb-false→lt,
}
use snaca.Core.Content.{Message}
use snaca.Engine.History.{
  is_conversational, conversation_count, skip_conversational, trim_to_conversation_window,
}

module _ {V : Type 0} where
  -- The second list is the first without a prefix.
  pub data IsSuffix : List (Message V) → List (Message V) → Type 0 where
    same : {ms : List (Message V)} → IsSuffix ms ms
    after : {m : Message V} {ms rest : List (Message V)} → IsSuffix ms rest → IsSuffix (m ∷ ms) rest

  skip-count :
      (n : ℕ) (ms : List (Message V))
      → conversation_count (skip_conversational n ms) ≡ conversation_count ms - n
  unfolding skip_conversational conversation_count
  skip-count zero ms = omega arith
  skip-count (suc n) [] = omega arith
  skip-count (suc n) (m ∷ ms) = ground (arith, skip-count n ms, skip-count (suc n) ms)

  skip-IsSuffix : (n : ℕ) (ms : List (Message V)) → IsSuffix ms (skip_conversational n ms)
  unfolding skip_conversational
  skip-IsSuffix zero ms = same
  skip-IsSuffix (suc n) [] = same
  skip-IsSuffix (suc n) (m ∷ ms) = elim (Bool-cases (is_conversational m.role)) [
    | inl counted ↦ rw counted (after (skip-IsSuffix n ms))
    | inr other ↦ rw other (after (skip-IsSuffix (suc n) ms))
  ]

  -- With a limit, the trim keeps a suffix of the history with the smaller of the limit and the count
  -- of user and assistant messages.
  pub trim-IsSuffix :
      (ms : List (Message V)) (limit : ℕ)
      → 1 ≤ limit
      → IsSuffix ms (trim_to_conversation_window ms limit)
        × (conversation_count (trim_to_conversation_window ms limit)
            ≡ min limit (conversation_count ms))
  unfolding trim_to_conversation_window
  trim-IsSuffix ms zero h = absurd (omega (arith, h))
  trim-IsSuffix ms (suc limit) h =
      let set : (suc limit == 0) ≡ false = ground arith in
      elim (Bool-cases (leb (conversation_count ms) (suc limit))) [
        | inl fits ↦
            rw (set, fits) (same, omega (arith, leb→le (conversation_count ms) (suc limit) fits))
        | inr more ↦
            rw (set, more)
              (
                skip-IsSuffix (conversation_count ms - suc limit) ms,
                omega (
                  arith,
                  skip-count (conversation_count ms - suc limit) ms,
                  leb-false→lt (conversation_count ms) (suc limit) more,
                ),
              )
      ]
