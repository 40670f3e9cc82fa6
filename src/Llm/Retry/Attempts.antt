-- ===== src/Llm/Retry/Attempts.antt =====
-- crates/snaca-llm/src/retry.rs: which calls the retry loop makes, and what it returns.
use snaca.Base.{
  ℕ, suc, zero, ◌+◌, ◌-◌, ◌≤◌, ◌<◌, true, false, Option, none, some, List, [], ◌∷◌, ◌≡◌, refl, sym,
  subst, leb, length, arith, Bool-cases, inl, inr, leb→le, leb-false→lt,
}
use snaca.Llm.Error.{LlmError, LlmResult, ok, err, is_retryable}
use snaca.Llm.Retry.{RetryConfig, Run, create_message, on_reply, delay}

module _ {R : Type 0} where
  -- A reply after which the loop may go on.
  pub data IsTransient : LlmResult R → Type 0 where
    transient : (e : LlmError) → is_retryable e ≡ true → IsTransient (err e)

  -- A reply that ends the loop at the attempt `n`.
  pub data IsFinal (cfg : RetryConfig) (n : ℕ) : LlmResult R → Type 0 where
    answered : (r : R) → IsFinal cfg n (ok r)
    permanent : (e : LlmError) → is_retryable e ≡ false → IsFinal cfg n (err e)
    exhausted : (e : LlmError) → cfg.max_attempts ≤ n → IsFinal cfg n (err e)

  -- The run made the calls from `attempt` on: its sleeps come after transient errors below the
  -- limit, and the call behind the last sleep is final and is what it returns.
  pub IsRun : RetryConfig → (ℕ → LlmResult R) → ℕ → LlmResult R → List ℕ → Type 0
  IsRun cfg reply attempt res [] = (res ≡ reply attempt) × IsFinal cfg attempt res
  IsRun cfg reply attempt res (d ∷ sleeps) =
      IsTransient (reply attempt)
      × (attempt < cfg.max_attempts)
      × IsRun cfg reply (attempt + 1) res sleeps

  abbrev RunFrom : RetryConfig → (ℕ → LlmResult R) → ℕ → Option (Run R) → Type 0
  RunFrom cfg reply attempt o =
      (run : Run R) × (o ≡ some run) × IsRun cfg reply attempt run.result run.sleeps

  on_reply-IsRun :
      (cfg : RetryConfig) (reply : ℕ → LlmResult R) (seed attempt : ℕ) (res : LlmResult R)
      (rest : Option (Run R))
      → reply attempt ≡ res
      → (attempt < cfg.max_attempts → RunFrom cfg reply (attempt + 1) rest)
      → RunFrom cfg reply attempt (on_reply cfg seed attempt res rest)
  unfolding IsRun
  on_reply-IsRun cfg reply seed attempt (ok r) rest h next =
      (record { result = ok r; sleeps = [] }, refl, (sym h, answered r))
  on_reply-IsRun cfg reply seed attempt (err e) rest h next = elim (Bool-cases (is_retryable e)) [
    | inr refused ↦
        rw refused (record { result = err e; sleeps = [] }, refl, (sym h, permanent e refused))
    | inl again ↦ elim (Bool-cases (leb cfg.max_attempts attempt)) [
      | inl last ↦
          rw (again, last)
            (
              record { result = err e; sleeps = [] },
              refl,
              (sym h, exhausted e (leb→le cfg.max_attempts attempt last)),
            )
      | inr more ↦
          let below = leb-false→lt cfg.max_attempts attempt more in
          let got = next below in
          rw (again, more, got.1)
            (
              record { result = got.0.result; sleeps = delay cfg seed attempt e ∷ got.0.sleeps },
              refl,
              (subst (λ x. IsTransient x) (sym h) (transient e again), below, got.2),
            )
    ]
  ]

  -- With fuel for the attempts that are left, the retry loop returns: it calls again only after a
  -- retryable error and below `max_attempts`, and what it returns is the reply to its last call,
  -- which is a success, an error that is not retryable, or the error of the last attempt allowed.
  pub create_message-IsRun :
      (cfg : RetryConfig) (reply : ℕ → LlmResult R) (seed : ℕ → ℕ) (fuel attempt : ℕ)
      → 1 ≤ fuel
      → cfg.max_attempts < fuel + attempt
      → (run : Run R) × (create_message cfg reply seed fuel attempt ≡ some run)
        × IsRun cfg reply attempt run.result run.sleeps
  unfolding create_message
  create_message-IsRun cfg reply seed zero attempt h k = absurd (omega (arith, h))
  create_message-IsRun cfg reply seed (suc zero) attempt h k =
      on_reply-IsRun cfg reply (seed attempt) attempt (reply attempt) none refl
        (λ below. absurd (omega (arith, k, below)))
  create_message-IsRun cfg reply seed (suc (suc fuel)) attempt h k =
      on_reply-IsRun cfg reply (seed attempt) attempt (reply attempt)
        (create_message cfg reply seed (suc fuel) (attempt + 1)) refl
        (λ below.
          create_message-IsRun cfg reply seed (suc fuel) (attempt + 1) (omega arith)
            (omega (arith, k)))

  -- At most `max_attempts - attempt` sleeps, so at most that many further calls.
  pub sleeps_bounded :
      (cfg : RetryConfig) (reply : ℕ → LlmResult R) (attempt : ℕ) (res : LlmResult R)
      (sleeps : List ℕ)
      → IsRun cfg reply attempt res sleeps
      → length sleeps ≤ cfg.max_attempts - attempt
  unfolding IsRun
  sleeps_bounded cfg reply attempt res [] h = omega arith
  sleeps_bounded cfg reply attempt res (d ∷ sleeps) h =
      omega (arith, h.1, sleeps_bounded cfg reply (attempt + 1) res sleeps h.2)
