-- ===== src/Llm/Retry/Delays.antt =====
-- crates/snaca-llm/src/retry.rs: how long the retry loop sleeps.
use snaca.Base.{ℕ, ◌*◌, ◌≤◌, Option, none, some, arith}
use snaca.Llm.Error.{LlmError, retry_after}
use snaca.Llm.Retry.{RetryConfig, capped, jitter, backoff_for, delay, delay_or, as_millis}

capped-bound : (cfg : RetryConfig) (attempt : ℕ) → capped cfg attempt ≤ as_millis cfg.max_delay
unfolding capped
capped-bound cfg attempt = omega arith

jitter-bound : (window seed : ℕ) → jitter window seed ≤ window
unfolding jitter
jitter-bound window seed = ground arith

backoff_for-bound :
    (cfg : RetryConfig) (seed attempt : ℕ)
    → ((c : ℕ) → cfg.jitter_window c ≤ c)
    → backoff_for cfg seed attempt ≤ 2 * cfg.max_delay
unfolding backoff_for
backoff_for-bound cfg seed attempt h =
    let c : ℕ = capped cfg attempt in
    let j : ℕ = jitter (cfg.jitter_window c) seed in
    omega (arith, h c, capped-bound cfg attempt, jitter-bound (cfg.jitter_window c) seed)

delay_or-bound :
    (cfg : RetryConfig) (seed attempt : ℕ) (asked : Option ℕ)
    → ((c : ℕ) → cfg.jitter_window c ≤ c)
    → delay_or cfg seed attempt asked ≤ 2 * cfg.max_delay
delay_or-bound cfg seed attempt none h = backoff_for-bound cfg seed attempt h
delay_or-bound cfg seed attempt (some d) h = omega arith

-- When the jitter is at most the delay it is added to, a sleep before a further call is at most twice
-- `max_delay`; the one a provider asks for is at most `max_delay`.
pub delay_bound :
    (cfg : RetryConfig) (seed attempt : ℕ) (e : LlmError)
    → ((c : ℕ) → cfg.jitter_window c ≤ c)
    → delay cfg seed attempt e ≤ 2 * cfg.max_delay
unfolding delay
delay_bound cfg seed attempt e h = delay_or-bound cfg seed attempt (retry_after e) h
