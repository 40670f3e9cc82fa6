-- ===== src/Llm/Retry.antt =====
-- crates/snaca-llm/src/retry.rs: the retry loop around a client, and its delays. A `Duration` is in
-- nanoseconds. The loop's reply to its n-th call and the clock's nanoseconds then are arguments, and
-- so is the product with the floating-point `jitter_ratio`, rounded.
pub mod Attempts
pub mod Delays
use snaca.Base.{
  ℕ, suc, zero, ◌+◌, ◌-◌, ◌*◌, ◌/◌, ◌%◌, ◌^◌, ◌≤◌, min, Bool, true, false, not, Option, none, some,
  List, [], ◌∷◌, leb, ◌==◌, if◌then◌else◌, length,
}
use snaca.Core.Usage.{u64}
use snaca.Llm.Error.{LlmError, LlmResult, ok, err, is_retryable, retry_after}

pub record RetryConfig : Type 0 where
  pub max_attempts : ℕ
  pub base_delay : ℕ
  pub max_delay : ℕ
  pub jitter_window : ℕ → ℕ

abbrev pub as_millis : ℕ → ℕ
as_millis d = u64 (d / 1000000)

abbrev pub saturating_mul : ℕ → ℕ → ℕ
saturating_mul a b = min (a * b) (2 ^ 64 - 1)

unfoldable pub capped : RetryConfig → ℕ → ℕ
capped cfg attempt =
    min (saturating_mul (as_millis cfg.base_delay) (2 ^ min (attempt - 1) 20))
      (as_millis cfg.max_delay)

unfoldable pub jitter : ℕ → ℕ → ℕ
jitter window seed = if window == 0 then 0 else seed % window

unfoldable pub backoff_for : RetryConfig → ℕ → ℕ → ℕ
backoff_for cfg seed attempt =
    let c = capped cfg attempt in u64 (c + jitter (cfg.jitter_window c) seed) * 1000000

abbrev pub delay_or : RetryConfig → ℕ → ℕ → Option ℕ → ℕ
delay_or cfg seed attempt (some d) = min d cfg.max_delay
delay_or cfg seed attempt none = backoff_for cfg seed attempt

-- The sleep before the next call.
unfoldable pub delay : RetryConfig → ℕ → ℕ → LlmError → ℕ
delay cfg seed attempt e = delay_or cfg seed attempt (retry_after e)

-- What the loop returns, and the sleeps on its way.
pub record Run (R : Type 0) : Type 0 where
  pub result : LlmResult R
  pub sleeps : List ℕ

module _ {R : Type 0} where
  abbrev pub returned : LlmResult R → Option (Run R)
  returned res = some (record { result = res; sleeps = [] })

  abbrev pub slept : ℕ → Option (Run R) → Option (Run R)
  slept d none = none
  slept d (some run) = some (record run { sleeps = d ∷ run.sleeps })

  -- The `match` on a reply; `rest` is the loop's next round.
  abbrev pub on_reply : RetryConfig → ℕ → ℕ → LlmResult R → Option (Run R) → Option (Run R)
  on_reply cfg seed attempt (ok r) rest = returned (ok r)
  on_reply cfg seed attempt (err e) rest =
      if not (is_retryable e)
      then returned (err e)
      else if leb cfg.max_attempts attempt
      then returned (err e)
      else slept (delay cfg seed attempt e) rest

  -- `create_message` from the round `attempt`, and `create_message_stream`, whose loop is the same.
  -- It ends by fuel with `none`.
  unfoldable pub create_message : RetryConfig → (ℕ → LlmResult R) → (ℕ → ℕ) → ℕ → ℕ → Option (Run R)
  create_message cfg reply seed zero attempt = none
  create_message cfg reply seed (suc fuel) attempt =
      on_reply cfg (seed attempt) attempt (reply attempt)
        (create_message cfg reply seed fuel (attempt + 1))
