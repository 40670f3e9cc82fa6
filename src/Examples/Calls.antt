-- ===== src/Examples/Calls.antt =====
-- A call that is retried twice (crates/snaca-llm/src/retry.rs), responses of two statuses
-- (crates/snaca-llm/src/classify.rs), and a usage near the bound (crates/snaca-core/src/usage.rs).
use snaca.Base.{ℕ, ◌/◌, ◌*◌, ◌≤◌, String, none, some, ◌≡◌, ◌==◌, if◌then◌else◌, arith}
use snaca.Llm.Error.{LlmResult, ok, err, rate_limited, timeout}
use snaca.Llm.Retry.{RetryConfig, Run, create_message, delay}
use snaca.Llm.Retry.Attempts.{IsRun, create_message-IsRun}
use snaca.Llm.Retry.Delays.{delay_bound}
use snaca.Base.{Option, none, some, ◌+◌, [], ◌∷◌}
use snaca.Core.Content.{Text, bytes}
use snaca.Core.Usage.{u64, Usage, total, add}
use snaca.Core.Usage.Sums.{total-add}
use snaca.Llm.Error.{retry_after}
use snaca.Llm.Classify.{classify_http_error}
use snaca.Llm.Classify.Retryable.{wait_of, longest, classify-retry_after}

abbrev config : RetryConfig
config = record {
  max_attempts = 5;
  base_delay = 500000000;
  max_delay = 30000000000;
  jitter_window = λ c. c / 2;
}

abbrev third_time : ℕ → LlmResult String
third_time n = if n == 3 then ok "done" else err (rate_limited none)

abbrev nanos : ℕ → ℕ
nanos n = n * 1234567

create_message-IsRun_example :
    (run : Run String) × (create_message config third_time nanos 5 1 ≡ some run)
    × IsRun config third_time 1 run.result run.sleeps
create_message-IsRun_example =
    create_message-IsRun config third_time nanos 5 1 (omega arith) (omega arith)

half_window : (c : ℕ) → c / 2 ≤ c
half_window c = omega arith

delay_bound_example : delay config 77 2 timeout ≤ 2 * 30000000000
delay_bound_example = delay_bound config 77 2 timeout half_window

abbrev no_date : Text → Option ℕ
no_date t = none

abbrev one_digit : ℕ → Text
one_digit n = (n + 48) ∷ []

classify-retry_after_example :
    wait_of (
      retry_after
        (classify_http_error no_date one_digit 429 (some (bytes "3600")) none none none []))
    ≤ longest
classify-retry_after_example =
    classify-retry_after no_date one_digit 429 (some (bytes "3600")) none none none []

abbrev spent : Usage
spent = record {
  input_tokens = 18446744073709551615;
  output_tokens = 2;
  cache_creation_input_tokens = none;
  cache_read_input_tokens = some 7;
}

total-add_example : total (add spent spent) ≡ u64 (total spent + total spent)
total-add_example = total-add spent spent
