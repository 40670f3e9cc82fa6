-- ===== src/Llm/Classify/Retried.antt =====
-- crates/snaca-llm/src/classify.rs: exactly the responses that the retry loop takes up.
use snaca.Base.{
  ℕ, String, Bool, false, not, ◌&&◌, ◌||◌, Option, none, some, List, [], ◌∷◌, ◌≡◌, ◌⊎◌, ◌==◌,
  str_eq,
}
use snaca.Core.Content.{Text}
use snaca.Llm.Classify.{or_empty, is_transient_status, is_auth_status}
use snaca.Llm.Classify.Phrases.{Silent}
use snaca.Llm.Classify.Retryable.{names_transient}

abbrev pub overflow_phrases : List String
overflow_phrases =
    "prompt is too long" ∷ "context_length_exceeded" ∷ "maximum context length" ∷ "context window"
    ∷ "exceeds the maximum" ∷ "too many tokens" ∷ "input length exceeds" ∷ "string too long"
    ∷ "request too large" ∷ []

abbrev pub filter_phrases : List String
filter_phrases =
    "content exists risk" ∷ "content_filter" ∷ "content management policy" ∷ "content policy"
    ∷ "data_inspection_failed" ∷ "risk of illegal" ∷ "flagged by content" ∷ []

-- The envelope has an error type or code of an overload or a rate limit.
abbrev pub Names : Option String → Option String → Type 0
Names t c =
    (t ≡ some "overloaded_error")
    ⊎ ((t ≡ some "rate_limit_error") ⊎ (c ≡ some "rate_limit_exceeded"))

-- Why a response is worth another try: a rate limit, a transient error of the server, or an error type
-- or code that names one of the two where the status is not one of authentication.
pub data Reason (status : ℕ) (t c : Option String) : Type 0 where
  rate_limited : status ≡ 429 → Reason status t c
  internal_error : status ≡ 500 → Reason status t c
  bad_gateway : status ≡ 502 → Reason status t c
  unavailable : status ≡ 503 → Reason status t c
  gateway_timeout : status ≡ 504 → Reason status t c
  overloaded : status ≡ 529 → Reason status t c
  named : ¬ (status ≡ 401) → ¬ (status ≡ 403) → Names t c → Reason status t c

-- The message and the body mention neither an overflow of the context nor a content filter, and there
-- is a reason to try again.
pub record IsWorthRetry (status : ℕ) (t c : Option String) (message : Option Text) (body : Text)
    : Type 0 where
  pub fits : Silent overflow_phrases (or_empty message) body
  pub clean : Silent filter_phrases (or_empty message) body
  pub reason : Reason status t c

is_name : Option String → String → Bool
is_name none s = false
is_name (some x) s = str_eq x s

abbrev has_reason : ℕ → Option String → Option String → Bool
has_reason status t c =
    status == 429
    || (is_transient_status status || (not (is_auth_status status) && names_transient t c))
