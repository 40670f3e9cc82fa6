-- ===== src/Llm/Classify/Retryable.antt =====
-- crates/snaca-llm/src/classify.rs: which responses the retry loop takes up, and how long it may wait.
use snaca.Base.{
  ℕ, ◌*◌, ◌≤◌, String, Bool, false, not, ◌&&◌, ◌||◌, Option, none, some, [], ◌∷◌, ◌≡◌, refl, ap,
  ◌∙◌, arith, ◌==◌, str_eq, Bool-cases, inl, inr,
}
use snaca.Core.Content.{Text}
use snaca.Llm.Error.{LlmError, is_retryable, retry_after}
use snaca.Llm.Classify.{
  parse_retry_after, retry_after_of, clamp_seconds, looks_like_context_overflow,
  looks_like_content_filter, is_transient_status, is_auth_status, by_status, by_type, by_code,
  code_text, parsed_or_date, parse_u64, fallback, classify_http_error, trim,
}

-- The envelope names an overload or a rate limit.
abbrev pub names_transient : Option String → Option String → Bool
names_transient none none = false
names_transient (some t) none = str_eq t "overloaded_error" || str_eq t "rate_limit_error"
names_transient none (some c) = str_eq c "rate_limit_exceeded"
names_transient (some t) (some c) =
    (str_eq t "overloaded_error" || str_eq t "rate_limit_error") || str_eq c "rate_limit_exceeded"

fallback-is_retryable :
    (code : Text) (status : ℕ) (message : Option Text) (body : Text)
    → is_retryable (fallback code status message body) ≡ false
fallback-is_retryable code status none body = refl
fallback-is_retryable code status (some m) body = refl

envelope-is_retryable :
    (status : ℕ) (after : Option ℕ) (t c : Option String) (next : LlmError)
    → is_retryable next ≡ false
    → is_retryable (by_type status after t (by_code after c next)) ≡ names_transient t c
envelope-is_retryable status after none none next h = h
envelope-is_retryable status after none (some c) next h = ground (arith, h)
envelope-is_retryable status after (some t) none next h = ground (arith, h)
envelope-is_retryable status after (some t) (some c) next h = ground (arith, h)

status-is_retryable :
    (status : ℕ) (after : Option ℕ) (next : LlmError)
    → is_retryable (by_status status after next) ≡ (
        status == 429
        || (is_transient_status status || (not (is_auth_status status) && is_retryable next)))
status-is_retryable status after next = ground arith

module _ (seconds_until : Text → Option ℕ) (decimal : ℕ → Text) where
  pub is_retryable-classify_http_error :
      (status : ℕ) (header : Option Text) (t c : Option String) (message : Option Text)
      (body : Text)
      → is_retryable (classify_http_error seconds_until decimal status header t c message body) ≡ (
          not (looks_like_context_overflow message body)
          && (not (looks_like_content_filter message body)
              && (status == 429
                  || (is_transient_status status
                      || (not (is_auth_status status) && names_transient t c)))))
  unfolding classify_http_error
  is_retryable-classify_http_error status header t c message body =
      let after : Option ℕ = parse_retry_after seconds_until header in
      let code : Text = code_text decimal status c t in
      elim (Bool-cases (looks_like_context_overflow message body)) [
        | inl over ↦ rw over refl
        | inr fits ↦ elim (Bool-cases (looks_like_content_filter message body)) [
          | inl flagged ↦ rw (fits, flagged) refl
          | inr clean ↦
              rw (fits, clean)
                (status-is_retryable status after
                    (by_type status after t (by_code after c (fallback code status message body)))
                  ∙ ap
                      (λ b.
                        status == 429
                        || (is_transient_status status || (not (is_auth_status status) && b)))
                      (envelope-is_retryable status after t c (fallback code status message body)
                        (fallback-is_retryable code status message body)))
        ]
      ]

abbrev pub wait_of : Option ℕ → ℕ
wait_of none = 0
wait_of (some d) = d

abbrev pub longest : ℕ
longest = 600 * 1000000000

clamp-short : (o : Option ℕ) → wait_of (clamp_seconds o) ≤ longest
clamp-short none = omega arith
clamp-short (some n) = omega arith

retry_after_of-short :
    (seconds_until : Text → Option ℕ) (raw : Text)
    → wait_of (retry_after_of seconds_until raw) ≤ longest
retry_after_of-short seconds_until [] = omega arith
retry_after_of-short seconds_until (b ∷ t) =
    clamp-short (parsed_or_date seconds_until (b ∷ t) (parse_u64 (b ∷ t)))

parse_retry_after-short :
    (seconds_until : Text → Option ℕ) (header : Option Text)
    → wait_of (parse_retry_after seconds_until header) ≤ longest
unfolding parse_retry_after
parse_retry_after-short seconds_until none = omega arith
parse_retry_after-short seconds_until (some raw) = retry_after_of-short seconds_until (trim raw)

fallback-short :
    (code : Text) (status : ℕ) (message : Option Text) (body : Text)
    → wait_of (retry_after (fallback code status message body)) ≤ longest
fallback-short code status none body = omega arith
fallback-short code status (some m) body = omega arith

code-short :
    (after : Option ℕ) (c : Option String) (next : LlmError)
    → wait_of after ≤ longest
    → wait_of (retry_after next) ≤ longest
    → wait_of (retry_after (by_code after c next)) ≤ longest
code-short after none next h k = k
code-short after (some c) next h k = ground (arith, h, k)

type-short :
    (status : ℕ) (after : Option ℕ) (t : Option String) (next : LlmError)
    → wait_of after ≤ longest
    → wait_of (retry_after next) ≤ longest
    → wait_of (retry_after (by_type status after t next)) ≤ longest
type-short status after none next h k = k
type-short status after (some t) next h k = ground (arith, h, k)

status-short :
    (status : ℕ) (after : Option ℕ) (next : LlmError)
    → wait_of after ≤ longest
    → wait_of (retry_after next) ≤ longest
    → wait_of (retry_after (by_status status after next)) ≤ longest
status-short status after next h k = ground (arith, h, k)

module _ (seconds_until : Text → Option ℕ) (decimal : ℕ → Text) where
  -- Whatever the header says, a classified error asks for a wait of at most ten minutes.
  pub classify-retry_after :
      (status : ℕ) (header : Option Text) (t c : Option String) (message : Option Text)
      (body : Text)
      → wait_of
          (retry_after (classify_http_error seconds_until decimal status header t c message body))
        ≤ longest
  unfolding classify_http_error
  classify-retry_after status header t c message body =
      let after : Option ℕ = parse_retry_after seconds_until header in
      let code : Text = code_text decimal status c t in
      let short : wait_of after ≤ longest = parse_retry_after-short seconds_until header in
      elim (Bool-cases (looks_like_context_overflow message body)) [
        | inl over ↦ rw over (omega arith)
        | inr fits ↦ elim (Bool-cases (looks_like_content_filter message body)) [
          | inl flagged ↦ rw (fits, flagged) (omega arith)
          | inr clean ↦
              rw (fits, clean)
                (status-short status after
                  (by_type status after t (by_code after c (fallback code status message body)))
                  short
                  (type-short status after t (by_code after c (fallback code status message body))
                    short
                    (code-short after c (fallback code status message body) short
                      (fallback-short code status message body))))
        ]
      ]
