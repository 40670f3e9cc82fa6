-- ===== src/Llm/Classify.antt =====
-- crates/snaca-llm/src/classify.rs: the error class of an HTTP response. Header values are ASCII, so
-- `trim` takes off ASCII white space. `seconds_until` stands for chrono: the whole seconds until an
-- RFC 2822 date, if the text is one and it lies in the future. `decimal` is a number's text.
pub mod Phrases
pub mod Retried
pub mod Retryable
use mathlib.Core.List.{reverse}
use snaca.Base.{
  ℕ, zero, suc, ◌+◌, ◌-◌, ◌*◌, ◌^◌, min, String, Bool, true, false, ◌&&◌, ◌||◌, Option, none, some,
  List, [], ◌∷◌, map, any, leb, ltb, ◌==◌, str_eq, if◌then◌else◌,
}
use snaca.Core.Content.{Text, bytes}
use snaca.Llm.Error.{
  LlmError, http_status, rate_limited, context_overflow, server_transient, auth_expired, provider,
  content_filtered,
}

abbrev pub is_space : ℕ → Bool
is_space b = b == 32 || (leb 9 b && leb b 13)

abbrev trim_start : Text → Text
trim_start [] = []
trim_start (b ∷ t) = let rest = trim_start t in if is_space b then rest else b ∷ t

abbrev pub trim : Text → Text
trim t = reverse (trim_start (reverse (trim_start t)))

-- `parse::<u64>()`: an optional plus sign and at least one digit, in range.
unfoldable pub digits_from : ℕ → Text → Option ℕ
digits_from n [] = some n
digits_from n (b ∷ t) =
    let n' = n * 10 + (b - 48) in
    let rest = digits_from n' t in if (leb 48 b && leb b 57) && ltb n' (2 ^ 64) then rest else none

abbrev parse_digits : Text → Option ℕ
parse_digits [] = none
parse_digits (b ∷ t) = digits_from 0 (b ∷ t)

unfoldable pub parse_u64 : Text → Option ℕ
unfolding digits_from
parse_u64 [] = none
parse_u64 (b ∷ t) = if b == 43 then parse_digits t else parse_digits (b ∷ t)

abbrev pub seconds : ℕ → ℕ
seconds n = n * 1000000000

abbrev pub clamp_seconds : Option ℕ → Option ℕ
clamp_seconds none = none
clamp_seconds (some n) = some (seconds (min n 600))

abbrev parsed_or_date : (Text → Option ℕ) → Text → Option ℕ → Option ℕ
parsed_or_date seconds_until raw (some secs) = some secs
parsed_or_date seconds_until raw none = seconds_until raw

abbrev retry_after_of : (Text → Option ℕ) → Text → Option ℕ
retry_after_of seconds_until [] = none
retry_after_of seconds_until (b ∷ t) =
    clamp_seconds (parsed_or_date seconds_until (b ∷ t) (parse_u64 (b ∷ t)))

unfoldable pub parse_retry_after : (Text → Option ℕ) → Option Text → Option ℕ
unfolding parse_u64
parse_retry_after seconds_until none = none
parse_retry_after seconds_until (some raw) = retry_after_of seconds_until (trim raw)

abbrev pub lower : ℕ → ℕ
lower b = if leb 65 b && leb b 90 then b + 32 else b

abbrev pub starts : Text → Text → Bool
starts t [] = true
starts [] (p ∷ pattern) = false
starts (b ∷ t) (p ∷ pattern) = b == p && starts t pattern

unfoldable pub contains_text : Text → Text → Bool
contains_text [] pattern = starts [] pattern
contains_text (b ∷ t) pattern = starts (b ∷ t) pattern || contains_text t pattern

abbrev pub hinted : List String → Text → Bool
hinted hints t = any (λ p. contains_text (map lower t) (bytes p)) hints

abbrev pub or_empty : Option Text → Text
or_empty none = []
or_empty (some t) = t

unfoldable pub looks_like_context_overflow : Option Text → Text → Bool
unfolding contains_text
looks_like_context_overflow message body =
    let hints =
      "prompt is too long" ∷ "context_length_exceeded" ∷ "maximum context length" ∷ "context window"
      ∷ "exceeds the maximum" ∷ "too many tokens" ∷ "input length exceeds" ∷ "string too long"
      ∷ "request too large" ∷ [] in
    hinted hints (or_empty message) || hinted hints body

unfoldable pub looks_like_content_filter : Option Text → Text → Bool
unfolding contains_text
looks_like_content_filter message body =
    let hints =
      "content exists risk" ∷ "content_filter" ∷ "content management policy" ∷ "content policy"
      ∷ "data_inspection_failed" ∷ "risk of illegal" ∷ "flagged by content" ∷ [] in
    hinted hints (or_empty message) || hinted hints body

-- `provider_error_code.or(provider_error_type)`, or the status.
abbrev code_text : (ℕ → Text) → ℕ → Option String → Option String → Text
code_text decimal status (some c) t = bytes c
code_text decimal status none (some t) = bytes t
code_text decimal status none none = decimal status

abbrev filtered_message : Option Text → Text
filtered_message (some m) = m
filtered_message none = bytes "content flagged by provider moderation"

abbrev pub is_transient_status : ℕ → Bool
is_transient_status status =
    status == 500 || (status == 502 || (status == 503 || (status == 504 || status == 529)))

abbrev pub is_auth_status : ℕ → Bool
is_auth_status status = status == 401 || status == 403

abbrev by_status : ℕ → Option ℕ → LlmError → LlmError
by_status status after next =
    if status == 429
    then rate_limited after
    else if is_auth_status status
    then auth_expired status
    else if is_transient_status status
    then server_transient status
    else next

abbrev by_type : ℕ → Option ℕ → Option String → LlmError → LlmError
by_type status after none next = next
by_type status after (some t) next =
    if str_eq t "overloaded_error"
    then server_transient status
    else if str_eq t "rate_limit_error"
    then rate_limited after
    else next

abbrev by_code : Option ℕ → Option String → LlmError → LlmError
by_code after none next = next
by_code after (some c) next = if str_eq c "rate_limit_exceeded" then rate_limited after else next

abbrev fallback : Text → ℕ → Option Text → Text → LlmError
fallback code status (some msg) body = provider code msg
fallback code status none body = http_status status body

module _ (seconds_until : Text → Option ℕ) (decimal : ℕ → Text) where
  unfoldable pub classify_http_error :
      ℕ → Option Text → Option String → Option String → Option Text → Text → LlmError
  classify_http_error status retry_after_header error_type error_code message body =
      let after = parse_retry_after seconds_until retry_after_header in
      let code = code_text decimal status error_code error_type in
      if looks_like_context_overflow message body
      then context_overflow
      else if looks_like_content_filter message body
      then content_filtered code (filtered_message message)
      else by_status status after (
          by_type status after error_type
            (by_code after error_code (fallback code status message body)))
