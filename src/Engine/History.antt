-- ===== src/Engine/History.antt =====
-- crates/snaca-engine/src/engine.rs: how the loaded history is cut to its budgets. `json_len` is the
-- length of serde_json's text of a value, and `decimal` the text of a number.
pub mod Budget
pub mod Window
use snaca.Base.{
  ℕ, zero, suc, ◌+◌, ◌-◌, ◌/◌, max, String, Bool, true, false, not, ◌&&◌, ◌||◌, List, [], ◌∷◌, ◌++◌,
  map, ltb, leb, ◌==◌, length, take, drop, if◌then◌else◌,
}
use snaca.Core.Content.{
  Text, bytes, ContentBlock, text, thinking, tool_use, tool_result, image, Blocks, nil, cons, Role,
  user, assistant, tool, system, Message, is_tool, is_assistant,
}

module _ {V : Type 0} where
  unfoldable pub tool_result_text_len : Blocks V → ℕ
  tool_result_text_len nil = 0
  tool_result_text_len (cons (text t) blocks) = length t + tool_result_text_len blocks
  tool_result_text_len (cons _ blocks) = tool_result_text_len blocks

-- `str::is_char_boundary`: the byte there is no continuation byte, or the text ends there.
abbrev pub is_char_boundary : Text → ℕ → Bool
is_char_boundary [] i = true
is_char_boundary (b ∷ t) zero = ltb b 128 || leb 192 b
is_char_boundary (b ∷ t) (suc i) = is_char_boundary t i

unfoldable pub floor_from : Text → ℕ → ℕ
floor_from s zero = zero
floor_from s (suc end) =
    let lower = floor_from s end in if is_char_boundary s (suc end) then suc end else lower

unfoldable pub floor_char_boundary : Text → ℕ → ℕ
unfolding floor_from
floor_char_boundary s max = if leb (length s) max then length s else floor_from s max

-- The second `while`, over the bytes that are left behind `tail_start`.
unfoldable pub ceil_from : Text → ℕ → ℕ → ℕ
ceil_from s zero start = start
ceil_from s (suc left) start =
    let higher = ceil_from s left (suc start) in if is_char_boundary s start then start else higher

module _ {V : Type 0} where
  -- `texts.concat()`, and the blocks that are no text.
  abbrev pub texts : Blocks V → Text
  texts nil = []
  texts (cons (text t) blocks) = t ++ texts blocks
  texts (cons _ blocks) = texts blocks

  abbrev pub others : Blocks V → Blocks V
  others nil = nil
  others (cons (text t) blocks) = others blocks
  others (cons block blocks) = cons block (others blocks)

abbrev pub preview : (ℕ → Text) → Text → ℕ → Text
preview decimal body max_len =
    let half = max (max_len / 2) 1 in
    let head_end = floor_char_boundary body half in
    let tail_start = max (ceil_from body half (length body - half)) head_end in
    take head_end body
    ++ bytes "\n\n[... "
    ++ decimal (tail_start - head_end)
    ++ bytes
        " bytes truncated to fit the context window; re-run the tool if the full output is needed ...]\n\n"
    ++ drop tail_start body

abbrev pub is_empty : {A : Type 0} → List A → Bool
is_empty [] = true
is_empty (x ∷ xs) = false

abbrev pub cleared_marker : Text
cleared_marker = bytes "[Old tool result content cleared to fit context budget]"

module _ {V : Type 0} (json_len : V → ℕ) (decimal : ℕ → Text) where
  unfoldable pub cap_tool_result_content : Blocks V → ℕ → Blocks V
  unfolding tool_result_text_len floor_char_boundary ceil_from
  cap_tool_result_content content max =
      if (max == 0) || leb (tool_result_text_len content) max
      then content
      else cons (text (preview decimal (texts content) max)) (others content)

  abbrev pub cap_tool_result_block : ContentBlock V → ℕ → ContentBlock V
  cap_tool_result_block (tool_result id content is_error) max =
      tool_result id (cap_tool_result_content content max) is_error
  cap_tool_result_block other max = other

  unfoldable pub block_byte_size : ContentBlock V → ℕ
  unfolding tool_result_text_len
  block_byte_size (text t) = length t
  block_byte_size (thinking t signature) = length t
  block_byte_size (tool_use id name input) = length (bytes name) + json_len input
  block_byte_size (tool_result id content is_error) = tool_result_text_len content
  block_byte_size (image source) = 1024

  unfoldable pub blocks_byte_size : List (ContentBlock V) → ℕ
  unfolding block_byte_size
  blocks_byte_size [] = 0
  blocks_byte_size (b ∷ bs) = block_byte_size b + blocks_byte_size bs

  unfoldable pub message_byte_size : Message V → ℕ
  unfolding blocks_byte_size
  message_byte_size m = blocks_byte_size m.content

  unfoldable pub messages_byte_size : List (Message V) → ℕ
  unfolding message_byte_size
  messages_byte_size [] = 0
  messages_byte_size (m ∷ ms) = message_byte_size m + messages_byte_size ms

  -- Layer ③ on one message: every result over `per_result_max` becomes its preview.
  unfoldable pub clamp_message : ℕ → Message V → Message V
  unfolding cap_tool_result_content
  clamp_message per_result_max m =
      if (per_result_max == 0) || not (is_tool m.role)
      then m
      else record m { content = map (λ b. cap_tool_result_block b per_result_max) m.content }

  -- Phase A on one block: a body that is larger than the marker, and no error, is cleared.
  abbrev pub is_clearable : Blocks V → Bool → Bool
  is_clearable content is_error =
      not is_error && ltb (length cleared_marker) (tool_result_text_len content)

  abbrev pub clear_block : ContentBlock V → ContentBlock V
  clear_block (tool_result id content is_error) =
      if is_clearable content is_error
      then tool_result id (cons (text cleared_marker) nil) is_error
      else tool_result id content is_error
  clear_block other = other

  abbrev pub freed_by : ContentBlock V → ℕ
  freed_by (tool_result id content is_error) =
      if is_clearable content is_error
      then tool_result_text_len content - length cleared_marker
      else 0
  freed_by other = 0

  abbrev pub freed : List (ContentBlock V) → ℕ
  freed [] = 0
  freed (b ∷ bs) = freed_by b + freed bs

  -- Phase A over the first messages, with the running total.
  unfoldable pub clear_old : ℕ → ℕ → ℕ → List (Message V) → ℕ × List (Message V)
  unfolding tool_result_text_len
  clear_old max_bytes total zero ms = (total, ms)
  clear_old max_bytes total (suc left) [] = (total, [])
  clear_old max_bytes total (suc left) (m ∷ ms) =
      let skipped = clear_old max_bytes total left ms in
      let rest = clear_old max_bytes (total - freed m.content) left ms in
      if leb total max_bytes
      then (total, m ∷ ms)
      else if not (is_tool m.role)
      then (skipped.0, m ∷ skipped.1)
      else (rest.0, record m { content = map clear_block m.content } ∷ rest.1)

  -- Phase B.
  unfoldable pub drop_oldest : ℕ → ℕ → List (Message V) → List (Message V)
  unfolding message_byte_size
  drop_oldest max_bytes total [] = []
  drop_oldest max_bytes total (m ∷ []) = m ∷ []
  drop_oldest max_bytes total (m ∷ next ∷ ms) =
      let rest = drop_oldest max_bytes (total - message_byte_size m) (next ∷ ms) in
      if ltb max_bytes total then rest else m ∷ next ∷ ms

  -- The last `while`.
  unfoldable pub drop_leading_tools : List (Message V) → List (Message V)
  drop_leading_tools [] = []
  drop_leading_tools (m ∷ ms) =
      let rest = drop_leading_tools ms in if is_tool m.role then rest else m ∷ ms

  unfoldable pub enforce_history_byte_cap : List (Message V) → ℕ → ℕ → ℕ → List (Message V)
  unfolding clamp_message messages_byte_size clear_old drop_oldest drop_leading_tools
  enforce_history_byte_cap messages max_bytes keep_recent per_result_max =
      if (max_bytes == 0) || is_empty messages
      then messages
      else let clamped = map (clamp_message per_result_max) messages in
        let total = messages_byte_size clamped in
        let protect_from = length clamped - max keep_recent 1 in
        let cleared = clear_old max_bytes total protect_from clamped in
        drop_leading_tools (drop_oldest max_bytes cleared.0 cleared.1)

abbrev pub is_conversational : Role → Bool
is_conversational user = true
is_conversational assistant = true
is_conversational _ = false

module _ {V : Type 0} where
  -- `filter(…).count()`.
  unfoldable pub conversation_count : List (Message V) → ℕ
  conversation_count [] = 0
  conversation_count (m ∷ ms) =
      if is_conversational m.role then suc (conversation_count ms) else conversation_count ms

  -- The `for` loop and the `skip(cut)`: drop messages until `to_drop` conversational ones are gone.
  unfoldable pub skip_conversational : ℕ → List (Message V) → List (Message V)
  skip_conversational zero ms = ms
  skip_conversational (suc to_drop) [] = []
  skip_conversational (suc to_drop) (m ∷ ms) =
      let counted = skip_conversational to_drop ms in
      let other = skip_conversational (suc to_drop) ms in
      if is_conversational m.role then counted else other

  unfoldable pub trim_to_conversation_window : List (Message V) → ℕ → List (Message V)
  unfolding conversation_count skip_conversational
  trim_to_conversation_window messages conversation_limit =
      if (conversation_limit == 0) || leb (conversation_count messages) conversation_limit
      then messages
      else skip_conversational (conversation_count messages - conversation_limit) messages
