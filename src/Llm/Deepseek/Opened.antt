-- ===== src/Llm/Deepseek/Opened.antt =====
-- crates/snaca-llm/src/deepseek/sse.rs: the blocks that texts and thoughts start, and the deltas that go to them.
use snaca.Base.{
  ℕ, ◌+◌, ◌^◌, ◌<◌, ◌≤◌, Option, none, some, [], ◌∷◌, ◌==◌, ◌≡◌, inl, inr, arith, Bool-cases,
  if-cases,
}
use snaca.Core.Content.{Text}
use snaca.Llm.Stream.{ContentBlockStart, text_start, thinking_start, u32}
use snaca.Llm.Deepseek.{
  StreamState, ActiveBlock, in_text, in_thinking, in_tool_use, and_then, is_text, is_thinking,
  text_to, thinking_to, close_current, open_block, ensure_text, ensure_thinking, on_reasoning,
  on_content,
}
use snaca.Llm.Deepseek.Kinds.{
  Kind, tool_kind, kind_of_start, Started, kind_at, WellTyped, started_by, CurrentKnown, Known,
  Routes, kind_at_next, eqb→eq, kind_at_first, kind_at_later, and_then-Routes, more-Routes,
  still-Routes, close_current-Routes,
}

pub Known-open_block :
    (st : Started) (s : StreamState) (new : Kind) (current : Option ActiveBlock)
    → Known st s
    → s.next_index + 1 < 2 ^ 32
    → CurrentKnown ((s.next_index, new) ∷ st) current
    → Known
        ((s.next_index, new) ∷ st)
        (record s { next_index = u32 (s.next_index + 1); current = current })
unfolding kind_at
Known-open_block st s new current known room here = (
  λ i k e. below i k e,
  here,
  λ c i e. kind_at_later s.next_index i new tool_kind st (kind_at_next st s known) (known.2 c i e),
)
  where
    below :
        (i : ℕ) (k : Kind)
        → kind_at i ((s.next_index, new) ∷ st) ≡ some k
        → i < u32 (s.next_index + 1)
    below i k e = elim (Bool-cases (s.next_index == i)) [
      | inl same ↦ omega (arith, eqb→eq s.next_index i same, room)
      | inr other ↦ omega (arith, known.0 i k (rw other at e), room)
    ]

pub open_block-Routes :
    (block : ℕ → ActiveBlock) (start : ContentBlockStart) (s : StreamState)
    → ((i : ℕ) (st : Started)
        → kind_at i st ≡ some (kind_of_start start)
        → CurrentKnown st (some (block i)))
    → Routes 1 s (open_block block start s)
unfolding open_block
open_block-Routes block start s h st known room =
    let first = kind_at_first s.next_index (kind_of_start start) st in
    (
      (kind_at_next st s known, tt),
      Known-open_block st s (kind_of_start start) (some (block s.next_index)) known room
          (h s.next_index ((s.next_index, kind_of_start start) ∷ st) first),
      omega (arith, room),
    )

-- A block that replaces the current one.
pub replace-Routes :
    (block : ℕ → ActiveBlock) (start : ContentBlockStart) (s : StreamState)
    → ((i : ℕ) (st : Started)
        → kind_at i st ≡ some (kind_of_start start)
        → CurrentKnown st (some (block i)))
    → Routes 1 s (and_then (close_current s) (open_block block start))
unfolding close_current
replace-Routes block start s h =
    and_then-Routes 0 1 s (close_current s) (open_block block start) (close_current-Routes s)
      (open_block-Routes block start (close_current s).1 h)

pub ensure_text-Routes : (s : StreamState) → Routes 1 s (ensure_text s)
unfolding ensure_text
ensure_text-Routes s =
    if-cases (Routes 1 s) (is_text s.current)
      (λ t. more-Routes 0 1 s ([], s) (omega arith) (still-Routes s))
      (λ f. replace-Routes in_text text_start s (λ i st e. e))

pub ensure_thinking-Routes : (s : StreamState) → Routes 1 s (ensure_thinking s)
unfolding ensure_thinking
ensure_thinking-Routes s =
    if-cases (Routes 1 s) (is_thinking s.current)
      (λ t. more-Routes 0 1 s ([], s) (omega arith) (still-Routes s))
      (λ f. replace-Routes in_thinking thinking_start s (λ i st e. e))

pub text_to-Routes : (t : Text) (s : StreamState) → Routes 0 s (text_to t s.current, s)
text_to-Routes t s st known room = by_current s.current known.1
  where
    by_current :
        (o : Option ActiveBlock)
        → CurrentKnown st o
        → WellTyped st (text_to t o)
          × Known (started_by st (text_to t o)) s
          × (s.next_index ≤ s.next_index + 0)
    by_current none k = (tt, known, omega arith)
    by_current (some (in_text i)) k = ((k, tt), known, omega arith)
    by_current (some (in_thinking i)) k = (tt, known, omega arith)
    by_current (some (in_tool_use i c)) k = (tt, known, omega arith)

pub thinking_to-Routes : (t : Text) (s : StreamState) → Routes 0 s (thinking_to t s.current, s)
thinking_to-Routes t s st known room = by_current s.current known.1
  where
    by_current :
        (o : Option ActiveBlock)
        → CurrentKnown st o
        → WellTyped st (thinking_to t o)
          × Known (started_by st (thinking_to t o)) s
          × (s.next_index ≤ s.next_index + 0)
    by_current none k = (tt, known, omega arith)
    by_current (some (in_text i)) k = (tt, known, omega arith)
    by_current (some (in_thinking i)) k = ((k, tt), known, omega arith)
    by_current (some (in_tool_use i c)) k = (tt, known, omega arith)

pub on_reasoning-Routes : (text : Option Text) (s : StreamState) → Routes 1 s (on_reasoning text s)
unfolding on_reasoning
on_reasoning-Routes none s = more-Routes 0 1 s ([], s) (omega arith) (still-Routes s)
on_reasoning-Routes (some []) s = more-Routes 0 1 s ([], s) (omega arith) (still-Routes s)
on_reasoning-Routes (some (b ∷ t)) s =
    and_then-Routes 1 0 s (ensure_thinking s) (λ s. (thinking_to (b ∷ t) s.current, s))
      (ensure_thinking-Routes s) (thinking_to-Routes (b ∷ t) (ensure_thinking s).1)

pub on_content-Routes : (text : Option Text) (s : StreamState) → Routes 1 s (on_content text s)
unfolding on_content
on_content-Routes none s = more-Routes 0 1 s ([], s) (omega arith) (still-Routes s)
on_content-Routes (some []) s = more-Routes 0 1 s ([], s) (omega arith) (still-Routes s)
on_content-Routes (some (b ∷ t)) s =
    and_then-Routes 1 0 s (ensure_text s) (λ s. (text_to (b ∷ t) s.current, s))
      (ensure_text-Routes s) (text_to-Routes (b ∷ t) (ensure_text s).1)
