-- ===== src/Llm/Deepseek/Kinds.antt =====
-- crates/snaca-llm/src/deepseek/sse.rs: the kinds of blocks that events start, and what a state knows of them.
use snaca.Base.{
  ℕ, ◌+◌, ◌^◌, ◌<◌, ◌≤◌, true, Option, none, some, List, [], ◌∷◌, ◌++◌, ◌==◌, ◌≡◌, refl, sym, ap,
  subst, ◌∙◌, inl, inr, if◌then◌else◌, arith, Bool-cases, Option-cases,
}
use snaca.Llm.Stream.{
  StreamEvent, content_block_start, content_block_delta, content_block_stop, ContentBlockStart,
  text_start, thinking_start, tool_use_start, ContentDelta, text_delta, thinking_delta,
  tool_input_json,
}
use snaca.Llm.Deepseek.{
  StreamState, ActiveBlock, in_text, in_thinking, in_tool_use, Out, and_then, stop_of,
  close_current, canonical_of,
}

pub data Kind : Type 0 where
  text_kind thinking_kind tool_kind : Kind

abbrev pub kind_of_start : ContentBlockStart → Kind
kind_of_start text_start = text_kind
kind_of_start thinking_start = thinking_kind
kind_of_start (tool_use_start id name) = tool_kind

abbrev pub kind_of_delta : ContentDelta → Kind
kind_of_delta (text_delta t) = text_kind
kind_of_delta (thinking_delta t) = thinking_kind
kind_of_delta (tool_input_json t) = tool_kind

-- The blocks that were started, the last in front.
abbrev pub Started : Type 0
Started = List (ℕ × Kind)

unfoldable pub kind_at : ℕ → Started → Option Kind
kind_at i [] = none
kind_at i ((j, k) ∷ st) = if j == i then some k else kind_at i st

abbrev pub after_event : Started → StreamEvent → Started
after_event st (content_block_start i b) = (i, kind_of_start b) ∷ st
after_event st _ = st

-- A start has an index of its own, a delta goes to a block of its kind, a stop to a block.
abbrev pub IsTyped : Started → StreamEvent → Type 0
IsTyped st (content_block_start i b) = kind_at i st ≡ none
IsTyped st (content_block_delta i d) = kind_at i st ≡ some (kind_of_delta d)
IsTyped st (content_block_stop i) = (k : Kind) × (kind_at i st ≡ some k)
IsTyped st _ = Unit

abbrev pub WellTyped : Started → List StreamEvent → Type 0
WellTyped st [] = Unit
WellTyped st (e ∷ events) = IsTyped st e × WellTyped (after_event st e) events

abbrev pub started_by : Started → List StreamEvent → Started
started_by st [] = st
started_by st (e ∷ events) = started_by (after_event st e) events

pub started_by-append :
    (st : Started) (xs ys : List StreamEvent)
    → started_by st (xs ++ ys) ≡ started_by (started_by st xs) ys
started_by-append st [] ys = refl
started_by-append st (x ∷ xs) ys = started_by-append (after_event st x) xs ys

pub WellTyped-append :
    (st : Started) (xs ys : List StreamEvent)
    → WellTyped st xs
    → WellTyped (started_by st xs) ys
    → WellTyped st (xs ++ ys)
WellTyped-append st [] ys h k = k
WellTyped-append st (x ∷ xs) ys h k = (h.0, WellTyped-append (after_event st x) xs ys h.1 k)

abbrev pub CurrentKnown : Started → Option ActiveBlock → Type 0
CurrentKnown st none = Unit
CurrentKnown st (some (in_text i)) = kind_at i st ≡ some text_kind
CurrentKnown st (some (in_thinking i)) = kind_at i st ≡ some thinking_kind
CurrentKnown st (some (in_tool_use i c)) = kind_at i st ≡ some tool_kind

-- The next index is new, and the indices the state holds are of blocks of their kind.
abbrev pub Known : Started → StreamState → Type 0
Known st s =
    ((i : ℕ) (k : Kind) → kind_at i st ≡ some k → i < s.next_index)
    × CurrentKnown st s.current
    × ((c i : ℕ) → canonical_of c s.tool_indices ≡ some i → kind_at i st ≡ some tool_kind)

pub kind_at_next : (st : Started) (s : StreamState) → Known st s → kind_at s.next_index st ≡ none
kind_at_next st s h = elim (Option-cases (kind_at s.next_index st)) [
  | inl e ↦ e
  | inr (k, e) ↦ absurd (omega (arith, h.0 s.next_index k e))
]

pub eqb→eq : (a b : ℕ) → (a == b) ≡ true → a ≡ b
eqb→eq a b h = ground arith

pub eqb_refl : (a : ℕ) → (a == a) ≡ true
eqb_refl a = ground arith

pub kind_at_first : (i : ℕ) (k : Kind) (st : Started) → kind_at i ((i, k) ∷ st) ≡ some k
unfolding kind_at
kind_at_first i k st = rw (eqb_refl i) refl

-- A new block hides no other.
pub kind_at_later :
    (j i : ℕ) (new k : Kind) (st : Started)
    → kind_at j st ≡ none
    → kind_at i st ≡ some k
    → kind_at i ((j, new) ∷ st) ≡ some k
unfolding kind_at
kind_at_later j i new k st none_yet h = elim (Bool-cases (j == i)) [
  | inl same ↦ absurd (cc (sym none_yet ∙ ap (λ x. kind_at x st) (eqb→eq j i same) ∙ h))
  | inr other ↦ rw other h
]

-- From a state with this many indices to spare, the events are well typed, the indices known again,
-- and at most so many are used.
abbrev pub Routes : ℕ → StreamState → Out → Type 0
Routes n s (events, s') =
    (st : Started)
    → Known st s
    → s.next_index + n < 2 ^ 32
    → WellTyped st events × Known (started_by st events) s' × (s'.next_index ≤ s.next_index + n)

pub and_then-Routes :
    (n m : ℕ) (s : StreamState) (o : Out) (next : StreamState → Out)
    → Routes n s o
    → Routes m o.1 (next o.1)
    → Routes (n + m) s (and_then o next)
and_then-Routes n m s (events, s') next h k st known room =
    let first = h st known (omega (arith, room)) in
    let second = k (started_by st events) first.1 (omega (arith, room, first.2)) in
    (
      WellTyped-append st events (next s').0 first.0 second.0,
      subst (λ x. Known x (next s').1) (sym (started_by-append st events (next s').0)) second.1,
      omega (arith, first.2, second.2),
    )

pub more-Routes : (n m : ℕ) (s : StreamState) (o : Out) → n ≤ m → Routes n s o → Routes m s o
more-Routes n m s o l h st known room =
    let r = h st known (omega (arith, room, l)) in (r.0, r.1, omega (arith, r.2, l))

pub still-Routes : (s : StreamState) → Routes 0 s ([], s)
still-Routes s st known room = (tt, known, omega arith)

pub close_current-Routes : (s : StreamState) → Routes 0 s (close_current s)
unfolding close_current
close_current-Routes s st known room = by_current s.current known.1
  where
    by_current :
        (o : Option ActiveBlock)
        → CurrentKnown st o
        → WellTyped st (stop_of o)
          × Known (started_by st (stop_of o)) (record s { current = none })
          × (s.next_index ≤ s.next_index + 0)
    by_current none k = (tt, (known.0, tt, known.2), omega arith)
    by_current (some (in_text i)) k = (((text_kind, k), tt), (known.0, tt, known.2), omega arith)
    by_current (some (in_thinking i)) k =
        (((thinking_kind, k), tt), (known.0, tt, known.2), omega arith)
    by_current (some (in_tool_use i c)) k =
        (((tool_kind, k), tt), (known.0, tt, known.2), omega arith)
