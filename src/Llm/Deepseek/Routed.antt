-- ===== src/Llm/Deepseek/Routed.antt =====
-- crates/snaca-llm/src/deepseek/sse.rs: a delta goes to a block of its own kind that was started.
use snaca.Base.{
  ℕ, suc, ◌+◌, ◌^◌, String, ◌<◌, ◌≤◌, true, Option, none, some, List, [], ◌∷◌, ◌==◌, ◌≡◌, refl, sym,
  subst, inl, inr, arith, length, Bool-cases, if-cases,
}
use snaca.Core.Content.{Text}
use snaca.Llm.Stream.{message_delta, message_stop}
use snaca.Llm.Deepseek.{
  ChatStreamChunk, StreamChoice, StreamToolCall, StreamState, fresh, in_tool_use, Out, and_then,
  close_current, open_block, on_reasoning, on_content, on_known, on_call_at, on_calls, calls_of,
  canonical_of, open_call, args_to, arguments_of, map_stop_reason, map_usage, on_finish, on_start,
  on_choices, process_chunk, WireUsage,
}
use snaca.Llm.Deepseek.Kinds.{
  tool_kind, Started, kind_at, WellTyped, started_by, Known, Routes, kind_at_next, kind_at_first,
  and_then-Routes, more-Routes, still-Routes, close_current-Routes,
}
use snaca.Llm.Deepseek.Opened.{Known-open_block, on_reasoning-Routes, on_content-Routes}

-- The arguments go to a tool's block, which becomes the current one.
args_to-WellTyped :
    (i : ℕ) (args : Option Text) (st : Started)
    → kind_at i st ≡ some tool_kind
    → WellTyped st (args_to i args) × (started_by st (args_to i args) ≡ st)
args_to-WellTyped i none st h = (tt, refl)
args_to-WellTyped i (some []) st h = (tt, refl)
args_to-WellTyped i (some (b ∷ args)) st h = ((h, tt), refl)

on_known-Routes :
    (tc : StreamToolCall) (i : ℕ) (s : StreamState) (st : Started)
    → kind_at i st ≡ some tool_kind
    → Known st s
    → WellTyped st (on_known tc i s).0
      × Known (started_by st (on_known tc i s).0) (on_known tc i s).1
on_known-Routes tc i s st h known =
    let a = args_to-WellTyped i (arguments_of tc.function) st h in
    (a.0, subst (λ x. Known x (on_known tc i s).1) (sym a.1) (known.0, h, known.2))

open_known-Routes :
    (tc : StreamToolCall) (s : StreamState)
    → Routes 1 s (and_then (open_call tc s) (on_known tc s.next_index))
unfolding open_call open_block canonical_of
open_known-Routes tc s st known room =
    let st' : Started = (s.next_index, tool_kind) ∷ st in
    let first = kind_at_first s.next_index tool_kind st in
    let opened =
      Known-open_block st s tool_kind (some (in_tool_use s.next_index tc.index)) known room first in
    let all =
      on_known-Routes tc s.next_index (open_call tc s).1 st' first
        (opened.0, opened.1, tools opened.2) in
    ((kind_at_next st s known, all.0), all.1, omega (arith, room))
  where
    tools :
        ((c i : ℕ)
          → canonical_of c s.tool_indices ≡ some i
          → kind_at i ((s.next_index, tool_kind) ∷ st) ≡ some tool_kind)
        → (c i : ℕ) → canonical_of c ((tc.index, s.next_index) ∷ s.tool_indices) ≡ some i
        → kind_at i ((s.next_index, tool_kind) ∷ st) ≡ some tool_kind
    tools old c i e = elim (Bool-cases (tc.index == c)) [
      | inl same ↦
          let here : s.next_index ≡ i = cc (rw same at e) in
          subst (λ j. kind_at j ((s.next_index, tool_kind) ∷ st) ≡ some tool_kind) here
            (kind_at_first s.next_index tool_kind st)
      | inr other ↦ old c i (rw other at e)
    ]

on_call_at-Routes :
    (tc : StreamToolCall) (s : StreamState)
    → Routes 1 s (on_call_at tc (canonical_of tc.index s.tool_indices) s)
unfolding close_current
on_call_at-Routes tc s st known room = by_canonical (canonical_of tc.index s.tool_indices) refl
  where
    by_canonical :
        (o : Option ℕ)
        → canonical_of tc.index s.tool_indices ≡ o
        → WellTyped st (on_call_at tc o s).0
          × Known (started_by st (on_call_at tc o s).0) (on_call_at tc o s).1
          × ((on_call_at tc o s).1.next_index ≤ s.next_index + 1)
    by_canonical (some i) e =
        let r = on_known-Routes tc i s st (known.2 tc.index i e) known in (r.0, r.1, omega arith)
    by_canonical none e =
        and_then-Routes 0 1 s (close_current s)
          (λ s. and_then (open_call tc s) (on_known tc s.next_index)) (close_current-Routes s)
          (open_known-Routes tc (close_current s).1) st known room

on_calls-Routes :
    (calls : List StreamToolCall) (s : StreamState) → Routes (length calls) s (on_calls calls s)
unfolding on_calls
on_calls-Routes [] s = still-Routes s
on_calls-Routes (tc ∷ calls) s =
    let o = on_call_at tc (canonical_of tc.index s.tool_indices) s in
    more-Routes (1 + length calls) (suc (length calls)) s (and_then o (on_calls calls))
      (omega arith)
      (and_then-Routes 1 (length calls) s o (on_calls calls) (on_call_at-Routes tc s)
        (on_calls-Routes calls o.1))

on_finish-Routes :
    (reason : Option String) (usage : Option WireUsage) (s : StreamState)
    → Routes 0 s (on_finish reason usage s)
unfolding on_finish close_current
on_finish-Routes none usage s = still-Routes s
on_finish-Routes (some reason) usage s =
    let end : StreamState → Out = λ s. (
      message_delta (some (map_stop_reason reason)) (map_usage usage) ∷ message_stop ∷ [],
      record s { finished = true },
    ) in
    and_then-Routes 0 0 s (close_current s) end (close_current-Routes s)
      (λ st known room. ((tt, (tt, tt)), known, omega arith))

-- The indices a chunk may use: one for each kind of text and one for each tool call.
abbrev pub choice_budget : List StreamChoice → ℕ
choice_budget [] = 0
choice_budget (choice ∷ choices) = 2 + length (calls_of choice.delta.tool_calls)

on_choices-Routes :
    (choices : List StreamChoice) (usage : Option WireUsage) (s : StreamState)
    → Routes (choice_budget choices) s (on_choices choices usage s)
unfolding on_choices
on_choices-Routes [] usage s = still-Routes s
on_choices-Routes (choice ∷ choices) usage s =
    let n = length (calls_of choice.delta.tool_calls) in
    let o = on_reasoning choice.delta.reasoning_content s in
    let o2 = on_content choice.delta.content o.1 in
    let o3 = on_calls (calls_of choice.delta.tool_calls) o2.1 in
    let finish = on_finish choice.finish_reason usage in
    let call =
      λ (s : StreamState). and_then (on_calls (calls_of choice.delta.tool_calls) s) finish in
    let next = λ (s : StreamState). and_then (on_content choice.delta.content s) call in
    more-Routes (1 + (1 + (n + 0))) (2 + n) s (and_then o next) (omega arith) (
      and_then-Routes 1 (1 + (n + 0)) s o next
        (on_reasoning-Routes choice.delta.reasoning_content s)
        (and_then-Routes 1 (n + 0) o.1 o2 call (on_content-Routes choice.delta.content o.1) (
          and_then-Routes n 0 o2.1 o3 finish
            (on_calls-Routes (calls_of choice.delta.tool_calls) o2.1)
            (on_finish-Routes choice.finish_reason usage o3.1))))

on_start-Routes : (chunk : ChatStreamChunk) (s : StreamState) → Routes 0 s (on_start chunk s)
unfolding on_start
on_start-Routes chunk s =
    if-cases (Routes 0 s) s.started (λ t. still-Routes s)
      (λ f st known room. ((tt, tt), known, omega arith))

process_chunk-Routes :
    (chunk : ChatStreamChunk) (s : StreamState)
    → Routes (choice_budget chunk.choices) s (process_chunk chunk s)
unfolding process_chunk
process_chunk-Routes chunk s =
    let n = choice_budget chunk.choices in
    let o = on_start chunk s in
    if-cases (Routes n s) s.finished (λ t. more-Routes 0 n s ([], s) (omega arith) (still-Routes s))
      (λ f.
        more-Routes (0 + n) n s (and_then o (on_choices chunk.choices chunk.usage)) (omega arith) (
          and_then-Routes 0 n s o (on_choices chunk.choices chunk.usage) (on_start-Routes chunk s)
            (on_choices-Routes chunk.choices chunk.usage o.1)))

-- The chunks of a stream one after the other.
unfoldable pub process_all : List ChatStreamChunk → StreamState → Out
unfolding process_chunk
process_all [] s = ([], s)
process_all (chunk ∷ chunks) s = and_then (process_chunk chunk s) (process_all chunks)

abbrev pub budget : List ChatStreamChunk → ℕ
budget [] = 0
budget (chunk ∷ chunks) = choice_budget chunk.choices + budget chunks

process_all-Routes :
    (chunks : List ChatStreamChunk) (s : StreamState)
    → Routes (budget chunks) s (process_all chunks s)
unfolding process_all
process_all-Routes [] s = still-Routes s
process_all-Routes (chunk ∷ chunks) s =
    and_then-Routes (choice_budget chunk.choices) (budget chunks) s (process_chunk chunk s)
      (process_all chunks) (process_chunk-Routes chunk s)
      (process_all-Routes chunks (process_chunk chunk s).1)

-- If the chunks of a stream, at two for each that has a choice and one for each tool call in its first
-- choice, come to less than 2 ^ 32, every block is started under an index of its own, every delta goes to
-- a started block of its own kind, and every stop names a started block, also where tool calls interleave.
pub process_all-WellTyped :
    (chunks : List ChatStreamChunk)
    → budget chunks < 2 ^ 32
    → WellTyped [] (process_all chunks fresh).0
unfolding kind_at canonical_of
process_all-WellTyped chunks room =
    (process_all-Routes chunks fresh [] (λ i k e. absurd (cc e), tt, λ c i e. absurd (cc e))
      (omega (arith, room))).0
