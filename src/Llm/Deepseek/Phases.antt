-- ===== src/Llm/Deepseek/Phases.antt =====
-- crates/snaca-llm/src/deepseek/sse.rs: what a chunk does to the message that a stream opens and closes.
use snaca.Base.{
  ℕ, String, true, false, Option, none, some, List, [], ◌∷◌, ◌++◌, ◌≡◌, refl, sym, ap, ◌∙◌, inl,
  inr, if◌then◌else◌, Bool-cases, if-cases,
}
use snaca.Core.Content.{Text}
use snaca.Llm.Stream.{
  StreamEvent, message_start, ContentBlockStart, text_start, thinking_start, message_delta,
  message_stop, unwrap_or,
}
use snaca.Llm.Deepseek.{
  ChatStreamChunk, StreamChoice, StreamToolCall, StreamState, ActiveBlock, in_text, in_thinking,
  in_tool_use, Out, and_then, is_text, is_thinking, text_to, thinking_to, stop_of, close_current,
  open_block, ensure_text, ensure_thinking, on_reasoning, on_content, on_known, on_call_at,
  on_calls, calls_of, canonical_of, open_call, args_to, arguments_of, map_stop_reason, map_usage,
  on_finish, on_start, on_choices, process_chunk, WireUsage,
}

pub data Phase : Type 0 where
  before opened closed broken : Phase

-- A message's events: one start, then what is neither start nor stop, then one stop.
abbrev pub step : Phase → StreamEvent → Phase
step before (message_start id model) = opened
step before _ = broken
step opened (message_start id model) = broken
step opened message_stop = closed
step opened _ = opened
step closed _ = broken
step broken _ = broken

abbrev pub phase_after : Phase → List StreamEvent → Phase
phase_after p [] = p
phase_after p (e ∷ events) = phase_after (step p e) events

abbrev pub phase_of : StreamState → Phase
phase_of s = if s.started then (if s.finished then closed else opened) else before

pub phase_after-append :
    (p : Phase) (xs ys : List StreamEvent)
    → phase_after p (xs ++ ys) ≡ phase_after (phase_after p xs) ys
phase_after-append p [] ys = refl
phase_after-append p (x ∷ xs) ys = phase_after-append (step p x) xs ys

-- The events keep an open message open, and the flags as they are.
abbrev StaysOpen : StreamState → Out → Type 0
StaysOpen s (events, s') =
    (phase_after opened events ≡ opened) × (s'.started ≡ s.started) × (s'.finished ≡ s.finished)

and_then-StaysOpen :
    (s : StreamState) (o : Out) (next : StreamState → Out)
    → StaysOpen s o
    → StaysOpen o.1 (next o.1)
    → StaysOpen s (and_then o next)
and_then-StaysOpen s (events, s') next h k = (
  phase_after-append opened events (next s').0 ∙ ap (λ p. phase_after p (next s').0) h.0 ∙ k.0,
  k.1 ∙ h.1,
  k.2 ∙ h.2,
)

stop_of-opened : (o : Option ActiveBlock) → phase_after opened (stop_of o) ≡ opened
stop_of-opened none = refl
stop_of-opened (some (in_text i)) = refl
stop_of-opened (some (in_thinking i)) = refl
stop_of-opened (some (in_tool_use i k)) = refl

close_current-StaysOpen : (s : StreamState) → StaysOpen s (close_current s)
unfolding close_current
close_current-StaysOpen s = (stop_of-opened s.current, refl, refl)

-- A block that replaces the current one.
replace-StaysOpen :
    (block : ℕ → ActiveBlock) (start : ContentBlockStart) (s : StreamState)
    → StaysOpen s (and_then (close_current s) (open_block block start))
unfolding close_current open_block
replace-StaysOpen block start s =
    and_then-StaysOpen s (close_current s) (open_block block start) (close_current-StaysOpen s)
      (refl, refl, refl)

ensure_text-StaysOpen : (s : StreamState) → StaysOpen s (ensure_text s)
unfolding ensure_text
ensure_text-StaysOpen s = elim (Bool-cases (is_text s.current)) [
  | inl t ↦ rw t (refl, refl, refl)
  | inr f ↦ rw f (replace-StaysOpen in_text text_start s)
]

ensure_thinking-StaysOpen : (s : StreamState) → StaysOpen s (ensure_thinking s)
unfolding ensure_thinking
ensure_thinking-StaysOpen s = elim (Bool-cases (is_thinking s.current)) [
  | inl t ↦ rw t (refl, refl, refl)
  | inr f ↦ rw f (replace-StaysOpen in_thinking thinking_start s)
]

text_to-opened : (t : Text) (o : Option ActiveBlock) → phase_after opened (text_to t o) ≡ opened
text_to-opened t none = refl
text_to-opened t (some (in_text i)) = refl
text_to-opened t (some (in_thinking i)) = refl
text_to-opened t (some (in_tool_use i k)) = refl

thinking_to-opened :
    (t : Text) (o : Option ActiveBlock) → phase_after opened (thinking_to t o) ≡ opened
thinking_to-opened t none = refl
thinking_to-opened t (some (in_text i)) = refl
thinking_to-opened t (some (in_thinking i)) = refl
thinking_to-opened t (some (in_tool_use i k)) = refl

on_reasoning-StaysOpen : (text : Option Text) (s : StreamState) → StaysOpen s (on_reasoning text s)
unfolding on_reasoning
on_reasoning-StaysOpen none s = (refl, refl, refl)
on_reasoning-StaysOpen (some []) s = (refl, refl, refl)
on_reasoning-StaysOpen (some (b ∷ t)) s =
    and_then-StaysOpen s (ensure_thinking s) (λ s. (thinking_to (b ∷ t) s.current, s))
      (ensure_thinking-StaysOpen s)
      (thinking_to-opened (b ∷ t) (ensure_thinking s).1.current, refl, refl)

on_content-StaysOpen : (text : Option Text) (s : StreamState) → StaysOpen s (on_content text s)
unfolding on_content
on_content-StaysOpen none s = (refl, refl, refl)
on_content-StaysOpen (some []) s = (refl, refl, refl)
on_content-StaysOpen (some (b ∷ t)) s =
    and_then-StaysOpen s (ensure_text s) (λ s. (text_to (b ∷ t) s.current, s))
      (ensure_text-StaysOpen s) (text_to-opened (b ∷ t) (ensure_text s).1.current, refl, refl)

args_to-opened : (i : ℕ) (args : Option Text) → phase_after opened (args_to i args) ≡ opened
args_to-opened i none = refl
args_to-opened i (some []) = refl
args_to-opened i (some (b ∷ args)) = refl

open_call-StaysOpen : (tc : StreamToolCall) (s : StreamState) → StaysOpen s (open_call tc s)
unfolding open_call open_block
open_call-StaysOpen tc s = (refl, refl, refl)

on_call_at-StaysOpen :
    (tc : StreamToolCall) (o : Option ℕ) (s : StreamState) → StaysOpen s (on_call_at tc o s)
unfolding close_current
on_call_at-StaysOpen tc (some i) s = (args_to-opened i (arguments_of tc.function), refl, refl)
on_call_at-StaysOpen tc none s =
    let s' = (close_current s).1 in
    and_then-StaysOpen s (close_current s)
      (λ s. and_then (open_call tc s) (on_known tc s.next_index)) (close_current-StaysOpen s)
      (and_then-StaysOpen s' (open_call tc s') (on_known tc s'.next_index)
        (open_call-StaysOpen tc s')
        (args_to-opened s'.next_index (arguments_of tc.function), refl, refl))

on_calls-StaysOpen :
    (calls : List StreamToolCall) (s : StreamState) → StaysOpen s (on_calls calls s)
unfolding on_calls
on_calls-StaysOpen [] s = (refl, refl, refl)
on_calls-StaysOpen (tc ∷ calls) s =
    let o = on_call_at tc (canonical_of tc.index s.tool_indices) s in
    and_then-StaysOpen s o (on_calls calls)
      (on_call_at-StaysOpen tc (canonical_of tc.index s.tool_indices) s)
      (on_calls-StaysOpen calls o.1)

-- The events lead from the phase of one state to the phase of the other.
abbrev pub Leads : StreamState → Out → Type 0
Leads s (events, s') = phase_after (phase_of s) events ≡ phase_of s'

-- The message is open: started and not finished.
abbrev IsOpen : StreamState → Type 0
IsOpen s = (s.started ≡ true) × (s.finished ≡ false)

IsOpen-phase : (s : StreamState) → IsOpen s → phase_of s ≡ opened
IsOpen-phase s h = rw (h.0, h.1) refl

StaysOpen-IsOpen : (s : StreamState) (o : Out) → IsOpen s → StaysOpen s o → IsOpen o.1
StaysOpen-IsOpen s o h k = (k.1 ∙ h.0, k.2 ∙ h.1)

StaysOpen-Leads : (s : StreamState) (o : Out) → IsOpen s → StaysOpen s o → Leads s o
StaysOpen-Leads s o h k =
    ap (λ p. phase_after p o.0) (IsOpen-phase s h)
    ∙ k.0
    ∙ sym (IsOpen-phase o.1 (StaysOpen-IsOpen s o h k))

and_then-Leads :
    (s : StreamState) (o : Out) (next : StreamState → Out)
    → Leads s o
    → Leads o.1 (next o.1)
    → Leads s (and_then o next)
and_then-Leads s (events, s') next h k =
    phase_after-append (phase_of s) events (next s').0 ∙ ap (λ p. phase_after p (next s').0) h ∙ k

on_finish-Leads :
    (reason : Option String) (usage : Option WireUsage) (s : StreamState)
    → IsOpen s
    → Leads s (on_finish reason usage s)
unfolding on_finish close_current
on_finish-Leads none usage s h = refl
on_finish-Leads (some reason) usage s h =
    let end : List StreamEvent =
      message_delta (some (map_stop_reason reason)) (map_usage usage) ∷ message_stop ∷ [] in
    rw (h.0, h.1)
      (phase_after-append opened (stop_of s.current) end
        ∙ ap (λ p. phase_after p end) (stop_of-opened s.current))

on_choices-Leads :
    (choices : List StreamChoice) (usage : Option WireUsage) (s : StreamState)
    → IsOpen s
    → Leads s (on_choices choices usage s)
unfolding on_choices
on_choices-Leads [] usage s h = refl
on_choices-Leads (choice ∷ choices) usage s h =
    let o = on_reasoning choice.delta.reasoning_content s in
    let stays = on_reasoning-StaysOpen choice.delta.reasoning_content s in
    let h1 = StaysOpen-IsOpen s o h stays in
    let o2 = on_content choice.delta.content o.1 in
    let stays2 = on_content-StaysOpen choice.delta.content o.1 in
    let h2 = StaysOpen-IsOpen o.1 o2 h1 stays2 in
    let o3 = on_calls (calls_of choice.delta.tool_calls) o2.1 in
    let stays3 = on_calls-StaysOpen (calls_of choice.delta.tool_calls) o2.1 in
    let h3 = StaysOpen-IsOpen o2.1 o3 h2 stays3 in
    let finish = on_finish choice.finish_reason usage in
    let call =
      λ (s : StreamState). and_then (on_calls (calls_of choice.delta.tool_calls) s) finish in
    and_then-Leads s o (λ s. and_then (on_content choice.delta.content s) call)
      (StaysOpen-Leads s o h stays)
      (and_then-Leads o.1 o2 call (StaysOpen-Leads o.1 o2 h1 stays2) (
        and_then-Leads o2.1 o3 finish (StaysOpen-Leads o2.1 o3 h2 stays3)
          (on_finish-Leads choice.finish_reason usage o3.1 h3)))

IsBefore-phase : (s : StreamState) → s.started ≡ false → phase_of s ≡ before
IsBefore-phase s h = rw h refl

on_start-Leads :
    (chunk : ChatStreamChunk) (s : StreamState)
    → s.finished ≡ false
    → Leads s (on_start chunk s) × IsOpen (on_start chunk s).1
unfolding on_start
on_start-Leads chunk s h =
    if-cases (λ o. Leads s o × IsOpen o.1) s.started (λ t. (refl, (t, h)))
      (λ f.
        let e = message_start (unwrap_or chunk.id "") chunk.model in
        (
          ap (λ p. step p e) (IsBefore-phase s f)
              ∙ sym (IsOpen-phase (record s { started = true }) (refl, h)),
          (refl, h),
        ))

pub process_chunk-Leads :
    (chunk : ChatStreamChunk) (s : StreamState) → Leads s (process_chunk chunk s)
unfolding process_chunk
process_chunk-Leads chunk s =
    if-cases (Leads s) s.finished (λ t. refl)
      (λ f.
        let start = on_start-Leads chunk s f in
        and_then-Leads s (on_start chunk s) (on_choices chunk.choices chunk.usage) start.0
          (on_choices-Leads chunk.choices chunk.usage (on_start chunk s).1 start.1))
