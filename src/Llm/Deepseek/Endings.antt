-- ===== src/Llm/Deepseek/Endings.antt =====
-- crates/snaca-llm/src/deepseek/sse.rs: how the events of a whole stream end.
use snaca.Base.{
  Bool, true, false, not, ◌&&◌, Option, none, some, List, [], ◌∷◌, ◌++◌, ◌≡◌, ◌≢◌, refl, sym, subst,
  ◌∙◌, ◌⊎◌, inl, inr, if◌then◌else◌, if-cases,
}
use snaca.Core.Content.{Text, bytes}
use snaca.Core.Patterns.{strip_prefix, same_text}
use snaca.Llm.Json.{trim_start}
use snaca.Llm.Lines.{feed, without_return}
use snaca.Llm.Stream.{StreamEvent, message_stop}
use snaca.Llm.Deepseek.{ChatStreamChunk, StreamState, close_current, fresh}
use snaca.Llm.Deepseek.Loop.{
  Ending, going, done, malformed, Parse, final_stop, on_parsed, on_payload, on_stripped, on_line,
  or_rest, parse_lines, parse_from, Received, received_chunk, transport_error, parse_byte_stream,
}
use snaca.Llm.Deepseek.Phases.{
  Phase, before, opened, closed, broken, phase_after, phase_of, phase_after-append, Leads,
  process_chunk-Leads,
}

-- No message was opened, or it was closed.
abbrev pub IsSettled : Phase → Type 0
IsSettled p = (p ≡ before) ⊎ (p ≡ closed)

final_stop-IsSettled : (s : StreamState) → IsSettled (phase_after (phase_of s) (final_stop s))
final_stop-IsSettled s = by_flags s.started s.finished
  where
    by_flags :
        (b c : Bool)
        → IsSettled (
            phase_after
              (if b then (if c then closed else opened) else before)
              (if b && not c then message_stop ∷ [] else []))
    by_flags true true = inr refl
    by_flags true false = inr refl
    by_flags false c = inl refl

and_false : (b : Bool) → (b && false) ≡ false
and_false true = refl
and_false false = refl

phase_of-unbroken : (s : StreamState) → phase_of s ≢ broken
phase_of-unbroken s = by_flags s.started s.finished
  where
    by_flags : (b c : Bool) → (if b then (if c then closed else opened) else before) ≢ broken
    by_flags true true = λ f. cc
    by_flags true false = λ f. cc
    by_flags false c = λ f. cc

-- What a line does to the message, by the way the loop goes on.
abbrev IsOrderly : StreamState → Ending → List StreamEvent → StreamState → Type 0
IsOrderly s going events s' = Leads s (events, s')
IsOrderly s done events s' = IsSettled (phase_after (phase_of s) events) × (final_stop s' ≡ [])
IsOrderly s malformed events s' = events ≡ []

unfoldable LineIsOrderly : StreamState → Parse → Type 0
LineIsOrderly s p = IsOrderly s p.ending p.events p.state

-- None of a stream's events is out of order, and without an error the message is not left open.
abbrev pub EndsFrom : Phase → List StreamEvent × Bool → Type 0
EndsFrom p (events, true) = phase_after p events ≢ broken
EndsFrom p (events, false) = IsSettled (phase_after p events)

module _ (from_str : Text → Option ChatStreamChunk) where
  on_parsed-IsOrderly :
      (o : Option ChatStreamChunk) (s : StreamState) → LineIsOrderly s (on_parsed from_str o s)
  unfolding LineIsOrderly
  on_parsed-IsOrderly none s = refl
  on_parsed-IsOrderly (some chunk) s = process_chunk-Leads chunk s

  on_payload-IsOrderly :
      (payload : Text) (s : StreamState) → LineIsOrderly s (on_payload from_str payload s)
  unfolding LineIsOrderly close_current
  on_payload-IsOrderly payload s =
      if-cases (LineIsOrderly s) (same_text payload (bytes "[DONE]"))
        (λ d. (
          final_stop-IsSettled s,
          if-cases (λ s'. final_stop s' ≡ []) (s.started && not s.finished)
              (λ t. rw (and_false s.started) refl) (λ f. rw f refl),
        ))
        (λ d. on_parsed-IsOrderly (from_str payload) s)

  on_stripped-IsOrderly :
      (o : Option Text) (s : StreamState) → LineIsOrderly s (on_stripped from_str o s)
  unfolding LineIsOrderly
  on_stripped-IsOrderly none s = refl
  on_stripped-IsOrderly (some rest) s = on_payload-IsOrderly (trim_start rest) s

  on_line-IsOrderly : (line : Text) (s : StreamState) → LineIsOrderly s (on_line from_str line s)
  unfolding on_line
  on_line-IsOrderly line s =
      on_stripped-IsOrderly (strip_prefix (without_return line) (bytes "data:")) s

  grown-EndsFrom :
      (p : Phase) (events : List StreamEvent) (later : List StreamEvent × Bool)
      → EndsFrom (phase_after p events) later
      → EndsFrom p (events ++ later.0, later.1)
  grown-EndsFrom p events (later, true) h = λ e. h (sym (phase_after-append p events later) ∙ e)
  grown-EndsFrom p events (later, false) h =
      subst IsSettled (sym (phase_after-append p events later)) h

  or_rest-EndsFrom :
      (s : StreamState) (ending : Ending) (events : List StreamEvent) (s' : StreamState)
      (rest : StreamState → List StreamEvent × Bool)
      → IsOrderly s ending events s'
      → EndsFrom (phase_of s') (rest s')
      → EndsFrom
          (phase_of s)
          (or_rest from_str (record { events = events; state = s'; ending = ending }) rest)
  or_rest-EndsFrom s going events s' rest h ih =
      grown-EndsFrom (phase_of s) events (rest s') (subst (λ p. EndsFrom p (rest s')) (sym h) ih)
  or_rest-EndsFrom s done events s' rest h ih =
      grown-EndsFrom (phase_of s) events (final_stop s', false) (rw h.1 h.0)
  or_rest-EndsFrom s malformed events s' rest h ih = rw h (phase_of-unbroken s)

  parse_lines-EndsFrom :
      (lines : List Text) (next : StreamState → List StreamEvent × Bool)
      → ((s : StreamState) → EndsFrom (phase_of s) (next s))
      → (s : StreamState) → EndsFrom (phase_of s) (parse_lines from_str lines next s)
  unfolding parse_lines LineIsOrderly
  parse_lines-EndsFrom [] next h s = h s
  parse_lines-EndsFrom (line ∷ lines) next h s =
      let p = on_line from_str line s in
      or_rest-EndsFrom s p.ending p.events p.state (parse_lines from_str lines next)
        (on_line-IsOrderly line s) (parse_lines-EndsFrom lines next h p.state)

  parse_from-EndsFrom :
      (buf : Text) (input : List Received) (s : StreamState)
      → EndsFrom (phase_of s) (parse_from from_str buf input s)
  unfolding parse_from
  parse_from-EndsFrom buf [] s = final_stop-IsSettled s
  parse_from-EndsFrom buf (transport_error ∷ input) s = phase_of-unbroken s
  parse_from-EndsFrom buf (received_chunk text ∷ input) s =
      parse_lines-EndsFrom (feed buf text).0 (parse_from from_str (feed buf text).1 input)
        (parse_from-EndsFrom (feed buf text).1 input) s

  -- However a stream is cut into chunks, whatever its lines hold and wherever the transport fails, the
  -- events that parse_byte_stream yields open the message first and at most once and close it at most
  -- once and last. Unless an error of the transport or of a malformed payload ends the stream, no opened
  -- message is left unclosed.
  pub parse_byte_stream-EndsFrom :
      (input : List Received) → EndsFrom before (parse_byte_stream from_str input)
  unfolding parse_byte_stream
  parse_byte_stream-EndsFrom input = parse_from-EndsFrom [] input fresh
