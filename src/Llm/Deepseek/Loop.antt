-- ===== src/Llm/Deepseek/Loop.antt =====
-- crates/snaca-llm/src/deepseek/sse.rs: `parse_byte_stream`, the loop over the lines of a stream. The
-- message of a JSON error is left out.
use snaca.Base.{
  Bool, true, false, not, ◌&&◌, Option, none, some, List, [], ◌∷◌, ◌++◌, if◌then◌else◌,
}
use snaca.Core.Content.{Text, bytes}
use snaca.Core.Patterns.{strip_prefix, same_text}
use snaca.Llm.Json.{trim_start}
use snaca.Llm.Lines.{feed, without_return}
use snaca.Llm.Stream.{StreamEvent, message_stop}
use snaca.Llm.Deepseek.{ChatStreamChunk, StreamState, fresh, close_current, process_chunk}

-- After a line the loop goes on, has met the end mark, or fails on a payload that is no chunk.
pub data Ending : Type 0 where
  going done malformed : Ending

pub record Parse : Type 0 where
  pub events : List StreamEvent
  pub state : StreamState
  pub ending : Ending

-- An item of the byte stream: a chunk, as text, or the error that `chunk?` passes on.
pub data Received : Type 0 where
  received_chunk : Text → Received
  transport_error : Received

abbrev pub final_stop : StreamState → List StreamEvent
final_stop s = if s.started && not s.finished then message_stop ∷ [] else []

module _ (from_str : Text → Option ChatStreamChunk) where
  abbrev pub on_parsed : Option ChatStreamChunk → StreamState → Parse
  on_parsed none s = record { events = []; state = s; ending = malformed }
  on_parsed (some chunk) s =
      let (events, s') = process_chunk chunk s in
      record { events = events; state = s'; ending = going }

  -- At the end mark an unfinished message is stopped and marked as finished; the stop of its block is discarded.
  abbrev pub on_payload : Text → StreamState → Parse
  on_payload payload s =
      if same_text payload (bytes "[DONE]")
      then record {
        events = final_stop s;
        state =
            if s.started && not s.finished
            then record (close_current s).1 { finished = true }
            else s;
        ending = done;
      }
      else on_parsed (from_str payload) s

  abbrev pub on_stripped : Option Text → StreamState → Parse
  on_stripped none s = record { events = []; state = s; ending = going }
  on_stripped (some rest) s = on_payload (trim_start rest) s

  unfoldable pub on_line : Text → StreamState → Parse
  unfolding process_chunk
  on_line line s = on_stripped (strip_prefix (without_return line) (bytes "data:")) s

  -- The events that the stream yields, and whether an error ends it.
  abbrev pub or_rest : Parse → (StreamState → List StreamEvent × Bool) → List StreamEvent × Bool
  or_rest p rest =
      let (later, failed) : List StreamEvent × Bool = elim p.ending [
        | going ↦ rest p.state
        | done ↦ (final_stop p.state, false)
        | malformed ↦ ([], true)
      ] in
      (p.events ++ later, failed)

  -- The lines that a chunk ends, and then what comes after the chunk.
  unfoldable pub parse_lines :
      List Text → (StreamState → List StreamEvent × Bool) → StreamState → List StreamEvent × Bool
  unfolding on_line
  parse_lines [] next s = next s
  parse_lines (line ∷ lines) next s = or_rest (on_line line s) (parse_lines lines next)

  -- The loop over what is received; an error of the transport ends it, and no stop is made up.
  unfoldable pub parse_from : Text → List Received → StreamState → List StreamEvent × Bool
  unfolding parse_lines feed
  parse_from buf [] s = (final_stop s, false)
  parse_from buf (transport_error ∷ input) s = ([], true)
  parse_from buf (received_chunk text ∷ input) s =
      let (lines, buf') = feed buf text in parse_lines lines (parse_from buf' input) s

  unfoldable pub parse_byte_stream : List Received → List StreamEvent × Bool
  unfolding parse_from
  parse_byte_stream input = parse_from [] input fresh
