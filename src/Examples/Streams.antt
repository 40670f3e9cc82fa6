-- ===== src/Examples/Streams.antt =====
-- A response, and a stream of two blocks that come in turns (crates/snaca-llm/src/stream.rs). The JSON
-- values are the two Booleans.
use snaca.Base.{
  Bool, true, false, Option, none, some, List, [], ◌∷◌, ◌≡◌, refl, ◌==◌, select, arith,
}
use snaca.Core.Content.{text, thinking, tool_use, assistant, Text, bytes}
use snaca.Llm.Error.{ok, err, provider}
use snaca.Llm.Json.{Json, is_blank}
use snaca.Llm.Response.{StopReason, MessageResponse}
use snaca.Llm.Stream.{
  StreamEvent, message_start, content_block_start, content_block_delta, content_block_stop,
  message_stop, error, text_start, tool_use_start, text_delta, tool_input_json, new, ingest_all,
  synthesize_events, finalize,
}
use snaca.Llm.Stream.Blocks.{get}
use snaca.Llm.Stream.RoundTrip.{InputsReadBack, streamed, finalize-synthesize_events}
use snaca.Llm.Stream.Interleaving.{concerns, ingest_all-concerns, finalize-first_error}

abbrev print_flag : Bool → Text
print_flag true = bytes "true"
print_flag false = bytes "false"

abbrev parse_flag : Text → Option Bool
parse_flag [] = none
parse_flag (b ∷ t) = some (b == 116)

parse-print_flag : (v : Bool) → parse_flag (print_flag v) ≡ some v
parse-print_flag true = refl
parse-print_flag false = refl

is_blank-print_flag : (v : Bool) → is_blank (print_flag v) ≡ false
unfolding is_blank
is_blank-print_flag true = refl
is_blank-print_flag false = refl

abbrev flags : Json
flags = record { Value = Bool; to_string = print_flag; from_str = parse_flag; empty_object = false }

abbrev reply : MessageResponse Bool
reply = record {
  id = "r1";
  message = record {
    id = "m1";
    role = assistant;
    content =
        thinking (bytes "hm") (some "sig") ∷ text (bytes "on it") ∷ tool_use "a" "Read" true ∷ [];
    created_at = 5;
  };
  usage = record {
    input_tokens = 3;
    output_tokens = 4;
    cache_creation_input_tokens = none;
    cache_read_input_tokens = some 1;
  };
  stop_reason = StopReason.tool_use;
}

reply_reads_back : InputsReadBack flags reply.message.content
reply_reads_back = ((parse-print_flag true, is_blank-print_flag true), tt)

finalize-synthesize_events_example :
    finalize flags "m2" 9 (ingest_all new (synthesize_events flags reply))
    ≡ ok (record {
      id = "r1";
      message = record {
        id = "m2";
        role = assistant;
        content = streamed flags reply.message.content;
        created_at = 9;
      };
      usage = reply.usage;
      stop_reason = StopReason.tool_use;
    })
finalize-synthesize_events_example =
    finalize-synthesize_events flags "m2" 9 reply (omega arith) reply_reads_back

abbrev woven : List StreamEvent
woven =
    content_block_start 0 text_start
    ∷ content_block_start 1 (tool_use_start "a" "Read")
    ∷ content_block_delta 0 (text_delta (bytes "on"))
    ∷ content_block_delta 1 (tool_input_json (bytes "tr"))
    ∷ content_block_stop 0
    ∷ content_block_delta 1 (tool_input_json (bytes "ue"))
    ∷ []

ingest_all-concerns_example :
    get 1 (ingest_all new woven).blocks ≡ get 1 (ingest_all new (select (concerns 1) woven)).blocks
ingest_all-concerns_example = ingest_all-concerns 1 new woven

abbrev broken : List StreamEvent
broken =
    message_start "r1" none
    ∷ error (bytes "overloaded")
    ∷ content_block_start 0 text_start
    ∷ error (bytes "again")
    ∷ message_stop
    ∷ []

finalize-first_error_example :
    finalize flags "m2" 9 (ingest_all new broken)
    ≡ err (provider (bytes "stream_error") (bytes "overloaded"))
finalize-first_error_example = finalize-first_error flags "m2" 9 broken (bytes "overloaded") refl
