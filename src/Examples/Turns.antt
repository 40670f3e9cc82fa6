-- ===== src/Examples/Turns.antt =====
-- A conversation with an unanswered and a doubly answered tool use (crates/snaca-engine/src/engine.rs),
-- and repeated tool calls (loop_guard.rs).
use snaca.Base.{
  ℕ, ◌+◌, ◌≤◌, min, String, Bool, true, false, List, [], ◌∷◌, ◌≡◌, refl, Fresh, arith, leb, length,
  if◌then◌else◌, ◌⊎◌,
}
use snaca.Core.Content.{
  ContentBlock, text, tool_use, tool_result, nil, cons, Message, Role, user, assistant, tool, bytes,
  Text,
}
use snaca.Engine.Pairing.{ensure_tool_result_pairing}
use snaca.Engine.Pairing.Answered.{IsAnswered, pairing-IsAnswered}
use snaca.Engine.Pairing.Attached.{IsAttached, pairing-IsAttached}
use snaca.Engine.Pairing.Heads.{emitted_ids, answered_ids}
use snaca.Engine.Pairing.Once.{pairing-Fresh}
use snaca.Engine.LoopGuard.{
  Call, ok, err, occurrences, record_call, replay, record_call-occurrences,
}
use snaca.Engine.History.{
  enforce_history_byte_cap, messages_byte_size, trim_to_conversation_window, conversation_count,
}
use snaca.Engine.History.Budget.{starts_with_tool, enforce_history_byte_cap-IsWithin}
use snaca.Engine.History.Window.{IsSuffix, trim-IsSuffix}
use snaca.Base.{map, drop, ◌-◌}
use snaca.Engine.Collapse.{collapse_old_tool_results}
use snaca.Engine.Collapse.Outline.{outline, collapse-outline}

abbrev Block : Type 0
Block = ContentBlock Bool

abbrev said : Role → List Block → Message Bool
said role content = record { id = "m"; role = role; content = content; created_at = 0 }

abbrev history : List (Message Bool)
history =
    said user (text (bytes "look at both") ∷ [])
    ∷ said assistant (tool_use "a" "Read" true ∷ tool_use "b" "Grep" false ∷ [])
    ∷ said tool
        (tool_result "a" (cons (text (bytes "found")) nil) false ∷ tool_result "a" nil false ∷ [])
    ∷ said tool (tool_result "c" nil true ∷ [])
    ∷ said user (text (bytes "thanks") ∷ [])
    ∷ []

abbrev minted_id : ℕ → String
minted_id n = "minted"

abbrev clock : ℕ → ℕ
clock n = n

pairing-IsAnswered_example : IsAnswered (ensure_tool_result_pairing minted_id clock history)
pairing-IsAnswered_example = pairing-IsAnswered minted_id clock history

pairing-IsAttached_example : IsAttached [] [] (ensure_tool_result_pairing minted_id clock history)
pairing-IsAttached_example = pairing-IsAttached minted_id clock history

emitted_once : Fresh [] (emitted_ids history)
emitted_once = (refl, (refl, tt))

pairing-Fresh_example : Fresh [] (answered_ids (ensure_tool_result_pairing minted_id clock history))
pairing-Fresh_example = pairing-Fresh minted_id clock history emitted_once

abbrev calls : List Call
calls =
    record { tool = "Read"; digest = "x" }
    ∷ record { tool = "Grep"; digest = "x" }
    ∷ record { tool = "Read"; digest = "x" }
    ∷ []

record_call-occurrences_example : (record_call "Read" "x" (replay 3 calls)).0 ≡ (
    if leb 3 (occurrences "Read" "x" calls + 1)
    then err "Read" (occurrences "Read" "x" calls + 1)
    else ok (occurrences "Read" "x" calls + 1))
record_call-occurrences_example = record_call-occurrences 3 calls "Read" "x"

abbrev flag_len : Bool → ℕ
flag_len b = 4

abbrev no_digits : ℕ → Text
no_digits n = []

abbrev kept : List (Message Bool)
kept = enforce_history_byte_cap flag_len no_digits history 20 1 100

enforce_history_byte_cap-IsWithin_example :
    (starts_with_tool kept ≡ false)
    × ((messages_byte_size flag_len no_digits kept ≤ 20) ⊎ (length kept ≤ 1))
enforce_history_byte_cap-IsWithin_example =
    enforce_history_byte_cap-IsWithin flag_len no_digits history 20 1 100 (omega arith)

trim-IsSuffix_example :
    IsSuffix history (trim_to_conversation_window history 2)
    × (conversation_count (trim_to_conversation_window history 2)
        ≡ min 2 (conversation_count history))
trim-IsSuffix_example = trim-IsSuffix history 2 (omega arith)

collapse-outline_example :
    (map outline (collapse_old_tool_results no_digits history 1 2) ≡ map outline history)
    × (drop (length history - 1) (collapse_old_tool_results no_digits history 1 2)
        ≡ drop (length history - 1) history)
collapse-outline_example = collapse-outline no_digits history 1 2
