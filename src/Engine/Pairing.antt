-- ===== src/Engine/Pairing.antt =====
-- crates/snaca-engine/src/engine.rs, `ensure_tool_result_pairing` and its helpers: the gate on the
-- assembled history. The sets of ids are lists, since the code only asks whether they hold an id;
-- `new_id` and `now` stand for `MessageId::new()` and `Utc::now()` at the n-th minted message.
pub mod Filter
pub mod Answered
pub mod Attached
pub mod Heads
pub mod Rounds
pub mod Once
use snaca.Base.{
  ℕ, suc, String, Bool, true, false, Option, none, some, List, [], ◌∷◌, ◌++◌, map, not, ◌&&◌,
  contains, select, if◌then◌else◌,
}
use snaca.Core.Content.{
  ContentBlock, text, thinking, tool_use, tool_result, image, Message, Role, tool, tool_error,
  tool_use_ids, tool_result_ids, is_tool, is_assistant, bytes,
}

abbrev pub has_tool_use : List String → Bool
has_tool_use [] = false
has_tool_use (id ∷ ids) = true

-- `missing`: the ids of `uses` that the following tool message leaves unanswered.
abbrev pub missing_ids : List String → List String → List String
missing_ids uses answered_here = select (λ id. not (contains answered_here id)) uses

module _ {V : Type 0} where
  -- The test of `filter`: only a result of a seen and unanswered use stays; other blocks pass.
  abbrev pub survives : List String → List String → ContentBlock V → Bool
  survives seen answered (tool_result id body is_error) =
      contains seen id && not (contains answered id)
  survives seen answered _ = true

  -- `answered_ids.insert`.
  abbrev pub record_answer : Bool → ContentBlock V → List String → List String
  record_answer true (tool_result id body is_error) answered = id ∷ answered
  record_answer _ _ answered = answered

  unfoldable pub filter_tool_result_blocks :
      List (ContentBlock V) → List String → List String → List (ContentBlock V) × List String
  filter_tool_result_blocks [] seen answered = ([], answered)
  filter_tool_result_blocks (b ∷ content) seen answered =
      let keep = survives seen answered b in
      let rest = filter_tool_result_blocks content seen (record_answer keep b answered) in
      (if keep then b ∷ rest.0 else rest.0, rest.1)

  -- A filtered tool message is dropped when nothing is left in it.
  abbrev pub kept_message : Message V → List (ContentBlock V) → List (Message V)
  kept_message msg [] = []
  kept_message msg (b ∷ content) = (record msg { content = b ∷ content }) ∷ []

  abbrev pub last_was_assistant_with_tool_use : Option (Message V) → Bool
  last_was_assistant_with_tool_use none = false
  last_was_assistant_with_tool_use (some prev) =
      is_assistant prev.role && has_tool_use (tool_use_ids prev.content)

  abbrev pub synthetic_tool_errors : List String → List (ContentBlock V)
  synthetic_tool_errors = map λ id.
      tool_error id (bytes "tool execution interrupted (orphan tool_use repaired at load time)")

-- The loop's two sets, and how many messages it has minted.
pub record Ids : Type 0 where
  pub seen : List String
  pub answered : List String
  pub minted : ℕ

-- What one round pushes, the new sets, and whether it took the peeked message too.
pub record Turn (V : Type 0) : Type 0 where
  pub pushed : List (Message V)
  pub ids : Ids
  pub took_next : Bool

module _ {V : Type 0} where
  -- A `Role::Tool` message at the top of the loop.
  abbrev pub tool_turn : Option (Message V) → Ids → Message V → Turn V
  tool_turn last ids msg =
      let filtered = filter_tool_result_blocks msg.content ids.seen ids.answered in
      let attached = last_was_assistant_with_tool_use last in
      record {
        pushed = if attached then kept_message msg filtered.0 else [];
        ids = record ids { answered = if attached then filtered.1 else ids.answered };
        took_next = false;
      }

  -- `iter.peek()` and `iter.next()`: the following message, if it is a tool message.
  abbrev pub peeked_tool : Option (Message V) → Option (Message V)
  peeked_tool none = none
  peeked_tool (some next) = if is_tool next.role then some next else none

  abbrev pub assistant_tool_uses : Message V → List String
  assistant_tool_uses msg = if is_assistant msg.role then tool_use_ids msg.content else []

  -- `out.last()` after a round.
  abbrev pub last_pushed : Option (Message V) → List (Message V) → Option (Message V)
  last_pushed last [] = last
  last_pushed last (m ∷ pushed) = last_pushed (some m) pushed

module _ {V : Type 0} (new_id : ℕ → String) (now : ℕ → ℕ) where
  abbrev pub minted_turn : ℕ → List String → List (Message V)
  minted_turn n [] = []
  minted_turn n (id ∷ ids) =
      record {
        id = new_id n;
        role = tool;
        content = synthetic_tool_errors (id ∷ ids);
        created_at = now n;
      }
      ∷ []

  -- An assistant message with tool uses, and the tool turn that answers it.
  abbrev pub answer_turn : List String → Ids → Message V → Option (Message V) → Turn V
  answer_turn uses ids msg none =
      let missing = missing_ids uses [] in
      record {
        pushed = msg ∷ minted_turn ids.minted missing;
        ids = record {
          seen = ids.seen;
          answered = missing ++ ids.answered;
          minted = suc ids.minted;
        };
        took_next = false;
      }
  answer_turn uses ids msg (some next) =
      let filtered = filter_tool_result_blocks next.content ids.seen ids.answered in
      let missing = missing_ids uses (tool_result_ids filtered.0) in
      record {
        pushed = msg ∷ (record next { content = filtered.0 ++ synthetic_tool_errors missing }) ∷ [];
        ids = record ids { answered = missing ++ filtered.1 };
        took_next = true;
      }

  -- Any other message; `uses` is `assistant_tool_uses`.
  abbrev pub push_turn : List String → Ids → Message V → Option (Message V) → Turn V
  push_turn [] ids msg next = record { pushed = msg ∷ []; ids = ids; took_next = false }
  push_turn (id ∷ uses) ids msg next =
      answer_turn (id ∷ uses) (record ids { seen = (id ∷ uses) ++ ids.seen }) msg (peeked_tool next)

  unfoldable pub turn : Option (Message V) → Ids → Message V → Option (Message V) → Turn V
  turn last ids msg next =
      if is_tool msg.role
      then tool_turn last ids msg
      else push_turn (assistant_tool_uses msg) ids msg next

  -- The loop: what it pushes from here on.
  unfoldable pub pair_from : Option (Message V) → Ids → List (Message V) → List (Message V)
  pair_from last ids [] = []
  pair_from last ids (msg ∷ []) = (turn last ids msg none).pushed
  pair_from last ids (msg ∷ next ∷ rest) =
      let t = turn last ids msg (some next) in
      let last' = last_pushed last t.pushed in
      t.pushed ++ (elim t.took_next [
        | true ↦ pair_from last' t.ids rest
        | false ↦ pair_from last' t.ids (next ∷ rest)
      ])

  unfoldable pub ensure_tool_result_pairing : List (Message V) → List (Message V)
  unfolding pair_from turn filter_tool_result_blocks
  ensure_tool_result_pairing = pair_from none (record { seen = []; answered = []; minted = 0 })
