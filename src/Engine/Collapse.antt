-- ===== src/Engine/Collapse.antt =====
-- crates/snaca-engine/src/engine.rs, `collapse_old_tool_results`: old results of read-only tools are
-- shortened. `decimal` is the text of a number.
pub mod Outline
use snaca.Base.{
  ℕ, zero, suc, ◌+◌, ◌-◌, String, Bool, true, false, not, ◌||◌, List, [], ◌∷◌, ◌++◌, map, contains,
  ltb, leb, ◌==◌, str_eq, length, if◌then◌else◌,
}
use snaca.Core.Content.{
  Text, bytes, ContentBlock, text, thinking, tool_use, tool_result, image, Blocks, nil, cons,
  Message,
}
use snaca.Engine.History.{tool_result_text_len}

abbrev pub collapsible_tool_names : List String
collapsible_tool_names = "Read" ∷ "Grep" ∷ "Glob" ∷ "LS" ∷ "MemoryRead" ∷ "TaskOutput" ∷ []

-- The map from ids to names, the last insertion first.
pub record Named : Type 0 where
  pub id : String
  pub name : String

-- The empty name where the id has none.
unfoldable pub name_of : List Named → String → String
name_of [] id = ""
name_of (n ∷ names) id = if str_eq n.id id then n.name else name_of names id

module _ {V : Type 0} where
  unfoldable pub add_names : List (ContentBlock V) → List Named → List Named
  add_names [] names = names
  add_names (tool_use id name input ∷ blocks) names =
      add_names blocks (record { id = id; name = name } ∷ names)
  add_names (_ ∷ blocks) names = add_names blocks names

  unfoldable pub name_by_id : List (Message V) → List Named → List Named
  unfolding add_names
  name_by_id [] names = names
  name_by_id (m ∷ ms) names = name_by_id ms (add_names m.content names)

module _ {V : Type 0} (decimal : ℕ → Text) where
  abbrev pub elided : String → ℕ → Blocks V
  elided tool_name total =
      cons
        (text (
          bytes "<"
          ++ bytes tool_name
          ++ bytes " result: "
          ++ decimal total
          ++ bytes " bytes elided to save context; call again if you need the full body>"))
        nil

  unfoldable pub collapse_block_if_old_read : List Named → ℕ → ContentBlock V → ContentBlock V
  unfolding name_of tool_result_text_len
  collapse_block_if_old_read names threshold (tool_result id content is_error) =
      let tool_name = name_of names id in
      let total = tool_result_text_len content in
      if is_error || (not (contains collapsible_tool_names tool_name) || ltb total threshold)
      then tool_result id content is_error
      else tool_result id (elided tool_name total) is_error
  collapse_block_if_old_read names threshold block = block

  -- The messages before the cutoff.
  unfoldable pub collapse_first : List Named → ℕ → ℕ → List (Message V) → List (Message V)
  unfolding collapse_block_if_old_read
  collapse_first names threshold zero ms = ms
  collapse_first names threshold (suc cutoff) [] = []
  collapse_first names threshold (suc cutoff) (m ∷ ms) =
      (record m { content = map (collapse_block_if_old_read names threshold) m.content })
      ∷ collapse_first names threshold cutoff ms

  unfoldable pub collapse_old_tool_results : List (Message V) → ℕ → ℕ → List (Message V)
  unfolding collapse_first name_by_id
  collapse_old_tool_results messages keep_recent threshold =
      if (threshold == 0) || leb (length messages) (keep_recent + 1)
      then messages
      else let cutoff = length messages - keep_recent in
        collapse_first (name_by_id messages []) threshold cutoff messages
