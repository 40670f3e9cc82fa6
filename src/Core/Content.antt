-- ===== src/Core/Content.antt =====
-- crates/snaca-core/src/content.rs and message.rs: content blocks and messages. A JSON value is
-- `serde_json::Value`, so its type is the parameter `V`; a text is the list of its UTF-8 bytes, and
-- ids and tool names, which are only compared, are `String`.
use Prim.Native.Char.{code}
use snaca.Base.{ℕ, String, Bool, true, false, Option, List, [], ◌∷◌}

abbrev pub Text : Type 0
Text = List ℕ

-- The bytes of an ASCII literal.
abbrev pub bytes : String → Text
bytes String.[] = []
bytes (String.◌∷◌ c s) = code c ∷ bytes s

-- `ImageSource`.
pub data ImageSource : Type 0 where
  url : String → ImageSource
  base64 : String → String → ImageSource

-- `ContentBlock`; `Blocks` is the `Vec<ContentBlock>` inside a tool result.
mutual
  pub data ContentBlock (V : Type 0) : Type 0 where
    text : Text → ContentBlock V
    thinking : Text → Option String → ContentBlock V
    tool_use : String → String → V → ContentBlock V
    tool_result : String → Blocks V → Bool → ContentBlock V
    image : ImageSource → ContentBlock V

  pub data Blocks (V : Type 0) : Type 0 where
    nil : Blocks V
    cons : ContentBlock V → Blocks V → Blocks V

pub data Role : Type 0 where
  system user assistant tool : Role

-- `created_at` is a time stamp.
pub record Message (V : Type 0) : Type 0 where
  pub id : String
  pub role : Role
  pub content : List (ContentBlock V)
  pub created_at : ℕ

module _ {V : Type 0} where
  -- `ContentBlock::tool_error`.
  abbrev pub tool_error : String → Text → ContentBlock V
  tool_error tool_use_id message = tool_result tool_use_id (cons (text message) nil) true

  -- The ids of the `ToolUse` blocks, as `filter_map` collects them.
  abbrev pub tool_use_ids : List (ContentBlock V) → List String
  tool_use_ids [] = []
  tool_use_ids (tool_use id name input ∷ blocks) = id ∷ tool_use_ids blocks
  tool_use_ids (_ ∷ blocks) = tool_use_ids blocks

  -- The ids that the `ToolResult` blocks answer.
  abbrev pub tool_result_ids : List (ContentBlock V) → List String
  tool_result_ids [] = []
  tool_result_ids (tool_result id body is_error ∷ blocks) = id ∷ tool_result_ids blocks
  tool_result_ids (_ ∷ blocks) = tool_result_ids blocks

abbrev pub is_tool : Role → Bool
is_tool tool = true
is_tool _ = false

abbrev pub is_assistant : Role → Bool
is_assistant assistant = true
is_assistant _ = false
