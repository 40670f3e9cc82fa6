-- ===== src/Engine/Collapse/Outline.antt =====
-- crates/snaca-engine/src/engine.rs: what collapsing old results keeps.
use snaca.Base.{
  ℕ, zero, suc, ◌+◌, ◌-◌, String, not, ◌||◌, List, [], ◌∷◌, map, drop, ◌≡◌, refl, ap, ltb, leb,
  ◌==◌, length, contains, Bool-cases, inl, inr,
}
use snaca.Core.Content.{
  Text, ContentBlock, text, thinking, tool_use, tool_result, image, Message, Role, tool_use_ids,
  tool_result_ids,
}
use snaca.Engine.Collapse.{
  collapse_block_if_old_read, collapse_first, collapse_old_tool_results, Named, name_by_id, name_of,
  collapsible_tool_names,
}
use snaca.Engine.History.{tool_result_text_len}

-- What the pairing of tool uses and results reads of a message.
pub record Outline : Type 0 where
  pub id : String
  pub role : Role
  pub uses : List String
  pub answers : List String

module _ {V : Type 0} where
  pub outline : Message V → Outline
  outline m = record {
    id = m.id;
    role = m.role;
    uses = tool_use_ids m.content;
    answers = tool_result_ids m.content;
  }

module _ {V : Type 0} (decimal : ℕ → Text) where
  collapse-tool_use_ids :
      (names : List Named) (threshold : ℕ) (bs : List (ContentBlock V))
      → tool_use_ids (map (collapse_block_if_old_read decimal names threshold) bs) ≡ tool_use_ids bs
  unfolding collapse_block_if_old_read
  collapse-tool_use_ids names threshold [] = refl
  collapse-tool_use_ids names threshold (tool_result id content is_error ∷ bs) =
      elim (Bool-cases (
        is_error
        || (not (contains collapsible_tool_names (name_of names id))
            || ltb (tool_result_text_len content) threshold))) [
              | inl kept ↦ rw kept (collapse-tool_use_ids names threshold bs)
              | inr gone ↦ rw gone (collapse-tool_use_ids names threshold bs)
            ]
  collapse-tool_use_ids names threshold (tool_use id name input ∷ bs) =
      ap (λ ids. id ∷ ids) (collapse-tool_use_ids names threshold bs)
  collapse-tool_use_ids names threshold (text t ∷ bs) = collapse-tool_use_ids names threshold bs
  collapse-tool_use_ids names threshold (thinking t s ∷ bs) =
      collapse-tool_use_ids names threshold bs
  collapse-tool_use_ids names threshold (image s ∷ bs) = collapse-tool_use_ids names threshold bs

  collapse-tool_result_ids :
      (names : List Named) (threshold : ℕ) (bs : List (ContentBlock V))
      → tool_result_ids (map (collapse_block_if_old_read decimal names threshold) bs)
        ≡ tool_result_ids bs
  unfolding collapse_block_if_old_read
  collapse-tool_result_ids names threshold [] = refl
  collapse-tool_result_ids names threshold (tool_result id content is_error ∷ bs) =
      elim (Bool-cases (
        is_error
        || (not (contains collapsible_tool_names (name_of names id))
            || ltb (tool_result_text_len content) threshold))) [
              | inl kept ↦
                  rw kept (ap (λ ids. id ∷ ids) (collapse-tool_result_ids names threshold bs))
              | inr gone ↦
                  rw gone (ap (λ ids. id ∷ ids) (collapse-tool_result_ids names threshold bs))
            ]
  collapse-tool_result_ids names threshold (tool_use id name input ∷ bs) =
      collapse-tool_result_ids names threshold bs
  collapse-tool_result_ids names threshold (text t ∷ bs) =
      collapse-tool_result_ids names threshold bs
  collapse-tool_result_ids names threshold (thinking t s ∷ bs) =
      collapse-tool_result_ids names threshold bs
  collapse-tool_result_ids names threshold (image s ∷ bs) =
      collapse-tool_result_ids names threshold bs

  collapse_first-outline :
      (names : List Named) (threshold cutoff : ℕ) (ms : List (Message V))
      → map outline (collapse_first decimal names threshold cutoff ms) ≡ map outline ms
  unfolding collapse_first outline
  collapse_first-outline names threshold zero ms = refl
  collapse_first-outline names threshold (suc cutoff) [] = refl
  collapse_first-outline names threshold (suc cutoff) (m ∷ ms) =
      rw
        (
          collapse-tool_use_ids names threshold m.content,
          collapse-tool_result_ids names threshold m.content,
          collapse_first-outline names threshold cutoff ms,
        )
        refl

  collapse_first-drop :
      (names : List Named) (threshold cutoff : ℕ) (ms : List (Message V))
      → drop cutoff (collapse_first decimal names threshold cutoff ms) ≡ drop cutoff ms
  unfolding collapse_first
  collapse_first-drop names threshold zero ms = refl
  collapse_first-drop names threshold (suc cutoff) [] = refl
  collapse_first-drop names threshold (suc cutoff) (m ∷ ms) =
      collapse_first-drop names threshold cutoff ms

  -- Collapsing keeps each message's id, role, and the ids of its tool uses and results in their order,
  -- and leaves the `keep_recent` last messages as they are.
  pub collapse-outline :
      (ms : List (Message V)) (keep_recent threshold : ℕ)
      → let out : List (Message V) = collapse_old_tool_results decimal ms keep_recent threshold in
        (map outline out ≡ map outline ms)
        × (drop (length ms - keep_recent) out ≡ drop (length ms - keep_recent) ms)
  unfolding collapse_old_tool_results
  collapse-outline ms keep_recent threshold =
      elim (Bool-cases ((threshold == 0) || leb (length ms) (keep_recent + 1))) [
        | inl short ↦ rw short (refl, refl)
        | inr long ↦ rw long (
          collapse_first-outline (name_by_id ms []) threshold (length ms - keep_recent) ms,
          collapse_first-drop (name_by_id ms []) threshold (length ms - keep_recent) ms,
        )
      ]
