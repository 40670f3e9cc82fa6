-- ===== src/Engine/History/Budget.antt =====
-- crates/snaca-engine/src/engine.rs: the byte budget of the history.
use snaca.Base.{
  ℕ, zero, suc, ◌+◌, ◌-◌, ◌≤◌, max, Bool, false, List, [], ◌∷◌, map, ◌≡◌, refl, length, ltb, leb,
  ◌==◌, arith, ◌⊎◌, inl, inr, Bool-cases,
}
use snaca.Core.Content.{
  Text, ContentBlock, text, thinking, tool_use, tool_result, image, Message, is_tool,
}
use snaca.Engine.History.{
  tool_result_text_len, block_byte_size, blocks_byte_size, message_byte_size, messages_byte_size,
  clear_block, freed_by, freed, clear_old, drop_oldest, drop_leading_tools, clamp_message,
  enforce_history_byte_cap,
}

module _ {V : Type 0} where
  abbrev pub starts_with_tool : List (Message V) → Bool
  starts_with_tool [] = false
  starts_with_tool (m ∷ ms) = is_tool m.role

module _ {V : Type 0} (json_len : V → ℕ) (decimal : ℕ → Text) where
  -- Within the budget, or one message that alone is over it.
  abbrev IsWithin : ℕ → List (Message V) → Type 0
  IsWithin max_bytes ms = (messages_byte_size json_len decimal ms ≤ max_bytes) ⊎ (length ms ≤ 1)

  clear_block-size :
      (b : ContentBlock V)
      → block_byte_size json_len decimal (clear_block json_len decimal b)
          + freed_by json_len decimal b
        ≡ block_byte_size json_len decimal b
  unfolding block_byte_size tool_result_text_len
  clear_block-size (tool_result id content is_error) = ground arith
  clear_block-size (text t) = omega arith
  clear_block-size (thinking t s) = omega arith
  clear_block-size (tool_use id name input) = omega arith
  clear_block-size (image s) = omega arith

  clear-size :
      (bs : List (ContentBlock V))
      → blocks_byte_size json_len decimal (map (clear_block json_len decimal) bs)
          + freed json_len decimal bs
        ≡ blocks_byte_size json_len decimal bs
  unfolding blocks_byte_size
  clear-size [] = refl
  clear-size (b ∷ bs) = omega (arith, clear_block-size b, clear-size bs)

  drop_oldest-IsWithin :
      (max_bytes total : ℕ) (ms : List (Message V))
      → messages_byte_size json_len decimal ms ≤ total
      → IsWithin max_bytes (drop_oldest json_len decimal max_bytes total ms)
  unfolding drop_oldest messages_byte_size
  drop_oldest-IsWithin max_bytes total [] h = inr (omega arith)
  drop_oldest-IsWithin max_bytes total (m ∷ []) h = inr (omega arith)
  drop_oldest-IsWithin max_bytes total (m ∷ next ∷ ms) h = elim (Bool-cases (ltb max_bytes total)) [
    | inl over ↦ rw over (
        drop_oldest-IsWithin max_bytes (total - message_byte_size json_len decimal m) (next ∷ ms)
          (omega (arith, h)))
    | inr fits ↦ rw fits (inl (ground (arith, h, fits)))
  ]

  drop_leading_tools-shrinks :
      (ms : List (Message V))
      → (messages_byte_size json_len decimal (drop_leading_tools json_len decimal ms)
          ≤ messages_byte_size json_len decimal ms)
        × (length (drop_leading_tools json_len decimal ms) ≤ length ms)
  unfolding drop_leading_tools messages_byte_size
  drop_leading_tools-shrinks [] = (omega arith, omega arith)
  drop_leading_tools-shrinks (m ∷ ms) =
      let ih = drop_leading_tools-shrinks ms in
      elim (Bool-cases (is_tool m.role)) [
        | inl orphan ↦ rw orphan (omega (arith, ih.0), omega (arith, ih.1))
        | inr kept ↦ rw kept (omega arith, omega arith)
      ]

  drop_leading_tools-head :
      (ms : List (Message V)) → starts_with_tool (drop_leading_tools json_len decimal ms) ≡ false
  unfolding drop_leading_tools
  drop_leading_tools-head [] = refl
  drop_leading_tools-head (m ∷ ms) = ground (arith, drop_leading_tools-head ms)

  -- The running total of phase A stays above the size of the messages.
  clear_old-size :
      (max_bytes left total extra : ℕ) (ms : List (Message V))
      → messages_byte_size json_len decimal ms + extra ≤ total
      → messages_byte_size json_len decimal (clear_old json_len decimal max_bytes total left ms).1
          + extra
        ≤ (clear_old json_len decimal max_bytes total left ms).0
  unfolding clear_old messages_byte_size message_byte_size
  clear_old-size max_bytes zero total extra ms h = h
  clear_old-size max_bytes (suc left) total extra [] h = h
  clear_old-size max_bytes (suc left) total extra (m ∷ ms) h =
      let s : ℕ = message_byte_size json_len decimal m in
      let s' : ℕ =
        blocks_byte_size json_len decimal (map (clear_block json_len decimal) m.content) in
      elim (Bool-cases (leb total max_bytes)) [
        | inl fits ↦ rw fits h
        | inr over ↦ elim (Bool-cases (is_tool m.role)) [
          | inl result ↦
              rw (over, result)
                (omega (
                  arith,
                  clear_old-size max_bytes left (total - freed json_len decimal m.content)
                      (extra + s') ms (omega (arith, h, clear-size m.content)),
                ))
          | inr other ↦
              rw (over, other)
                (omega
                  (arith, clear_old-size max_bytes left total (extra + s) ms (omega (arith, h))))
        ]
      ]

  IsWithin-shrinks :
      (max_bytes : ℕ) (ms : List (Message V))
      → IsWithin max_bytes ms
      → IsWithin max_bytes (drop_leading_tools json_len decimal ms)
  IsWithin-shrinks max_bytes ms (inl fits) =
      inl (omega (arith, fits, (drop_leading_tools-shrinks ms).0))
  IsWithin-shrinks max_bytes ms (inr one) =
      inr (omega (arith, one, (drop_leading_tools-shrinks ms).1))

  -- With a byte budget, the history that is left does not start with a tool message, and it is within
  -- the budget or has at most one message.
  pub enforce_history_byte_cap-IsWithin :
      (ms : List (Message V)) (max_bytes keep_recent per_result_max : ℕ)
      → 1 ≤ max_bytes
      → let kept : List (Message V) =
          enforce_history_byte_cap json_len decimal ms max_bytes keep_recent per_result_max in
        (starts_with_tool kept ≡ false)
        × ((messages_byte_size json_len decimal kept ≤ max_bytes) ⊎ (length kept ≤ 1))
  unfolding enforce_history_byte_cap
  enforce_history_byte_cap-IsWithin [] zero keep_recent per_result_max h = absurd (omega (arith, h))
  enforce_history_byte_cap-IsWithin [] (suc n) keep_recent per_result_max h =
      let set : (suc n == 0) ≡ false = ground arith in rw set (refl, inr (omega arith))
  enforce_history_byte_cap-IsWithin (m ∷ ms) zero keep_recent per_result_max h =
      absurd (omega (arith, h))
  enforce_history_byte_cap-IsWithin (m ∷ ms) (suc n) keep_recent per_result_max h =
      let set : (suc n == 0) ≡ false = ground arith in
      let clamped : List (Message V) =
        map (clamp_message json_len decimal per_result_max) (m ∷ ms) in
      let total : ℕ = messages_byte_size json_len decimal clamped in
      let cleared =
        clear_old json_len decimal (suc n) total (length clamped - max keep_recent 1) clamped in
      let dropped : List (Message V) = drop_oldest json_len decimal (suc n) cleared.0 cleared.1 in
      rw set (
        drop_leading_tools-head dropped,
        IsWithin-shrinks (suc n) dropped (
            drop_oldest-IsWithin (suc n) cleared.0 cleared.1 (
              omega (
                arith,
                clear_old-size (suc n) (length clamped - max keep_recent 1) total 0 clamped
                    (omega arith),
              ))),
      )
