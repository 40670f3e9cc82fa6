-- ===== src/Core/Patterns.antt =====
-- Rust's `str` methods on a text pattern, which is not empty: matches do not overlap and are found from
-- the left. A text is its UTF-8 bytes.
pub mod Replaced
use snaca.Base.{
  ℕ, zero, suc, ◌+◌, ◌-◌, Bool, true, false, ◌&&◌, Option, none, some, List, [], ◌∷◌, ◌++◌, ◌==◌,
  length, if◌then◌else◌,
}
use snaca.Core.Content.{Text}

-- `strip_prefix`.
abbrev pub strip_prefix : Text → Text → Option Text
strip_prefix t [] = some t
strip_prefix [] (p ∷ pattern) = none
strip_prefix (b ∷ t) (p ∷ pattern) = if b == p then strip_prefix t pattern else none

abbrev pub starts_with : Text → Text → Bool
starts_with t [] = true
starts_with [] (p ∷ pattern) = false
starts_with (b ∷ t) (p ∷ pattern) = b == p && starts_with t pattern

abbrev pub same_text : Text → Text → Bool
same_text [] [] = true
same_text (a ∷ s) (b ∷ t) = a == b && same_text s t
same_text _ _ = false

-- How many bytes behind its first belong to a match.
abbrev pub skip_of : Text → Bool → ℕ
skip_of pattern true = length pattern - 1
skip_of pattern false = 0

abbrev pub one_if : Bool → ℕ
one_if true = 1
one_if false = 0

-- `matches(pattern).count()`; the first argument is how many bytes are still of a match.
unfoldable pub count_from : ℕ → Text → Text → ℕ
count_from skip pattern [] = 0
count_from (suc skip) pattern (b ∷ t) = count_from skip pattern t
count_from zero pattern (b ∷ t) =
    let hit = starts_with (b ∷ t) pattern in one_if hit + count_from (skip_of pattern hit) pattern t

abbrev pub count_matches : Text → Text → ℕ
count_matches t pattern = count_from 0 pattern t

abbrev pub put : Text → ℕ → Bool → Text → Text
put new b true rest = new ++ rest
put new b false rest = b ∷ rest

-- `replace`.
unfoldable pub replace_from : ℕ → Text → Text → Text → Text
replace_from skip pattern new [] = []
replace_from (suc skip) pattern new (b ∷ t) = replace_from skip pattern new t
replace_from zero pattern new (b ∷ t) =
    let hit = starts_with (b ∷ t) pattern in
    put new b hit (replace_from (skip_of pattern hit) pattern new t)

abbrev pub replace : Text → Text → Text → Text
replace t pattern new = replace_from 0 pattern new t

-- `replacen(pattern, new, 1)`: the first match.
unfoldable pub replace_first : Text → Text → Text → Text
replace_first [] pattern new = []
replace_first (b ∷ t) pattern new =
    let rest = replace_first t pattern new in
    elim (strip_prefix (b ∷ t) pattern) [ some behind ↦ new ++ behind | none ↦ b ∷ rest ]
