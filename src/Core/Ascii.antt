-- ===== src/Core/Ascii.antt =====
-- ASCII on bytes, as Rust's `u8` methods have it.
use snaca.Base.{ℕ, ◌+◌, Bool, true, false, ◌&&◌, [], ◌∷◌, ◌==◌, leb, if◌then◌else◌}
use snaca.Core.Content.{Text}

-- `to_ascii_lowercase`.
abbrev pub lower : ℕ → ℕ
lower b = if leb 65 b && leb b 90 then b + 32 else b

-- `eq_ignore_ascii_case` on two bytes.
unfoldable pub same_letter : ℕ → ℕ → Bool
same_letter a b = lower a == lower b

-- Whether a text begins with a pattern, by that equality.
unfoldable pub starts_ci : Text → Text → Bool
unfolding same_letter
starts_ci t [] = true
starts_ci [] (p ∷ pattern) = false
starts_ci (b ∷ t) (p ∷ pattern) = same_letter b p && starts_ci t pattern
