-- ===== src/Llm/Stream/Chars.antt =====
-- `chars()` on UTF-8 bytes and `preview_args` of crates/snaca-llm/src/stream.rs.
use mathlib.Core.List.{flatten}
use snaca.Base.{
  ℕ, ◌+◌, ◌-◌, Bool, false, List, [], ◌∷◌, ltb, leb, ◌&&◌, length, take, drop, if◌then◌else◌,
}
use snaca.Core.Content.{Text}
use snaca.Llm.Error.{Preview, whole, elided}

abbrev is_continuation : ℕ → Bool
is_continuation b = leb 0x80 b && ltb b 0xC0

abbrev starts_inside : Text → Bool
starts_inside [] = false
starts_inside (b ∷ c) = is_continuation b

-- A byte in front of a list of characters.
abbrev put_byte : ℕ → List Text → List Text
put_byte b [] = (b ∷ []) ∷ []
put_byte b (c ∷ cs) = if starts_inside c then (b ∷ c) ∷ cs else (b ∷ []) ∷ c ∷ cs

unfoldable pub chars : Text → List Text
chars [] = []
chars (b ∷ bs) = put_byte b (chars bs)

abbrev head_chars : ℕ
head_chars = 200

abbrev tail_chars : ℕ
tail_chars = 200

unfoldable pub preview_args : Text → Preview
preview_args args =
    let len = length (chars args) in
    if leb len (head_chars + tail_chars + 32)
    then whole args
    else elided (flatten (take head_chars (chars args))) (len - head_chars - tail_chars)
        (flatten (drop (len - tail_chars) (chars args)))
