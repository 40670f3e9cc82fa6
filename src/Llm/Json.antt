-- ===== src/Llm/Json.antt =====
-- `serde_json` as the stream code uses it: values, the compact printer, the parser and `{}`.
use snaca.Base.{
  ℕ, Bool, true, false, Option, some, [], ◌∷◌, ◌≡◌, ◌&&◌, ◌||◌, ◌==◌, leb, if◌then◌else◌,
}
use snaca.Core.Content.{Text}

-- `char::is_whitespace` on one, two and three bytes of UTF-8.
abbrev space1 : ℕ → Bool
space1 a = a == 32 || (leb 9 a && leb a 13)

abbrev space2 : ℕ → ℕ → Bool
space2 a b = a == 0xC2 && (b == 0x85 || b == 0xA0)

abbrev space3 : ℕ → ℕ → ℕ → Bool
space3 a b c =
    (a == 0xE1 && b == 0x9A && c == 0x80)
    || (a == 0xE3 && b == 0x80 && c == 0x80)
    || (a == 0xE2
        && ((b == 0x81 && c == 0x9F)
            || (b == 0x80 && ((leb 0x80 c && leb c 0x8A) || c == 0xA8 || c == 0xA9 || c == 0xAF))))

-- `text.trim().is_empty()`.
unfoldable pub is_blank : Text → Bool
is_blank [] = true
is_blank (a ∷ []) = space1 a
is_blank (a ∷ b ∷ []) = (space1 a && space1 b) || space2 a b
is_blank (a ∷ b ∷ c ∷ rest) =
    let after1 = is_blank (b ∷ c ∷ rest) in
    let after2 = is_blank (c ∷ rest) in
    let after3 = is_blank rest in
    if space1 a
    then after1
    else if space2 a b
    then after2
    else if space3 a b c
    then after3
    else false

-- `str::trim_start`.
unfoldable pub trim_start : Text → Text
trim_start [] = []
trim_start (a ∷ []) = if space1 a then [] else a ∷ []
trim_start (a ∷ b ∷ []) =
    let after1 = trim_start (b ∷ []) in
    if space1 a then after1 else if space2 a b then [] else a ∷ b ∷ []
trim_start (a ∷ b ∷ c ∷ rest) =
    let after1 = trim_start (b ∷ c ∷ rest) in
    let after2 = trim_start (c ∷ rest) in
    let after3 = trim_start rest in
    if space1 a
    then after1
    else if space2 a b
    then after2
    else if space3 a b c
    then after3
    else a ∷ b ∷ c ∷ rest

pub record Json : Type 1 where
  pub Value : Type 0
  pub to_string : Value → Text
  pub from_str : Text → Option Value
  pub empty_object : Value

-- A value whose text is not blank and is parsed back.
abbrev pub ReadsBack : (json : Json) → json.Value → Type 0
ReadsBack json v =
    (json.from_str (json.to_string v) ≡ some v) × (is_blank (json.to_string v) ≡ false)
