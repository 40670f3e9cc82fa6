-- ===== src/Llm/Lines.antt =====
-- The line buffer that the two `parse_byte_stream` share (crates/snaca-llm/src/anthropic/sse.rs and
-- crates/snaca-llm/src/deepseek/sse.rs). A chunk is the text that `String::from_utf8_lossy` makes of
-- the received bytes.
use mathlib.Core.List.{reverse, flatten}
use snaca.Base.{
  ℕ, false, List, [], ◌∷◌, ◌++◌, append-nil, append_assoc, ◌≡◌, refl, sym, ap, ◌∙◌, ◌==◌,
  if◌then◌else◌, Bool-cases, inl, inr,
}
use snaca.Core.Content.{Text}

-- `if line.ends_with('\r') { line.pop() }`.
abbrev drop_return : Text → Text
drop_return [] = []
drop_return (b ∷ line) = if b == 13 then line else b ∷ line

abbrev pub without_return : Text → Text
without_return line = reverse (drop_return (reverse line))

-- The lines that a text ends, and the buffer after the last of them.
abbrev pub onto : ℕ → List Text × Text → List Text × Text
onto b ([], rest) = ([], b ∷ rest)
onto b (line ∷ lines, rest) = ((b ∷ line) ∷ lines, rest)

abbrev pub break_line : List Text × Text → List Text × Text
break_line (lines, rest) = ([] ∷ lines, rest)

unfoldable pub split_lines : Text → List Text × Text
split_lines [] = ([], [])
split_lines (b ∷ t) =
    let later = split_lines t in if b == 10 then break_line later else onto b later

-- The `while` loop on a buffer that a chunk was put behind.
unfoldable pub feed : Text → Text → List Text × Text
unfolding split_lines
feed buf chunk = split_lines (buf ++ chunk)

-- The lines of a stream, in order.
unfoldable pub lines_from : Text → List Text → List Text
unfolding feed
lines_from buf [] = []
lines_from buf (chunk ∷ chunks) =
    let (lines, buf') = feed buf chunk in lines ++ lines_from buf' chunks

abbrev joined : List Text × Text → Text → List Text × Text
joined (lines, rest) t = (lines ++ (split_lines (rest ++ t)).0, (split_lines (rest ++ t)).1)

onto-joined :
    (b : ℕ) (p : List Text × Text) (t : Text)
    → (b == 10) ≡ false
    → onto b (joined p t) ≡ joined (onto b p) t
unfolding split_lines
onto-joined b ([], rest) t other = rw other refl
onto-joined b (line ∷ lines, rest) t other = refl

break-joined : (p : List Text × Text) (t : Text) → break_line (joined p t) ≡ joined (break_line p) t
break-joined (lines, rest) t = refl

split_lines-append : (h t : Text) → split_lines (h ++ t) ≡ joined (split_lines h) t
unfolding split_lines
split_lines-append [] t = refl
split_lines-append (b ∷ h) t = elim (Bool-cases (b == 10)) [
  | inl newline ↦ rw (newline, split_lines-append h t) (break-joined (split_lines h) t)
  | inr other ↦ rw (other, split_lines-append h t) (onto-joined b (split_lines h) t other)
]

-- The buffer that is left holds no line.
rest-open : (t : Text) → split_lines (split_lines t).1 ≡ ([], (split_lines t).1)
unfolding split_lines
rest-open [] = refl
rest-open (b ∷ t) = elim (Bool-cases (b == 10)) [
  | inl newline ↦ rw newline (rest-open t)
  | inr other ↦ rw other (onto-open b (split_lines t) other (rest-open t))
]
  where
    onto-open :
        (b : ℕ) (p : List Text × Text)
        → (b == 10) ≡ false
        → split_lines p.1 ≡ ([], p.1)
        → split_lines (onto b p).1 ≡ ([], (onto b p).1)
    onto-open b ([], rest) other open_rest = rw (other, open_rest) refl
    onto-open b (line ∷ lines, rest) other open_rest = open_rest

lines_from-buffer :
    (buf : Text) (chunks : List Text)
    → split_lines buf ≡ ([], buf)
    → lines_from buf chunks ≡ (split_lines (buf ++ flatten chunks)).0
unfolding lines_from flatten
lines_from-buffer buf [] h = rw (append-nil buf, h) refl
lines_from-buffer buf (c ∷ chunks) h =
    let p : List Text × Text = split_lines (buf ++ c) in
    ap (λ t. p.0 ++ t) (lines_from-buffer p.1 chunks (rest-open (buf ++ c)))
    ∙ ap (λ q. q.0) (sym (split_lines-append (buf ++ c) (flatten chunks)))
    ∙ ap (λ t. (split_lines t).0) (append_assoc buf c (flatten chunks))

-- The lines that the loop takes from a stream are those of the whole text, however it is cut.
pub lines_from-flatten :
    (chunks : List Text) → lines_from [] chunks ≡ (split_lines (flatten chunks)).0
unfolding split_lines
lines_from-flatten chunks = lines_from-buffer [] chunks refl
