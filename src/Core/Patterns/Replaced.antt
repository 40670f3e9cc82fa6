-- ===== src/Core/Patterns/Replaced.antt =====
-- What the replacements of crates/snaca-core's texts leave of a text, and how long it is.
use snaca.Base.{
  ℕ, zero, suc, ◌+◌, ◌-◌, ◌*◌, ◌≤◌, ◌<◌, Bool, true, false, Option, none, some, [], ◌∷◌, ◌++◌, ◌≡◌,
  ◌≢◌, refl, ap, ◌∙◌, inl, inr, ◌==◌, length, length-append, Bool-cases, arith,
}
use snaca.Core.Content.{Text}
use snaca.Core.Patterns.{
  strip_prefix, starts_with, skip_of, one_if, count_from, count_matches, put, replace_from, replace,
  replace_first,
}

-- The pattern stands in the text, with the first replacement in its place.
abbrev pub Replaces : Text → Text → Text → Text → Type 0
Replaces t pattern new result =
    (front : Text) × (behind : Text) × (t ≡ front ++ pattern ++ behind)
    × (result ≡ front ++ new ++ behind)

strip_prefix-append :
    (t pattern rest : Text) → strip_prefix t pattern ≡ some rest → t ≡ pattern ++ rest
strip_prefix-append t [] rest e = cc
strip_prefix-append [] (p ∷ pattern) rest e = absurd (cc e)
strip_prefix-append (b ∷ t) (p ∷ pattern) rest e = elim (Bool-cases (b == p)) [
  | inl same ↦
      let tail = strip_prefix-append t pattern rest (rw same at e) in
      ap (λ x. x ∷ t) (eqb→eq b p same) ∙ ap (λ x. p ∷ x) tail
  | inr other ↦ absurd (cc (rw other at e))
]
  where
    eqb→eq : (a b : ℕ) → (a == b) ≡ true → a ≡ b
    eqb→eq a b h = ground arith

strip_prefix-starts_with :
    (t pattern : Text) → strip_prefix t pattern ≡ none → starts_with t pattern ≡ false
strip_prefix-starts_with t [] e = absurd (cc e)
strip_prefix-starts_with [] (p ∷ pattern) e = refl
strip_prefix-starts_with (b ∷ t) (p ∷ pattern) e = elim (Bool-cases (b == p)) [
  | inl same ↦ rw same (strip_prefix-starts_with t pattern (rw same at e))
  | inr other ↦ rw other refl
]

pub replace_first-Replaces :
    (t pattern new : Text)
    → count_matches t pattern ≢ 0
    → Replaces t pattern new (replace_first t pattern new)
unfolding count_from replace_first
replace_first-Replaces [] pattern new h = absurd (h refl)
replace_first-Replaces (b ∷ t) pattern new h =
    by_prefix (strip_prefix (b ∷ t) pattern) refl (replace_first-Replaces t pattern new)
  where
    by_prefix :
        (o : Option Text)
        → strip_prefix (b ∷ t) pattern ≡ o
        → (count_matches t pattern ≢ 0 → Replaces t pattern new (replace_first t pattern new))
        → Replaces
            (b ∷ t)
            pattern
            new
            (elim o [ some behind ↦ new ++ behind | none ↦ b ∷ replace_first t pattern new ])
    by_prefix (some behind) e ih = ([], behind, strip_prefix-append (b ∷ t) pattern behind e, refl)
    by_prefix none e ih =
        let later =
          ih (λ z. h (rw (strip_prefix-starts_with (b ∷ t) pattern e) (omega (arith, z)))) in
        (b ∷ later.0, later.1, ap (λ x. b ∷ x) later.2, ap (λ x. b ∷ x) later.3)

starts_with-length : (t pattern : Text) → starts_with t pattern ≡ true → length pattern ≤ length t
starts_with-length t [] h = omega arith
starts_with-length [] (p ∷ pattern) h = absurd (cc h)
starts_with-length (b ∷ t) (p ∷ pattern) h = elim (Bool-cases (b == p)) [
  | inl same ↦ omega (arith, starts_with-length t pattern (rw same at h))
  | inr other ↦ absurd (cc (rw other at h))
]

suc-times : (c n : ℕ) → (1 + c) * n ≡ n + c * n
suc-times c n = omega arith

replace_from-length :
    (skip : ℕ) (pattern new t : Text)
    → 0 < length pattern
    → skip ≤ length t
    → length (replace_from skip pattern new t) + (count_from skip pattern t * length pattern + skip)
      ≡ length t + count_from skip pattern t * length new
unfolding count_from replace_from
replace_from-length skip pattern new [] h l = omega (arith, l)
replace_from-length (suc skip) pattern new (b ∷ t) h l =
    omega (arith, replace_from-length skip pattern new t h (omega (arith, l)))
replace_from-length zero pattern new (b ∷ t) h l =
    by_hit (starts_with (b ∷ t) pattern) refl (λ s k. replace_from-length s pattern new t h k)
  where
    by_hit :
        (hit : Bool)
        → starts_with (b ∷ t) pattern ≡ hit
        → ((s : ℕ)
            → s ≤ length t
            → length (replace_from s pattern new t) + (count_from s pattern t * length pattern + s)
              ≡ length t + count_from s pattern t * length new)
        → length (put new b hit (replace_from (skip_of pattern hit) pattern new t))
            + ((one_if hit + count_from (skip_of pattern hit) pattern t) * length pattern + 0)
          ≡ suc (length t) + (one_if hit + count_from (skip_of pattern hit) pattern t) * length new
    by_hit true e ih =
        let s = length pattern - 1 in
        let c = count_from s pattern t in
        omega (
          arith,
          h,
          length-append new (replace_from s pattern new t),
          suc-times c (length pattern),
          suc-times c (length new),
          starts_with-length (b ∷ t) pattern e,
          ih s (omega (arith, h, starts_with-length (b ∷ t) pattern e)),
        )
    by_hit false e ih = let c = count_from 0 pattern t in omega (arith, ih 0 (omega arith))

-- Replacing all matches changes the length by the difference of the two patterns for each match.
pub length-replace :
    (t pattern new : Text)
    → 0 < length pattern
    → length (replace t pattern new) + count_matches t pattern * length pattern
      ≡ length t + count_matches t pattern * length new
length-replace t pattern new h = omega (arith, replace_from-length 0 pattern new t h (omega arith))
