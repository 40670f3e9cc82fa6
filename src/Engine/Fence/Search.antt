-- ===== src/Engine/Fence/Search.antt =====
-- The searches of crates/snaca-engine/src/memory_fence.rs in a text that grows at its end.
use snaca.Base.{
  ℕ, zero, suc, ◌+◌, ◌-◌, ◌≤◌, ◌<◌, Bool, true, false, ◌&&◌, Option, none, some, [], ◌∷◌, ◌++◌, ◌≡◌,
  refl, ap, ◌⊎◌, inl, inr, arith, ◌==◌, ltb, length, length-append, drop, Bool-cases,
}
use snaca.Core.Content.{Text}
use snaca.Core.Ascii.{same_letter, starts_ci}
use snaca.Engine.Fence.{after_close, tail_overlap, tag_end}

same_letter_comm : (a b : ℕ) → same_letter a b ≡ same_letter b a
unfolding same_letter
same_letter_comm a b = ground arith

-- What a longer pattern begins with, a shorter text begins with.
pub starts_ci-shorter : (p h c : Text) → starts_ci p (h ++ c) ≡ true → starts_ci p h ≡ true
unfolding starts_ci
starts_ci-shorter p [] c e = refl
starts_ci-shorter [] (b ∷ h) c e = absurd (cc)
starts_ci-shorter (x ∷ p) (b ∷ h) c e = ground (arith, e, starts_ci-shorter p h c)

pub starts_ci-longer : (h p c : Text) → starts_ci h p ≡ true → starts_ci (h ++ c) p ≡ true
unfolding starts_ci
starts_ci-longer h [] c e = refl
starts_ci-longer [] (x ∷ p) c e = absurd (cc)
starts_ci-longer (b ∷ h) (x ∷ p) c e = ground (arith, e, starts_ci-longer h p c)

pub starts_ci-swap :
    (h p : Text) → length h ≡ length p → starts_ci h p ≡ true → starts_ci p h ≡ true
unfolding starts_ci
starts_ci-swap [] [] l e = refl
starts_ci-swap [] (x ∷ p) l e = absurd (cc)
starts_ci-swap (b ∷ h) [] l e = absurd (omega (arith, l))
starts_ci-swap (b ∷ h) (x ∷ p) l e = ground (arith, l, e, starts_ci-swap h p, same_letter_comm b x)

-- A pattern found at the start of a grown text was there before, or the text begins it.
pub starts_ci-grown :
    (h p c : Text)
    → starts_ci (h ++ c) p ≡ true
    → (starts_ci h p ≡ true) ⊎ ((length h < length p) × (starts_ci p h ≡ true))
unfolding starts_ci
starts_ci-grown h [] c e = inl refl
starts_ci-grown [] (x ∷ p) c e = inr (omega arith, refl)
starts_ci-grown (b ∷ h) (x ∷ p) c e = ground (arith, e, starts_ci-grown h p c, same_letter_comm b x)

pub starts_ci-length : (h p : Text) → starts_ci h p ≡ true → length p ≤ length h
unfolding starts_ci
starts_ci-length h [] e = omega arith
starts_ci-length [] (x ∷ p) e = absurd (cc)
starts_ci-length (b ∷ h) (x ∷ p) e = ground (arith, e, starts_ci-length h p)

pub length-drop : (n : ℕ) (t : Text) → length (drop n t) ≡ length t - n
length-drop zero t = omega arith
length-drop (suc n) [] = omega arith
length-drop (suc n) (b ∷ t) = omega (arith, length-drop n t)

pub drop-append : (n : ℕ) (h c : Text) → n ≤ length h → drop n (h ++ c) ≡ drop n h ++ c
drop-append zero h c l = refl
drop-append (suc n) [] c l = absurd (omega (arith, l))
drop-append (suc n) (b ∷ h) c l = drop-append n h c (omega (arith, l))

pub after_close-length :
    (close h rest : Text) → after_close close h ≡ some rest → length close ≤ length h
unfolding after_close
after_close-length close [] rest e = absurd (cc)
after_close-length close (b ∷ h) rest e = elim (Bool-cases (starts_ci (b ∷ h) close)) [
  | inl found ↦ starts_ci-length (b ∷ h) close found
  | inr later ↦ omega (arith, after_close-length close h rest (rw later at e))
]

-- A pattern is not at the start of a text that is longer, unless it was there before.
pub starts_ci-kept :
    (h p c : Text) → length p ≤ length h → starts_ci h p ≡ false → starts_ci (h ++ c) p ≡ false
starts_ci-kept h p c l e = elim (Bool-cases (starts_ci (h ++ c) p)) [
  | inr other ↦ other
  | inl there ↦ absurd (ground (arith, l, e, starts_ci-grown h p c there))
]

abbrev grow : Text → Option Text → Option Text
grow c none = none
grow c (some rest) = some (rest ++ c)

pub after_close-shorter :
    (close h rest : Text) → after_close close h ≡ some rest → length rest + length close ≤ length h
unfolding after_close
after_close-shorter close [] rest e = absurd (cc)
after_close-shorter close (b ∷ h) rest e = elim (Bool-cases (starts_ci (b ∷ h) close)) [
  | inl found ↦ found_at (b ∷ h) (starts_ci-length (b ∷ h) close found) (rw found at e)
  | inr later ↦ omega (arith, after_close-shorter close h rest (rw later at e))
]
  where
    found_at :
        (h : Text)
        → length close ≤ length h
        → some (drop (length close) h) ≡ some rest
        → length rest + length close ≤ length h
    found_at h l e =
        let d : drop (length close) h ≡ rest = cc in
        rw (← d) (omega (arith, l, length-drop (length close) h))

-- A close tag that was found is found in the grown text.
pub after_close-grown :
    (close h c : Text) (rest : Text)
    → after_close close h ≡ some rest
    → after_close close (h ++ c) ≡ some (rest ++ c)
unfolding after_close
after_close-grown close [] c rest e = absurd (cc)
after_close-grown close (b ∷ h) c rest e = elim (Bool-cases (starts_ci (b ∷ h) close)) [
  | inl found ↦
      rw
        (
          starts_ci-longer (b ∷ h) close c found,
          drop-append (length close) (b ∷ h) c (starts_ci-length (b ∷ h) close found),
        )
        (ap (λ o. grow c o) (rw found at e))
  | inr later ↦
      let e' : after_close close h ≡ some rest = rw later at e in
      rw (starts_ci-kept (b ∷ h) close c (omega (arith, after_close-length close h rest e')) later)
        (after_close-grown close h c rest e')
]

unstarted :
    (h p c : Text)
    → starts_ci h p ≡ false
    → (ltb (length h) (length p) && starts_ci p h) ≡ false
    → starts_ci (h ++ c) p ≡ false
unstarted h p c e f = elim (Bool-cases (starts_ci (h ++ c) p)) [
  | inr other ↦ other
  | inl there ↦ absurd (ground (arith, e, f, starts_ci-grown h p c there))
]

no_overlap :
    (h p c : Text)
    → (ltb (length h) (length p) && starts_ci p h) ≡ false
    → (ltb (length (h ++ c)) (length p) && starts_ci p (h ++ c)) ≡ false
no_overlap h p c f = elim (Bool-cases (starts_ci p (h ++ c))) [
  | inr other ↦ ground (arith, other)
  | inl there ↦ ground (arith, f, length-append h c, starts_ci-shorter p h c there)
]

-- A close tag that was not found can only begin in the overlap.
pub after_close-overlap :
    (close h c : Text)
    → after_close close h ≡ none
    → (after_close close (h ++ c) ≡ after_close close (tail_overlap close h ++ c))
      × (tail_overlap close (h ++ c) ≡ tail_overlap close (tail_overlap close h ++ c))
unfolding after_close tail_overlap
after_close-overlap close [] c e = (refl, refl)
after_close-overlap close (b ∷ h) c e = elim (Bool-cases (starts_ci (b ∷ h) close)) [
  | inl found ↦ absurd (ground (arith, (rw found at e)))
  | inr later ↦ elim (Bool-cases (ltb (length (b ∷ h)) (length close) && starts_ci close (b ∷ h))) [
    | inl begins ↦ rw begins (refl, refl)
    | inr no_start ↦
        let ih = after_close-overlap close h c (rw later at e) in
        rw (no_start, unstarted (b ∷ h) close c later no_start, no_overlap (b ∷ h) close c no_start)
          ih
  ]
]

abbrev grow_tag : Text → Option (Bool × Text) → Option (Bool × Text)
grow_tag c none = none
grow_tag c (some (slash, rest)) = some (slash, rest ++ c)

pub tag_end-grown :
    (prev : ℕ) (t c : Text) (slash : Bool) (rest : Text)
    → tag_end prev t ≡ some (slash, rest)
    → tag_end prev (t ++ c) ≡ some (slash, rest ++ c)
unfolding tag_end
tag_end-grown prev [] c slash rest e = absurd (cc)
tag_end-grown prev (b ∷ t) c slash rest e = elim (Bool-cases (b == 62)) [
  | inl found ↦ rw found (ap (λ o. grow_tag c o) (rw found at e))
  | inr later ↦ rw later (tag_end-grown b t c slash rest (rw later at e))
]

pub tag_end-shorter :
    (prev : ℕ) (t : Text) (slash : Bool) (rest : Text)
    → tag_end prev t ≡ some (slash, rest)
    → length rest < length t
unfolding tag_end
tag_end-shorter prev [] slash rest e = absurd (cc)
tag_end-shorter prev (b ∷ t) slash rest e = elim (Bool-cases (b == 62)) [
  | inl found ↦ let r : t ≡ rest = cc (rw found at e) in rw (← r) (omega arith)
  | inr later ↦ omega (arith, tag_end-shorter b t slash rest (rw later at e))
]

pub tail_overlap-length : (close h : Text) → length (tail_overlap close h) ≤ length h
unfolding tail_overlap
tail_overlap-length close [] = omega arith
tail_overlap-length close (b ∷ h) =
    elim (Bool-cases (ltb (length (b ∷ h)) (length close) && starts_ci close (b ∷ h))) [
      | inl begins ↦ rw begins (omega arith)
      | inr other ↦ rw other (omega (arith, tail_overlap-length close h))
    ]
