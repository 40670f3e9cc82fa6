-- ===== src/Engine/Fence/Stable.antt =====
-- crates/snaca-engine/src/memory_fence.rs: what a round decides does not depend on the text that is
-- still to come.
use snaca.Base.{
  ℕ, ◌+◌, ◌≤◌, ◌<◌, Bool, true, false, Option, none, some, List, [], ◌∷◌, ◌++◌, ◌≡◌, ◌≢◌, refl, ap,
  inl, inr, arith, ◌==◌, ltb, leb, length, length-append, drop, Bool-cases, leb→le, leb-false→lt,
}
use snaca.Core.Content.{Text}
use snaca.Core.Ascii.{starts_ci}
use snaca.Engine.Fence.{
  NameVerdict, skip, hold, opens, closes_itself, OpenClassification, incomplete, protected,
  protected_self_closing, by_tag_end, behind_name, try_name, or_next, try_names, classify_open,
  protected_fences, ends_name, tag_end, want, before_lt, after_lt,
}
use snaca.Engine.Fence.Search.{
  starts_ci-swap, starts_ci-shorter, starts_ci-longer, starts_ci-grown, starts_ci-kept,
  starts_ci-length, drop-append, length-drop, tag_end-grown, tag_end-shorter,
}

-- A verdict with more text behind it; a name on hold is undecided.
abbrev grown_verdict : Text → NameVerdict → NameVerdict
grown_verdict c (opens rest) = opens (rest ++ c)
grown_verdict c (closes_itself rest) = closes_itself (rest ++ c)
grown_verdict c v = v

abbrev pub grown_open : Text → OpenClassification → OpenClassification
grown_open c (protected name rest) = protected name (rest ++ c)
grown_open c (protected_self_closing rest) = protected_self_closing (rest ++ c)
grown_open c v = v

by_tag_end-grown :
    (prev : ℕ) (t c : Text)
    → by_tag_end (tag_end prev t) ≢ hold
    → by_tag_end (tag_end prev (t ++ c)) ≡ grown_verdict c (by_tag_end (tag_end prev t))
by_tag_end-grown prev t c n = by_found (tag_end prev t) refl n
  where
    by_found :
        (found : Option (Bool × Text))
        → tag_end prev t ≡ found
        → by_tag_end found ≢ hold
        → by_tag_end (tag_end prev (t ++ c)) ≡ grown_verdict c (by_tag_end found)
    by_found none e n = absurd (n refl)
    by_found (some (true, rest)) e n = rw (tag_end-grown prev t c true rest e) refl
    by_found (some (false, rest)) e n = rw (tag_end-grown prev t c false rest e) refl

behind_name-grown :
    (t c : Text)
    → 1 ≤ length t
    → behind_name t ≢ hold
    → behind_name (t ++ c) ≡ grown_verdict c (behind_name t)
behind_name-grown [] c l n = absurd (omega (arith, l))
behind_name-grown (b ∷ t) c l n = elim (Bool-cases (ends_name b)) [
  | inl delimiter ↦ rw delimiter (by_tag_end-grown 0 (b ∷ t) c (λ e. n (rw delimiter e)))
  | inr other ↦ rw other refl
]

-- A short text that the name does not begin with is skipped, and so it is when it grows.
short-skip :
    (name t c : Text)
    → length t ≤ length name
    → starts_ci name t ≡ false
    → try_name name (t ++ c) ≡ skip
unfolding try_name
short-skip name t c l e = elim (Bool-cases (leb (length (t ++ c)) (length name))) [
  | inl short ↦ elim (Bool-cases (starts_ci name (t ++ c))) [
    | inr other ↦ rw (short, other) refl
    | inl begins ↦ absurd (ground (arith, e, starts_ci-shorter name t c begins))
  ]
  | inr long ↦ elim (Bool-cases (starts_ci (t ++ c) name)) [
    | inr other ↦ rw (long, other) refl
    | inl there ↦ absurd (elim (starts_ci-grown t name c there) [
      | inl old ↦
          ground
            (arith, e, starts_ci-swap t name (omega (arith, l, starts_ci-length t name old)) old)
      | inr begins ↦ ground (arith, e, begins.1)
    ])
  ]
]

try_name-grown :
    (name t c : Text)
    → try_name name t ≢ hold
    → try_name name (t ++ c) ≡ grown_verdict c (try_name name t)
unfolding try_name
try_name-grown name t c n = elim (Bool-cases (leb (length t) (length name))) [
  | inl short ↦ elim (Bool-cases (starts_ci name t)) [
    | inl begins ↦ absurd (n (rw (short, begins) refl))
    | inr other ↦
        rw (short, other) (short-skip name t c (leb→le (length t) (length name) short) other)
  ]
  | inr long ↦
      let longer : length name < length t = leb-false→lt (length t) (length name) long in
      let long' : leb (length (t ++ c)) (length name) ≡ false =
        ground (arith, longer, length-append t c) in
      elim (Bool-cases (starts_ci t name)) [
        | inr other ↦
            rw (long, long', other, starts_ci-kept t name c (omega (arith, longer)) other) refl
        | inl there ↦
            let left : 1 ≤ length (drop (length name) t) =
              omega (arith, longer, length-drop (length name) t) in
            rw
              (
                long,
                long',
                there,
                starts_ci-longer t name c there,
                drop-append (length name) t c (omega (arith, longer)),
              )
              (behind_name-grown (drop (length name) t) c left (λ e. n (rw (long, there) e)))
      ]
]

try_names-grown :
    (names : List Text) (t c : Text)
    → try_names names t ≢ incomplete
    → try_names names (t ++ c) ≡ grown_open c (try_names names t)
unfolding try_names
try_names-grown [] t c n = elim (Bool-cases (ltb (length t + 1) want)) [
  | inl short ↦ absurd (n (rw short refl))
  | inr long ↦
      let long' : ltb (length (t ++ c) + 1) want ≡ false =
        ground (arith, long, length-append t c) in
      rw (long, long') refl
]
try_names-grown (name ∷ names) t c n =
    by_verdict (try_name name t) refl n (try_names-grown names t c)
  where
    by_verdict :
        (v : NameVerdict)
        → try_name name t ≡ v
        → or_next name v (try_names names t) ≢ incomplete
        → (try_names names t ≢ incomplete
            → try_names names (t ++ c) ≡ grown_open c (try_names names t))
        → or_next name (try_name name (t ++ c)) (try_names names (t ++ c))
          ≡ grown_open c (or_next name v (try_names names t))
    by_verdict skip e n later = rw (try_name-grown name t c (λ h. cc), e) (later n)
    by_verdict hold e n later = absurd (n refl)
    by_verdict (opens rest) e n later = rw (try_name-grown name t c (λ h. cc), e) refl
    by_verdict (closes_itself rest) e n later = rw (try_name-grown name t c (λ h. cc), e) refl

pub classify_open-grown :
    (t c : Text)
    → classify_open t ≢ incomplete
    → classify_open (t ++ c) ≡ grown_open c (classify_open t)
unfolding classify_open
classify_open-grown [] c n = absurd (n refl)
classify_open-grown (b ∷ t) c n = elim (Bool-cases (b == 47)) [
  | inl slash ↦ rw slash refl
  | inr other ↦ rw other (try_names-grown protected_fences (b ∷ t) c (λ e. n (rw other e)))
]

pub before_lt-append :
    (h c : Text)
    → after_lt h ≡ none
    → (before_lt (h ++ c) ≡ h ++ before_lt c) × (after_lt (h ++ c) ≡ after_lt c)
unfolding before_lt after_lt
before_lt-append [] c e = (refl, refl)
before_lt-append (b ∷ h) c e = elim (Bool-cases (b == 60)) [
  | inl found ↦ absurd (cc (rw found at e))
  | inr other ↦
      let ih = before_lt-append h c (rw other at e) in rw other (ap (λ t. b ∷ t) ih.0, ih.1)
]

-- A text with a `<` is what comes before it, the `<` and what follows it.
pub before_lt-split :
    (h t : Text)
    → after_lt h ≡ some t
    → (h ≡ before_lt h ++ 60 ∷ t) × (after_lt (before_lt h) ≡ none)
unfolding before_lt after_lt
before_lt-split [] t e = absurd (cc)
before_lt-split (b ∷ h) t e = elim (Bool-cases (b == 60)) [
  | inl found ↦
      let lt : b ≡ 60 = ground (arith, found) in
      let same : h ≡ t = cc (rw found at e) in rw found (rw (lt, same) refl, refl)
  | inr other ↦
      let ih = before_lt-split h t (rw other at e) in rw other (ap (λ t. b ∷ t) ih.0, rw other ih.1)
]

pub before_lt-grown :
    (h t c : Text)
    → after_lt h ≡ some t
    → (before_lt (h ++ c) ≡ before_lt h)
      × (after_lt (h ++ c) ≡ some (t ++ c))
      × (length t < length h)
unfolding before_lt after_lt
before_lt-grown [] t c e = absurd (cc)
before_lt-grown (b ∷ h) t c e = elim (Bool-cases (b == 60)) [
  | inl found ↦
      let same : h ≡ t = cc (rw found at e) in rw found (refl, rw same refl, rw same (omega arith))
  | inr other ↦
      let ih = before_lt-grown h t c (rw other at e) in
      rw other (ap (λ t. b ∷ t) ih.0, ih.1, omega (arith, ih.2))
]

-- What a decided fence leaves is no longer than the text behind its `<`.
abbrev IsShorter : Text → NameVerdict → Type 0
IsShorter t (opens rest) = length rest ≤ length t
IsShorter t (closes_itself rest) = length rest ≤ length t
IsShorter t v = Unit

abbrev pub IsShorterOpen : Text → OpenClassification → Type 0
IsShorterOpen t (protected name rest) = length rest ≤ length t
IsShorterOpen t (protected_self_closing rest) = length rest ≤ length t
IsShorterOpen t v = Unit

behind_name-IsShorter : (n : ℕ) (t : Text) → IsShorter t (behind_name (drop n t))
behind_name-IsShorter n t = of (drop n t) (omega (arith, length-drop n t))
  where
    of_tag :
        (d : Text) (found : Option (Bool × Text))
        → length d ≤ length t
        → tag_end 0 d ≡ found
        → IsShorter t (by_tag_end found)
    of_tag d none l e = tt
    of_tag d (some (true, rest)) l e = omega (arith, l, tag_end-shorter 0 d true rest e)
    of_tag d (some (false, rest)) l e = omega (arith, l, tag_end-shorter 0 d false rest e)

    of : (d : Text) → length d ≤ length t → IsShorter t (behind_name d)
    of [] l = tt
    of (b ∷ d) l = elim (Bool-cases (ends_name b)) [
      | inl delimiter ↦ rw delimiter (of_tag (b ∷ d) (tag_end 0 (b ∷ d)) l refl)
      | inr other ↦ rw other tt
    ]

try_name-IsShorter : (name t : Text) → IsShorter t (try_name name t)
unfolding try_name
try_name-IsShorter name t = elim (Bool-cases (leb (length t) (length name))) [
  | inl short ↦ elim (Bool-cases (starts_ci name t)) [
    | inl begins ↦ rw (short, begins) tt
    | inr other ↦ rw (short, other) tt
  ]
  | inr long ↦ elim (Bool-cases (starts_ci t name)) [
    | inl there ↦ rw (long, there) (behind_name-IsShorter (length name) t)
    | inr other ↦ rw (long, other) tt
  ]
]

try_names-IsShorter : (names : List Text) (t : Text) → IsShorterOpen t (try_names names t)
unfolding try_names
try_names-IsShorter [] t = elim (Bool-cases (ltb (length t + 1) want)) [
  | inl short ↦ rw short tt
  | inr long ↦ rw long tt
]
try_names-IsShorter (name ∷ names) t =
    by_verdict (try_name name t) (try_name-IsShorter name t) (try_names-IsShorter names t)
  where
    by_verdict :
        (v : NameVerdict)
        → IsShorter t v
        → IsShorterOpen t (try_names names t)
        → IsShorterOpen t (or_next name v (try_names names t))
    by_verdict skip s later = later
    by_verdict hold s later = tt
    by_verdict (opens rest) s later = s
    by_verdict (closes_itself rest) s later = s

pub classify_open-IsShorter : (t : Text) → IsShorterOpen t (classify_open t)
unfolding classify_open
classify_open-IsShorter [] = tt
classify_open-IsShorter (b ∷ t) = elim (Bool-cases (b == 47)) [
  | inl slash ↦ rw slash tt
  | inr other ↦ rw other (try_names-IsShorter protected_fences (b ∷ t))
]
