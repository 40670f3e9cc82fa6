-- ===== src/Llm/Classify/Phrases.antt =====
-- crates/snaca-llm/src/classify.rs: what it is for a text to contain one of some phrases.
use snaca.Base.{
  String, true, false, ◌||◌, List, [], ◌∷◌, ◌++◌, map, ◌≡◌, ◌⊎◌, ◌↔◌, refl, ap, arith, Bool-cases,
  inl, inr,
}
use snaca.Core.Content.{Text, bytes}
use snaca.Llm.Classify.{lower, starts, contains_text, hinted}

-- `p` stands in `t`, with this before and behind it.
abbrev pub Infix : Text → Text → Type 0
Infix p t = (before : Text) × (after : Text) × (t ≡ before ++ (p ++ after))

-- The lowered text has one of the phrases in it.
abbrev pub Mentions : List String → Text → Type 0
Mentions [] t = ⊥
Mentions (p ∷ phrases) t = Infix (bytes p) (map lower t) ⊎ Mentions phrases t

starts-Prefix : (t p : Text) → starts t p ≡ true → (after : Text) × (t ≡ p ++ after)
starts-Prefix t [] h = (t, refl)
starts-Prefix [] (x ∷ p) h = absurd (cc h)
starts-Prefix (b ∷ t) (x ∷ p) h =
    let same : b ≡ x = ground (arith, h) in
    let rest = starts-Prefix t p (ground (arith, h)) in (rest.0, λ i. same i ∷ rest.1 i)

prefix_starts : (t p after : Text) → t ≡ p ++ after → starts t p ≡ true
prefix_starts t [] after e = refl
prefix_starts [] (x ∷ p) after e = absurd (cc e)
prefix_starts (b ∷ t) (x ∷ p) after e =
    let same : b ≡ x = cc e in
    let rest : t ≡ p ++ after = cc e in ground (arith, same, prefix_starts t p after rest)

contains-Infix : (t p : Text) → contains_text t p ≡ true → Infix p t
unfolding contains_text
contains-Infix [] p h = let found = starts-Prefix [] p h in ([], found.0, found.1)
contains-Infix (b ∷ t) p h = elim (Bool-cases (starts (b ∷ t) p)) [
  | inl here ↦ let found = starts-Prefix (b ∷ t) p here in ([], found.0, found.1)
  | inr later ↦
      let found = contains-Infix t p (ground (arith, h, later)) in
      (b ∷ found.0, found.1, ap (λ t. b ∷ t) found.2)
]

infix_contains : (t p before after : Text) → t ≡ before ++ (p ++ after) → contains_text t p ≡ true
unfolding contains_text
infix_contains [] p [] after e = prefix_starts [] p after e
infix_contains [] p (x ∷ before) after e = absurd (cc e)
infix_contains (b ∷ t) p [] after e = rw (prefix_starts (b ∷ t) p after e) refl
infix_contains (b ∷ t) p (x ∷ before) after e =
    let rest : t ≡ before ++ (p ++ after) = cc e in
    ground (arith, infix_contains t p before after rest)

hinted-Mentions : (phrases : List String) (t : Text) → hinted phrases t ≡ true → Mentions phrases t
hinted-Mentions [] t h = absurd (cc h)
hinted-Mentions (p ∷ phrases) t h = elim (Bool-cases (contains_text (map lower t) (bytes p))) [
  | inl here ↦ inl (contains-Infix (map lower t) (bytes p) here)
  | inr later ↦ inr (hinted-Mentions phrases t (ground (arith, h, later)))
]

phrase_is_hinted : (phrases : List String) (t : Text) → Mentions phrases t → hinted phrases t ≡ true
phrase_is_hinted [] t m = elim m [ ]
phrase_is_hinted (p ∷ phrases) t (inl here) =
    rw (infix_contains (map lower t) (bytes p) here.0 here.1 here.2) refl
phrase_is_hinted (p ∷ phrases) t (inr later) =
    let rest = phrase_is_hinted phrases t later in ground (arith, rest)

-- Neither text mentions one of the phrases.
abbrev pub Silent : List String → Text → Text → Type 0
Silent phrases message body = (¬ Mentions phrases message) × (¬ Mentions phrases body)

pub hinted-Silent :
    (phrases : List String) (message body : Text)
    → ((hinted phrases message || hinted phrases body) ≡ false) ↔ Silent phrases message body
hinted-Silent phrases message body = (
  (λ h. (
    (λ m. cc (phrase_is_hinted phrases message m, h)),
    (λ m. absurd (ground (arith, phrase_is_hinted phrases body m, h))),
  )),
  (λ silent. elim (Bool-cases (hinted phrases message)) [
    | inl t ↦ absurd (silent.0 (hinted-Mentions phrases message t))
    | inr f ↦ elim (Bool-cases (hinted phrases body)) [
      | inl t ↦ absurd (silent.1 (hinted-Mentions phrases body t))
      | inr g ↦ rw (f, g) refl
    ]
  ]),
)
