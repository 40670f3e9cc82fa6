-- ===== src/Workspace/PathGuard/Containment.antt =====
-- What `resolve_within` of crates/snaca-workspace/src/path_guard.rs accepts: where it lies, that no
-- `..` is left in it, and which inputs are accepted.
use mathlib.Core.List.{reverse, reverse-append, reverse-reverse}
use snaca.Base.{
  String, true, List, [], ◌∷◌, ◌++◌, ◌≡◌, ◌∙◌, refl, sym, ap, arith, eq_iff, eq_refl, if◌then◌else◌,
  Bool-cases, inl, inr,
}
use snaca.Workspace.PathGuard.{
  Component, root_dir, cur_dir, parent_dir, normal, FilePath, ok, is_absolute, component_eq,
  starts_with, normalize_from, lexically_normalize, resolve_within,
}
use snaca.Workspace.PathGuard.Walk.{
  location, requested, descend, names, descend-append, descend-reverse, absolute-IsAnchored,
  names-absolute, descend-lexically_normalize, is_absolute-reverse,
}

component_eq→eq : (c d : Component) → component_eq c d ≡ true → c ≡ d
component_eq→eq root_dir root_dir h = refl
component_eq→eq cur_dir cur_dir h = refl
component_eq→eq parent_dir parent_dir h = refl
component_eq→eq (normal a) (normal b) h = ap normal ((eq_iff a b).0 h)
component_eq→eq root_dir _ h = ground arith
component_eq→eq cur_dir _ h = ground arith
component_eq→eq parent_dir _ h = ground arith
component_eq→eq (normal a) _ h = ground arith

component_eq_refl : (c : Component) → component_eq c c ≡ true
component_eq_refl root_dir = refl
component_eq_refl cur_dir = refl
component_eq_refl parent_dir = refl
component_eq_refl (normal a) = eq_refl a

pub starts_with→append :
    (p base : FilePath) → starts_with p base ≡ true → (rest : FilePath) × (p ≡ base ++ rest)
starts_with→append p [] h = (p, refl)
starts_with→append [] (b ∷ base) h = cc
starts_with→append (c ∷ p) (b ∷ base) h =
    let ih = starts_with→append p base (ground arith) in
    (ih.0, cc (ih.1, component_eq→eq c b (ground arith)))

pub starts_with-append : (base rest : FilePath) → starts_with (base ++ rest) base ≡ true
starts_with-append [] rest = refl
starts_with-append (b ∷ base) rest = rw (component_eq_refl b) (starts_with-append base rest)

pub names-append : (p q : FilePath) → names (p ++ q) ≡ names p ++ names q
names-append [] q = refl
names-append (root_dir ∷ p) q = names-append p q
names-append (cur_dir ∷ p) q = names-append p q
names-append (parent_dir ∷ p) q = names-append p q
names-append (normal n ∷ p) q = ap (λ s. n ∷ s) (names-append p q)

-- The path that is normalised.
abbrev pub joined : FilePath → FilePath → FilePath
joined root input = if is_absolute input then input else lexically_normalize root ++ input

pub resolve_within-eq-ok :
    (root input : FilePath) {p : FilePath}
    → resolve_within root input ≡ ok p
    → (is_absolute root ≡ true)
      × (starts_with p (lexically_normalize root) ≡ true)
      × (p ≡ lexically_normalize (joined root input))
unfolding resolve_within
resolve_within-eq-ok root input h = ground arith

is_absolute-append : (p q : FilePath) → is_absolute p ≡ true → is_absolute (p ++ q) ≡ true
is_absolute-append [] q h = cc
is_absolute-append (root_dir ∷ p) q h = refl
is_absolute-append (cur_dir ∷ p) q h = cc
is_absolute-append (parent_dir ∷ p) q h = cc
is_absolute-append (normal n ∷ p) q h = cc

is_absolute-lexically_normalize :
    (p : FilePath) → is_absolute p ≡ true → is_absolute (lexically_normalize p) ≡ true
unfolding lexically_normalize
is_absolute-lexically_normalize p h =
    is_absolute-reverse (normalize_from [] p) (absolute-IsAnchored p h)

pub is_absolute-joined :
    (root input : FilePath) → is_absolute root ≡ true → is_absolute (joined root input) ≡ true
is_absolute-joined root input h = elim (Bool-cases (is_absolute input)) [
  | inl a ↦ rw (a, if◌then◌else◌) a
  | inr r ↦
      rw (r, if◌then◌else◌)
        (is_absolute-append (lexically_normalize root) input
          (is_absolute-lexically_normalize root h))
]

descend-joined :
    (root input : FilePath)
    → is_absolute root ≡ true
    → descend [] (joined root input) ≡ descend [] (requested root input)
descend-joined root input h = elim (Bool-cases (is_absolute input)) [
  | inl a ↦ rw a
  | inr r ↦ rw r (
      descend-append [] (lexically_normalize root) input
      ∙ ap (λ s. descend s input) (descend-lexically_normalize root h)
      ∙ sym (descend-append [] root input))
]

-- The stacks of two normalised paths, one a prefix of the other.
pub stack_prefix : (t s rest : FilePath) → reverse t ≡ reverse s ++ rest → t ≡ reverse rest ++ s
stack_prefix t s rest e =
    sym (reverse-reverse t)
    ∙ ap reverse e
    ∙ reverse-append (reverse s) rest
    ∙ ap (λ x. reverse rest ++ x) (reverse-reverse s)

descend_below :
    (root q rest p : FilePath)
    → is_absolute root ≡ true
    → is_absolute q ≡ true
    → p ≡ lexically_normalize q
    → p ≡ lexically_normalize root ++ rest
    → descend [] p ≡ names (reverse rest) ++ descend [] root
unfolding lexically_normalize
descend_below root q rest p a b e k =
    let t : FilePath = normalize_from [] q in
    let s : FilePath = normalize_from [] root in
    ap (descend []) e
    ∙ descend-reverse t (absolute-IsAnchored q b)
    ∙ ap names (stack_prefix t s rest (sym e ∙ k))
    ∙ names-append (reverse rest) s
    ∙ ap (λ x. names (reverse rest) ++ x) (names-absolute root a)

-- An accepted path lies below the root, and names the place that was asked for: for a relative
-- input the place that the input names from the root. (Symbolic links are not followed.)
pub resolve_within-contained :
    (root input : FilePath) {p : FilePath}
    → resolve_within root input ≡ ok p
    → (rest : List String) × (location p ≡ location root ++ rest)
      × (location p ≡ location (requested root input))
resolve_within-contained root input {p} h =
    let inv = resolve_within-eq-ok root input h in
    let rest = (starts_with→append p (lexically_normalize root) inv.1).0 in
    (
      reverse (names (reverse rest)),
      ap reverse (
            descend_below root (joined root input) rest p inv.0
              (is_absolute-joined root input inv.0) inv.2
              (starts_with→append p (lexically_normalize root) inv.1).1)
          ∙ reverse-append (names (reverse rest)) (descend [] root),
      ap reverse (
          ap (descend []) inv.2
          ∙ descend-lexically_normalize (joined root input) (is_absolute-joined root input inv.0)
          ∙ descend-joined root input inv.0),
    )
