-- ===== src/Workspace/PathGuard/Parents.antt =====
-- `..` in the results of `resolve_within` (crates/snaca-workspace/src/path_guard.rs): none is left,
-- and an input that never climbs above the root is accepted.
use mathlib.Core.List.{reverse, reverse-append}
use snaca.Base.{ℕ, zero, suc, String, true, false, List, [], ◌∷◌, ◌++◌, ◌≡◌, ◌∙◌, refl, ap, arith}
use snaca.Workspace.PathGuard.{
  Component, root_dir, cur_dir, parent_dir, normal, FilePath, ok, is_absolute, starts_with, pop,
  parent_or_push, normalize_from, lexically_normalize, resolve_within,
}
use snaca.Workspace.PathGuard.Walk.{IsAnchored, reverse-cons, absolute-IsAnchored}
use snaca.Workspace.PathGuard.Containment.{starts_with-append}

abbrev pub IsNotParent : Component → Type 0
IsNotParent parent_dir = ⊥
IsNotParent _ = Unit

-- A relative input whose walk never climbs above its start, from `d` levels below it.
abbrev pub StaysInside : ℕ → FilePath → Type 0
StaysInside d [] = Unit
StaysInside d (root_dir ∷ p) = ⊥
StaysInside d (cur_dir ∷ p) = StaysInside d p
StaysInside zero (parent_dir ∷ p) = ⊥
StaysInside (suc d) (parent_dir ∷ p) = StaysInside d p
StaysInside d (normal n ∷ p) = StaysInside (suc d) p

normals : List String → FilePath
normals [] = []
normals (n ∷ s) = normal n ∷ normals s

normalize_from-append :
    (out p q : FilePath) → normalize_from out (p ++ q) ≡ normalize_from (normalize_from out p) q
unfolding normalize_from
normalize_from-append out [] q = refl
normalize_from-append out (root_dir ∷ p) q = normalize_from-append (root_dir ∷ []) p q
normalize_from-append out (cur_dir ∷ p) q = normalize_from-append out p q
normalize_from-append out (parent_dir ∷ p) q =
    normalize_from-append (parent_or_push out (pop out)) p q
normalize_from-append out (normal n ∷ p) q = normalize_from-append (normal n ∷ out) p q

-- Normalising a normalised path gives its stack back.
normalize_from-reverse : (out : FilePath) → IsAnchored out → normalize_from [] (reverse out) ≡ out
unfolding normalize_from
normalize_from-reverse [] h = absurd h
normalize_from-reverse (root_dir ∷ out) h = rw h refl
normalize_from-reverse (cur_dir ∷ out) h = absurd h
normalize_from-reverse (parent_dir ∷ out) h = rw h refl
normalize_from-reverse (normal n ∷ out) h = rw reverse-cons (
    normalize_from-append [] (reverse out) (normal n ∷ [])
    ∙ ap (λ s. normal n ∷ s) (normalize_from-reverse out h))

open_length : List String → ℕ
open_length [] = 0
open_length (n ∷ s) = suc (open_length s)

-- The walk of such an input only changes what stands above the root's stack.
normalize_from_above :
    (u : List String) (s p : FilePath)
    → StaysInside (open_length u) p
    → (v : FilePath) × (normalize_from (normals u ++ s) p ≡ v ++ s)
unfolding normalize_from normals open_length
normalize_from_above u s [] h = (normals u, refl)
normalize_from_above u s (root_dir ∷ p) h = absurd h
normalize_from_above u s (cur_dir ∷ p) h = normalize_from_above u s p h
normalize_from_above [] s (parent_dir ∷ p) h = absurd h
normalize_from_above (n ∷ u) s (parent_dir ∷ p) h = normalize_from_above u s p h
normalize_from_above u s (normal n ∷ p) h = normalize_from_above (n ∷ u) s p h

stays_relative : (p : FilePath) → StaysInside 0 p → is_absolute p ≡ false
stays_relative [] h = refl
stays_relative (root_dir ∷ p) h = absurd h
stays_relative (cur_dir ∷ p) h = refl
stays_relative (parent_dir ∷ p) h = absurd h
stays_relative (normal n ∷ p) h = refl

stays_below :
    (root input : FilePath)
    → is_absolute root ≡ true
    → StaysInside 0 input
    → starts_with
        (lexically_normalize (lexically_normalize root ++ input))
        (lexically_normalize root)
      ≡ true
unfolding lexically_normalize normals open_length
stays_below root input a h =
    let s : FilePath = normalize_from [] root in
    let (v, e) = normalize_from_above [] s input h in
    rw (normalize_from-append [] (reverse s) input) (
      rw (normalize_from-reverse s (absolute-IsAnchored root a))
        (rw e (rw reverse-append (starts_with-append (reverse s) (reverse v)))))

-- Under an absolute root, a relative input that never climbs above its start is accepted, and the result
-- is the normal form of the root with the input behind it.
pub resolve_within_accepts :
    (root input : FilePath)
    → is_absolute root ≡ true
    → StaysInside 0 input
    → resolve_within root input ≡ ok (lexically_normalize (lexically_normalize root ++ input))
unfolding resolve_within
resolve_within_accepts root input a h =
    ground (arith, stays_relative input h, stays_below root input a h)
