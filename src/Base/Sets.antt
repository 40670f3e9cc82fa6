-- ===== src/Base/Sets.antt =====
-- Sets of texts as lists: `contains`, `AllIn` and `Fresh` depend on the members alone.
use Prim.Native.String.{String}
use mathlib.Core.Path.{◌≡◌, subst}
use mathlib.Core.Logic.{inl, inr}
use mathlib.Core.Bool.{true, false}
use mathlib.Core.List.{List, [], ◌∷◌, ◌++◌}
use native.Mathlib.Omega.{arith}
use text.Mathlib.TextEquality.{eq_iff}
use snaca.Base.Tests.{str_eq, Bool-cases}
use snaca.Base.Lists.{contains, contains-append, AllIn, Fresh}

-- The keys of a fresh list are fresh for a smaller set.
pub Fresh-mono :
    (xs ys ks : List String)
    → ((k : String) → contains ys k ≡ true → contains xs k ≡ true)
    → Fresh xs ks
    → Fresh ys ks
Fresh-mono xs ys [] h f = tt
Fresh-mono xs ys (k ∷ ks) h f =
    (absent, Fresh-mono (k ∷ xs) (k ∷ ys) ks (λ j e. ground (arith, h j)) f.1)
  where
    absent : contains ys k ≡ false
    absent = ground (arith, h k)

pub Fresh-append :
    (xs ls ms : List String) → Fresh xs ls → Fresh (ls ++ xs) ms → Fresh xs (ls ++ ms)
Fresh-append xs [] ms f g = g
Fresh-append xs (a ∷ ls) ms f g = (
  f.0,
  Fresh-append (a ∷ xs) ls ms f.1 (
      Fresh-mono (a ∷ ls ++ xs) (ls ++ a ∷ xs) ms
        (λ k e. ground (arith, contains-append ls (a ∷ xs) k, contains-append ls xs k)) g),
)

pub Fresh-split : (xs ls ms : List String) → Fresh xs (ls ++ ms) → Fresh xs ls × Fresh (ls ++ xs) ms
Fresh-split xs [] ms f = (tt, f)
Fresh-split xs (a ∷ ls) ms f =
    let (l, r) = Fresh-split (a ∷ xs) ls ms f.1 in
    (
      (f.0, l),
      Fresh-mono (ls ++ a ∷ xs) (a ∷ ls ++ xs) ms
          (λ k e. ground (arith, contains-append ls (a ∷ xs) k, contains-append ls xs k)) r,
    )

pub contains-AllIn :
    (xs ks : List String) (k : String) → AllIn xs ks → contains ks k ≡ true → contains xs k ≡ true
contains-AllIn xs [] k h e = cc
contains-AllIn xs (j ∷ ks) k h e = elim (Bool-cases (str_eq j k)) [
  | inl same ↦ subst (λ x. contains xs x ≡ true) ((eq_iff j k).0 same) h.0
  | inr other ↦ contains-AllIn xs ks k h.1 (ground arith)
]
