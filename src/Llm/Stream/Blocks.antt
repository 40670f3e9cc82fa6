-- ===== src/Llm/Stream/Blocks.antt =====
-- A `BTreeMap<u32, _>`, as the list of its entries by rising key.
use snaca.Base.{
  ℕ, ◌≡◌, refl, ◌<◌, Option, none, some, List, [], ◌∷◌, ◌++◌, arith, ltb, ◌==◌, if◌then◌else◌, All,
  ◌+◌,
}
use mathlib.Core.Option

abbrev pub BlockMap : Type 0 → Type 0
BlockMap B = List (ℕ × B)

module _ {B : Type 0} where
  -- `insert` and `get_mut` with a change in place.
  unfoldable pub insert : ℕ → B → BlockMap B → BlockMap B
  insert k v [] = (k, v) ∷ []
  insert k v ((j, w) ∷ m) =
      if ltb k j then (k, v) ∷ (j, w) ∷ m else if k == j then (k, v) ∷ m else (j, w) ∷ insert k v m

  unfoldable pub update : ℕ → (B → B) → BlockMap B → BlockMap B
  update k f [] = []
  update k f ((j, w) ∷ m) = if j == k then (j, f w) ∷ m else (j, w) ∷ update k f m

  unfoldable pub get : ℕ → BlockMap B → Option B
  get k [] = none
  get k ((j, w) ∷ m) = if j == k then some w else get k m

  abbrev pub IsBelow : ℕ → BlockMap B → Type 0
  IsBelow n = All (λ e. e.0 < n)

  pub insert-last : (k : ℕ) (v : B) (m : BlockMap B) → IsBelow k m → insert k v m ≡ m ++ (k, v) ∷ []
  unfolding insert
  insert-last k v [] h = refl
  insert-last k v ((j, w) ∷ m) h = ground (arith, insert-last k v m h.1)

  pub update-last :
      (k : ℕ) (v : B) (f : B → B) (m : BlockMap B)
      → IsBelow k m
      → update k f (m ++ (k, v) ∷ []) ≡ m ++ (k, f v) ∷ []
  unfolding update
  update-last k v f [] h = ground arith
  update-last k v f ((j, w) ∷ m) h = ground (arith, update-last k v f m h.1)

  pub IsBelow-snoc :
      (k : ℕ) (v : B) (m : BlockMap B) → IsBelow k m → IsBelow (k + 1) (m ++ (k, v) ∷ [])
  IsBelow-snoc k v [] h = (omega arith, tt)
  IsBelow-snoc k v ((j, w) ∷ m) h = (omega (arith, h.0), IsBelow-snoc k v m h.1)

  pub get-insert :
      (k j : ℕ) (v : B) (m : BlockMap B)
      → get j (insert k v m) ≡ (if k == j then some v else get j m)
  unfolding get insert
  get-insert k j v [] = refl
  get-insert k j v ((i, w) ∷ m) = ground (arith, get-insert k j v m)

  pub get-update :
      (k j : ℕ) (f : B → B) (m : BlockMap B)
      → get j (update k f m) ≡ (if k == j then Option.map f (get j m) else get j m)
  unfolding get update
  get-update k j f [] = ground arith
  get-update k j f ((i, w) ∷ m) = ground (arith, get-update k j f m)
