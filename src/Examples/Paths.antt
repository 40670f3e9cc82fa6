-- ===== src/Examples/Paths.antt =====
-- A workspace root and two inputs (crates/snaca-workspace/src/path_guard.rs).
use snaca.Base.{String, List, [], ◌∷◌, ◌++◌, ◌≡◌, refl}
use snaca.Workspace.PathGuard.{
  root_dir, cur_dir, parent_dir, normal, FilePath, ok, err, path_outside_root, normalize_from,
  lexically_normalize, resolve_within,
}
use snaca.Workspace.PathGuard.Walk.{location, requested}
use snaca.Workspace.PathGuard.Containment.{resolve_within-contained}
use snaca.Workspace.PathGuard.Parents.{resolve_within_accepts}

abbrev root : FilePath
root = root_dir ∷ normal "data" ∷ normal "alice" ∷ []

abbrev input : FilePath
input = normal "src" ∷ parent_dir ∷ cur_dir ∷ normal "a.txt" ∷ []

abbrev inside : FilePath
inside = root_dir ∷ normal "data" ∷ normal "alice" ∷ normal "a.txt" ∷ []

abbrev sibling : FilePath
sibling = parent_dir ∷ normal "bob" ∷ []

resolve_inside : resolve_within root input ≡ ok inside
unfolding resolve_within lexically_normalize normalize_from
resolve_inside = refl

resolve_sibling : resolve_within root sibling ≡ err (path_outside_root sibling)
unfolding resolve_within lexically_normalize normalize_from
resolve_sibling = refl

resolve_within-contained_example :
    (rest : List String) × (location inside ≡ location root ++ rest)
    × (location inside ≡ location (requested root input))
resolve_within-contained_example = resolve_within-contained root input resolve_inside

resolve_within_accepts_example :
    resolve_within root input ≡ ok (lexically_normalize (lexically_normalize root ++ input))
resolve_within_accepts_example = resolve_within_accepts root input refl tt
