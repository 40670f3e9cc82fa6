-- ===== src/Workspace/PathGuard/Walk.antt =====
-- The walk of `lexically_normalize` (crates/snaca-workspace/src/path_guard.rs) against the places that
-- paths name.
use mathlib.Core.List.{reverse, reverse-append}
use snaca.Base.{String, true, List, [], ◌∷◌, ◌++◌, ◌≡◌, ◌∙◌, refl, ap, if◌then◌else◌}
use snaca.Workspace.PathGuard.{
  Component, root_dir, cur_dir, parent_dir, normal, FilePath, is_absolute, pop, parent_or_push,
  normalize_from, lexically_normalize,
}

-- The directories that a walk along `p` has entered, the last one first: `..` leaves the last, and
-- at the file system's root it stays there. Symbolic links are not followed.
abbrev pub leave : List String → List String
leave [] = []
leave (n ∷ s) = s

abbrev pub descend : List String → FilePath → List String
descend s [] = s
descend s (root_dir ∷ p) = descend [] p
descend s (cur_dir ∷ p) = descend s p
descend s (parent_dir ∷ p) = descend (leave s) p
descend s (normal n ∷ p) = descend (n ∷ s) p

-- The place that an absolute path names, as the directories from the root down.
abbrev pub location : FilePath → List String
location p = reverse (descend [] p)

-- The path that a caller asks for.
abbrev pub requested : FilePath → FilePath → FilePath
requested root input = if is_absolute input then input else root ++ input

-- The stacks that the loop builds from an absolute path: names above `/` or above `/..`.
abbrev pub IsAnchored : FilePath → Type 0
IsAnchored [] = ⊥
IsAnchored (root_dir ∷ out) = out ≡ []
IsAnchored (cur_dir ∷ out) = ⊥
IsAnchored (parent_dir ∷ out) = out ≡ root_dir ∷ []
IsAnchored (normal n ∷ out) = IsAnchored out

abbrev pub names : FilePath → List String
names [] = []
names (normal n ∷ out) = n ∷ names out
names (_ ∷ out) = names out

parent-IsAnchored : (out : FilePath) → IsAnchored out → IsAnchored (parent_or_push out (pop out))
parent-IsAnchored [] h = absurd h
parent-IsAnchored (root_dir ∷ out) h = rw h refl
parent-IsAnchored (cur_dir ∷ out) h = absurd h
parent-IsAnchored (parent_dir ∷ out) h = rw h refl
parent-IsAnchored (normal n ∷ out) h = h

names-parent :
    (out : FilePath) → IsAnchored out → names (parent_or_push out (pop out)) ≡ leave (names out)
names-parent [] h = absurd h
names-parent (root_dir ∷ out) h = rw h refl
names-parent (cur_dir ∷ out) h = absurd h
names-parent (parent_dir ∷ out) h = rw h refl
names-parent (normal n ∷ out) h = refl

normalize_from-IsAnchored : (out p : FilePath) → IsAnchored out → IsAnchored (normalize_from out p)
unfolding normalize_from
normalize_from-IsAnchored out [] h = h
normalize_from-IsAnchored out (root_dir ∷ p) h = normalize_from-IsAnchored (root_dir ∷ []) p refl
normalize_from-IsAnchored out (cur_dir ∷ p) h = normalize_from-IsAnchored out p h
normalize_from-IsAnchored out (parent_dir ∷ p) h =
    normalize_from-IsAnchored (parent_or_push out (pop out)) p (parent-IsAnchored out h)
normalize_from-IsAnchored out (normal n ∷ p) h = normalize_from-IsAnchored (normal n ∷ out) p h

pub names-normalize_from :
    (out p : FilePath) → IsAnchored out → names (normalize_from out p) ≡ descend (names out) p
unfolding normalize_from
names-normalize_from out [] h = refl
names-normalize_from out (root_dir ∷ p) h = names-normalize_from (root_dir ∷ []) p refl
names-normalize_from out (cur_dir ∷ p) h = names-normalize_from out p h
names-normalize_from out (parent_dir ∷ p) h =
    names-normalize_from (parent_or_push out (pop out)) p (parent-IsAnchored out h)
    ∙ ap (λ s. descend s p) (names-parent out h)
names-normalize_from out (normal n ∷ p) h = names-normalize_from (normal n ∷ out) p h

pub descend-append :
    (s : List String) (p q : FilePath) → descend s (p ++ q) ≡ descend (descend s p) q
descend-append s [] q = refl
descend-append s (root_dir ∷ p) q = descend-append [] p q
descend-append s (cur_dir ∷ p) q = descend-append s p q
descend-append s (parent_dir ∷ p) q = descend-append (leave s) p q
descend-append s (normal n ∷ p) q = descend-append (n ∷ s) p q

pub reverse-cons : (c : Component) (out : FilePath) → reverse (c ∷ out) ≡ reverse out ++ c ∷ []
reverse-cons c out = reverse-append (c ∷ []) out

-- A finished stack, read as a path, names the place that the stack spells.
pub descend-reverse : (out : FilePath) → IsAnchored out → descend [] (reverse out) ≡ names out
descend-reverse [] h = absurd h
descend-reverse (root_dir ∷ out) h = rw h refl
descend-reverse (cur_dir ∷ out) h = absurd h
descend-reverse (parent_dir ∷ out) h = rw h refl
descend-reverse (normal n ∷ out) h =
    rw reverse-cons (rw descend-append (ap (λ s. n ∷ s) (descend-reverse out h)))

-- An absolute path starts the stack at `/`.
pub absolute-IsAnchored : (p : FilePath) → is_absolute p ≡ true → IsAnchored (normalize_from [] p)
absolute-IsAnchored [] h = cc
absolute-IsAnchored (root_dir ∷ p) h =
    unfold normalize_from in normalize_from-IsAnchored (root_dir ∷ []) p refl
absolute-IsAnchored (cur_dir ∷ p) h = cc
absolute-IsAnchored (parent_dir ∷ p) h = cc
absolute-IsAnchored (normal n ∷ p) h = cc

pub names-absolute :
    (p : FilePath) → is_absolute p ≡ true → names (normalize_from [] p) ≡ descend [] p
names-absolute [] h = cc
names-absolute (root_dir ∷ p) h =
    unfold normalize_from in names-normalize_from (root_dir ∷ []) p refl
names-absolute (cur_dir ∷ p) h = cc
names-absolute (parent_dir ∷ p) h = cc
names-absolute (normal n ∷ p) h = cc

-- Normalising an absolute path does not change the place that it names.
pub descend-lexically_normalize :
    (p : FilePath) → is_absolute p ≡ true → descend [] (lexically_normalize p) ≡ descend [] p
unfolding lexically_normalize
descend-lexically_normalize p h =
    descend-reverse (normalize_from [] p) (absolute-IsAnchored p h) ∙ names-absolute p h

-- A normalised absolute path is absolute.
pub is_absolute-reverse : (out : FilePath) → IsAnchored out → is_absolute (reverse out) ≡ true
is_absolute-reverse [] h = absurd h
is_absolute-reverse (root_dir ∷ out) h = rw h refl
is_absolute-reverse (cur_dir ∷ out) h = absurd h
is_absolute-reverse (parent_dir ∷ out) h = rw h refl
is_absolute-reverse (normal n ∷ out) h =
    rw reverse-cons (is_absolute-append (reverse out) (normal n ∷ []) (is_absolute-reverse out h))
  where
    is_absolute-append : (p q : FilePath) → is_absolute p ≡ true → is_absolute (p ++ q) ≡ true
    is_absolute-append [] q h = cc
    is_absolute-append (root_dir ∷ p) q h = refl
    is_absolute-append (cur_dir ∷ p) q h = cc
    is_absolute-append (parent_dir ∷ p) q h = cc
    is_absolute-append (normal n ∷ p) q h = cc
