-- ===== src/Workspace/PathGuard.antt =====
-- crates/snaca-workspace/src/path_guard.rs. A path is the list of what `Path::components` yields on
-- Unix, where a `RootDir` stands first if anywhere; `/` never holds a `Prefix`.
pub mod Walk
pub mod Containment
pub mod Parents
use snaca.Base.{
  String, Bool, true, false, Option, none, some, List, [], ◌∷◌, ◌++◌, not, ◌&&◌, str_eq,
  if◌then◌else◌,
}
use mathlib.Core.List.{reverse}

pub data Component : Type 0 where
  root_dir cur_dir parent_dir : Component
  normal : String → Component

abbrev pub FilePath : Type 0
FilePath = List Component

pub data WorkspaceError : Type 0 where
  path_outside_root : FilePath → WorkspaceError
  absolute_not_in_root : FilePath → WorkspaceError
  root_not_absolute : FilePath → WorkspaceError
  io : String → WorkspaceError

pub data Result : Type 0 where
  ok : FilePath → Result
  err : WorkspaceError → Result

-- `Path::is_absolute` on Unix.
abbrev pub is_absolute : FilePath → Bool
is_absolute (root_dir ∷ p) = true
is_absolute _ = false

abbrev pub component_eq : Component → Component → Bool
component_eq root_dir root_dir = true
component_eq cur_dir cur_dir = true
component_eq parent_dir parent_dir = true
component_eq (normal a) (normal b) = str_eq a b
component_eq _ _ = false

-- `Path::starts_with`, which compares whole components.
abbrev pub starts_with : FilePath → FilePath → Bool
starts_with p [] = true
starts_with [] (b ∷ base) = false
starts_with (c ∷ p) (b ∷ base) = component_eq c b && starts_with p base

-- `PathBuf::pop`; the path under construction is held with its last component first.
abbrev pub pop : FilePath → Option FilePath
pop [] = none
pop (root_dir ∷ out) = none
pop (c ∷ out) = some out

abbrev pub parent_or_push : FilePath → Option FilePath → FilePath
parent_or_push out none = parent_dir ∷ out
parent_or_push out (some popped) = popped

-- The loop of `lexically_normalize`. Pushing a `RootDir` replaces what was there.
unfoldable pub normalize_from : FilePath → FilePath → FilePath
normalize_from out [] = out
normalize_from out (root_dir ∷ p) = normalize_from (root_dir ∷ []) p
normalize_from out (cur_dir ∷ p) = normalize_from out p
normalize_from out (parent_dir ∷ p) = normalize_from (parent_or_push out (pop out)) p
normalize_from out (normal name ∷ p) = normalize_from (normal name ∷ out) p

unfoldable pub lexically_normalize : FilePath → FilePath
unfolding normalize_from
lexically_normalize p = reverse (normalize_from [] p)

-- The final `starts_with` test.
abbrev check_inside : FilePath → FilePath → FilePath → Result
check_inside root_normalized input candidate =
    if not (starts_with candidate root_normalized)
    then err (path_outside_root input)
    else ok candidate

-- `Path::join` of a relative path appends its components.
unfoldable pub resolve_within : FilePath → FilePath → Result
resolve_within root input =
    if not (is_absolute root)
    then err (root_not_absolute root)
    else let root_normalized = lexically_normalize root in
      if is_absolute input
      then (if not (starts_with (lexically_normalize input) root_normalized)
          then err (absolute_not_in_root input)
          else check_inside root_normalized input (lexically_normalize input))
      else check_inside root_normalized input (lexically_normalize (root_normalized ++ input))
