-- ===== src/Examples/Edits.antt =====
-- A file with a line that is edited twice (crates/snaca-tools/src/edit.rs). The file system keeps what was
-- written, newest first, and its clock counts the writes.
use snaca.Base.{
  ℕ, true, false, Option, none, some, List, [], ◌∷◌, ◌++◌, ◌≡◌, refl, inl, inr, length,
  if◌then◌else◌,
}
use snaca.Core.Content.{Text, bytes}
use snaca.Core.Patterns.{count_from, replace_from, replace_first}
use snaca.Workspace.PathGuard.{
  FilePath, root_dir, normal, resolve_within, lexically_normalize, normalize_from,
}
use snaca.Tools.Files.{
  ToolError, not_found, pattern_missing, at_edit, Lookup, missing, found, FileSystem, IsStored,
  ToolContext, path_eq, lookup, record_read,
}
use snaca.Tools.Edit.{EditOp, load, edit, multi_edit, replace_in, store, apply_all}
use snaca.Tools.Edit.Gate.{Gated, load-Gated, multi_edit-unchanged}
use snaca.Tools.Edit.Applied.{ReplacedOnce, edit-ReplacedOnce}
use snaca.Tools.Edit.Sequence.{path_eq_refl, edit_each, StaysReadable, multi_edit-edit_each}

abbrev Disk : Type 0
Disk = List (FilePath × Text)

abbrev read_disk : Disk → FilePath → Option Text
read_disk [] p = none
read_disk ((q, c) ∷ disk) p = if path_eq q p then some c else read_disk disk p

abbrev metadata_of : ℕ → Option Text → Lookup
metadata_of time none = missing
metadata_of time (some c) = found (record { is_file = true; len = length c; modified = some time })

abbrev fs : FileSystem
fs = record {
  World = Disk;
  metadata = λ disk p. metadata_of (length disk) (read_disk disk p);
  read = read_disk;
  write = λ disk p c. (true, (p, c) ∷ disk);
  is_utf8 = λ c. true;
}

stored : (w : Disk) (p : FilePath) (c : Text) → IsStored fs w p c
stored w p c = record {
  mtime = length ((p, c) ∷ w);
  write-succeeds = refl;
  read-write = rw (path_eq_refl p) refl;
  metadata-write = rw (path_eq_refl p) refl;
}

abbrev home : FilePath
home = root_dir ∷ normal "w" ∷ []

abbrev notes : FilePath
notes = home ++ normal "notes" ∷ []

abbrev disk : Disk
disk = (notes, bytes "a b b") ∷ []

-- The file was read in full.
abbrev ctx : ToolContext
ctx = record {
  workspace_root = home;
  read_tracker = some ((notes, record { mtime = 1; size = 5; partial = false }) ∷ []);
}

abbrev first_a : EditOp
first_a = record { old_string = bytes "a"; new_string = bytes "b"; replace_all = false }

abbrev all_b : EditOp
all_b = record { old_string = bytes "b"; new_string = bytes "cc"; replace_all = true }

notes_loaded : load fs ctx disk (normal "notes" ∷ []) ≡ inr (notes, bytes "a b b")
unfolding load resolve_within lexically_normalize normalize_from lookup
notes_loaded = refl

load-Gated_example : Gated fs ctx disk (normal "notes" ∷ []) notes (bytes "a b b")
load-Gated_example = load-Gated fs ctx disk (normal "notes" ∷ []) notes (bytes "a b b") notes_loaded

first_edited : (edit fs ctx disk (normal "notes" ∷ []) first_a).result ≡ inr 1
unfolding edit load resolve_within lexically_normalize normalize_from lookup replace_in count_from
    replace_first store record_read
first_edited = refl

edit-ReplacedOnce_example : ReplacedOnce fs ctx disk (normal "notes" ∷ []) first_a 1
edit-ReplacedOnce_example =
    edit-ReplacedOnce fs ctx disk (normal "notes" ∷ []) first_a 1 refl first_edited

both_edited : (multi_edit fs ctx disk (normal "notes" ∷ []) (first_a ∷ all_b ∷ [])).result ≡ inr 4
unfolding multi_edit load resolve_within lexically_normalize normalize_from lookup apply_all
    replace_in count_from replace_first replace_from store record_read
both_edited = refl

both_readable : StaysReadable fs notes disk (first_a ∷ all_b ∷ []) (bytes "a b b")
unfolding replace_in count_from replace_first replace_from
both_readable = (
  stored disk notes (bytes "b b b"),
  refl,
  refl,
  (stored ((notes, bytes "b b b") ∷ disk) notes (bytes "cc cc cc"), refl, refl, tt),
)

multi_edit-edit_each_example :
    ((edit_each fs ctx disk (normal "notes" ∷ []) (first_a ∷ all_b ∷ [])).result ≡ inr 4)
    × (fs.read (edit_each fs ctx disk (normal "notes" ∷ []) (first_a ∷ all_b ∷ [])).world notes
        ≡ fs.read (multi_edit fs ctx disk (normal "notes" ∷ []) (first_a ∷ all_b ∷ [])).world notes)
multi_edit-edit_each_example =
    multi_edit-edit_each fs (normal "notes" ∷ []) notes (first_a ∷ all_b ∷ []) ctx disk
      (bytes "a b b") 4 notes_loaded (λ final n e. stored disk notes final) both_readable
      both_edited

abbrev missing_second : ToolError
missing_second = not_found (at_edit 2 pattern_missing)

second_fails :
    (multi_edit fs ctx disk (normal "notes" ∷ []) (first_a ∷ first_a ∷ [])).result
    ≡ inl missing_second
unfolding multi_edit load resolve_within lexically_normalize normalize_from lookup apply_all
    replace_in count_from replace_first store
second_fails = refl

multi_edit-unchanged_example :
    ((multi_edit fs ctx disk (normal "notes" ∷ []) (first_a ∷ first_a ∷ [])).world ≡ disk)
    × ((multi_edit fs ctx disk (normal "notes" ∷ []) (first_a ∷ first_a ∷ [])).context ≡ ctx)
multi_edit-unchanged_example =
    multi_edit-unchanged fs ctx disk (normal "notes" ∷ []) (first_a ∷ first_a ∷ []) missing_second
      second_fails (λ f. cc)
