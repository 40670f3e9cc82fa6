-- ===== src/Tools/Edit.antt =====
-- crates/snaca-tools/src/edit.rs and crates/snaca-tools/src/multi_edit.rs. An input is taken as parsed,
-- and what a success says is its number of replacements.
pub mod Gate
pub mod Applied
pub mod Sequence
use snaca.Base.{
  ℕ, suc, ◌+◌, Bool, true, false, not, ◌&&◌, ◌||◌, Option, none, some, List, [], ◌∷◌, ◌⊎◌, inl, inr,
  ◌==◌, ltb, length, if◌then◌else◌,
}
use snaca.Core.Content.{Text}
use snaca.Core.Patterns.{same_text, count_matches, replace, replace_first}
use snaca.Workspace.PathGuard.{FilePath, ok, err, Result, resolve_within}
use snaca.Tools.Files.{
  Message, old_string_empty, no_op, edits_empty, not_regular, must_be_read, partial_read, changed,
  not_utf8, pattern_missing, too_large, matches, at_edit, ToolError, invalid_input, not_found,
  execution, path_outside_workspace, io, Metadata, Lookup, missing, failed, found, FileSystem,
  ReadRecord, ReadTracker, ToolContext, lookup, record_read, metadata_or_not_found,
}

-- The limit of a file's size, 5 MiB.
abbrev pub max_file_bytes : ℕ
max_file_bytes = 5242880

pub record EditOp : Type 0 where
  pub old_string : Text
  pub new_string : Text
  pub replace_all : Bool

abbrev pub same_mtime : ℕ → Option ℕ → Bool
same_mtime a none = false
same_mtime a (some b) = a == b

-- What the tracker's record says of the file; `none` lets the edit go on.
abbrev pub check_record : Metadata → Option ReadRecord → Option ToolError
check_record m none = some (invalid_input must_be_read)
check_record m (some prev) =
    if prev.partial
    then some (invalid_input partial_read)
    else if not (same_mtime prev.mtime m.modified) || not (prev.size == m.len)
    then some (execution changed)
    else none

abbrev pub check_read : FilePath → Metadata → Option ReadTracker → Option ToolError
check_read p m none = none
check_read p m (some tracker) = check_record m (lookup p tracker)

-- The file that an edit is about to change: its resolved path and its text.
abbrev pub Loaded : Type 0
Loaded = ToolError ⊎ (FilePath × Text)

abbrev pub on_bytes : FileSystem → FilePath → Option Text → Loaded
on_bytes fs p none = inl io
on_bytes fs p (some bytes) = if fs.is_utf8 bytes then inr (p, bytes) else inl (execution not_utf8)

abbrev pub on_check : Option ToolError → Loaded → Loaded
on_check none next = next
on_check (some e) next = inl e

abbrev pub on_metadata :
    (fs : FileSystem) → ToolContext → fs.World → FilePath → ToolError ⊎ Metadata → Loaded
on_metadata fs ctx w p (inl e) = inl e
on_metadata fs ctx w p (inr m) =
    if not m.is_file
    then inl (invalid_input not_regular)
    else if ltb max_file_bytes m.len
    then inl (execution (too_large m.len))
    else on_check (check_read p m ctx.read_tracker) (on_bytes fs p (fs.read w p))

abbrev pub on_resolved : (fs : FileSystem) → ToolContext → fs.World → FilePath → Result → Loaded
on_resolved fs ctx w input (err e) = inl (path_outside_workspace e)
on_resolved fs ctx w input (ok p) =
    on_metadata fs ctx w p (metadata_or_not_found input (fs.metadata w p))

-- The guards between the input's checks and the replacement, the same in both tools.
unfoldable pub load : (fs : FileSystem) → ToolContext → fs.World → FilePath → Loaded
unfolding lookup resolve_within
load fs ctx w path = on_resolved fs ctx w path (resolve_within ctx.workspace_root path)

abbrev pub check_op : EditOp → Option ToolError
check_op op =
    if length op.old_string == 0
    then some (invalid_input old_string_empty)
    else if same_text op.old_string op.new_string
    then some (invalid_input no_op)
    else none

-- The new text and how many matches were replaced.
unfoldable pub replace_in : EditOp → Text → ToolError ⊎ (Text × ℕ)
unfolding replace_first
replace_in op content =
    let count = count_matches content op.old_string in
    if count == 0
    then inl (not_found pattern_missing)
    else if ltb 1 count && not op.replace_all
    then inl (invalid_input (matches count))
    else inr (
        if op.replace_all
        then (replace content op.old_string op.new_string, count)
        else (replace_first content op.old_string op.new_string, 1))

-- What a tool's execution leaves.
pub record Outcome (fs : FileSystem) : Type 0 where
  pub result : ToolError ⊎ ℕ
  pub world : fs.World
  pub context : ToolContext

abbrev pub fail : (fs : FileSystem) → ToolContext → fs.World → ToolError → Outcome fs
fail fs ctx w e = record { result = inl e; world = w; context = ctx }

abbrev note_time : FilePath → ℕ → Option ℕ → ToolContext → ToolContext
note_time p size none ctx = ctx
note_time p size (some mtime) ctx = record_read p mtime size ctx

-- The tracker takes in the tool's own write, if the file's metadata can be read.
abbrev pub note_write : FilePath → Lookup → ToolContext → ToolContext
note_write p (found m) ctx = note_time p m.len m.modified ctx
note_write p _ ctx = ctx

abbrev pub after_write :
    (fs : FileSystem) → ToolContext → FilePath → ℕ → Bool × fs.World → Outcome fs
after_write fs ctx p replaced (false, w) = fail fs ctx w io
after_write fs ctx p replaced (true, w) = record {
  result = inr replaced;
  world = w;
  context = note_write p (fs.metadata w p) ctx;
}

unfoldable pub store :
    (fs : FileSystem) → ToolContext → fs.World → FilePath → ToolError ⊎ (Text × ℕ) → Outcome fs
unfolding record_read
store fs ctx w p (inl e) = fail fs ctx w e
store fs ctx w p (inr (content, replaced)) = after_write fs ctx p replaced (fs.write w p content)

abbrev pub edit_loaded : (fs : FileSystem) → ToolContext → fs.World → EditOp → Loaded → Outcome fs
edit_loaded fs ctx w op (inl e) = fail fs ctx w e
edit_loaded fs ctx w op (inr (p, content)) = store fs ctx w p (replace_in op content)

abbrev pub edit_checked :
    (fs : FileSystem) → ToolContext → fs.World → FilePath → EditOp → Option ToolError → Outcome fs
edit_checked fs ctx w path op (some e) = fail fs ctx w e
edit_checked fs ctx w path op none = edit_loaded fs ctx w op (load fs ctx w path)

-- `EditTool::execute`.
unfoldable pub edit : (fs : FileSystem) → ToolContext → fs.World → FilePath → EditOp → Outcome fs
unfolding load replace_in store
edit fs ctx w path op = edit_checked fs ctx w path op (check_op op)

abbrev pub numbered : ℕ → ToolError → ToolError
numbered n (invalid_input m) = invalid_input (at_edit n m)
numbered n (not_found m) = not_found (at_edit n m)
numbered n (execution m) = execution (at_edit n m)
numbered n (path_outside_workspace e) = path_outside_workspace e
numbered n io = io

-- One round of MultiEdit's loop.
abbrev pub apply_op : Option ToolError → EditOp → Text → ToolError ⊎ (Text × ℕ)
apply_op (some e) op content = inl e
apply_op none op content = replace_in op content

abbrev pub more_replaced : ℕ → ToolError ⊎ (Text × ℕ) → ToolError ⊎ (Text × ℕ)
more_replaced k (inl e) = inl e
more_replaced k (inr (content, total)) = inr (content, k + total)

abbrev pub then_apply :
    ℕ → ToolError ⊎ (Text × ℕ) → (Text → ToolError ⊎ (Text × ℕ)) → ToolError ⊎ (Text × ℕ)
then_apply n (inl e) next = inl (numbered n e)
then_apply n (inr (content, k)) next = more_replaced k (next content)

-- The loop over the edits, of which the next has number `n`.
unfoldable pub apply_all : ℕ → List EditOp → Text → ToolError ⊎ (Text × ℕ)
unfolding replace_in
apply_all n [] content = inr (content, 0)
apply_all n (op ∷ ops) content =
    then_apply n (apply_op (check_op op) op content) (apply_all (n + 1) ops)

abbrev pub multi_loaded :
    (fs : FileSystem) → ToolContext → fs.World → List EditOp → Loaded → Outcome fs
multi_loaded fs ctx w ops (inl e) = fail fs ctx w e
multi_loaded fs ctx w ops (inr (p, content)) = store fs ctx w p (apply_all 1 ops content)

-- `MultiEditTool::execute`.
unfoldable pub multi_edit :
    (fs : FileSystem) → ToolContext → fs.World → FilePath → List EditOp → Outcome fs
unfolding load store apply_all
multi_edit fs ctx w path [] = fail fs ctx w (invalid_input edits_empty)
multi_edit fs ctx w path (op ∷ ops) = multi_loaded fs ctx w (op ∷ ops) (load fs ctx w path)
