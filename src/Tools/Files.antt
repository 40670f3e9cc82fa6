-- ===== src/Tools/Files.antt =====
-- What the file tools share: the errors of crates/snaca-tools-api/src/error.rs, the read tracker of
-- crates/snaca-tools-api/src/context.rs, and the file system, a parameter.
use snaca.Base.{
  ℕ, Bool, true, false, ◌&&◌, Option, none, some, List, [], ◌∷◌, ◌≡◌, length, ◌⊎◌, inl, inr,
  if◌then◌else◌,
}
use snaca.Core.Content.{Text}
use snaca.Workspace.PathGuard.{FilePath, component_eq, WorkspaceError}

-- What an error's text says; `at_edit` is the number in front of a message of MultiEdit.
pub data Message : Type 0 where
  old_string_empty no_op edits_empty not_regular must_be_read partial_read changed not_utf8
        pattern_missing :
      Message
  missing_file : FilePath → Message
  too_large matches : ℕ → Message
  at_edit : ℕ → Message → Message

-- The constructors of `ToolError` that the edits use.
pub data ToolError : Type 0 where
  invalid_input not_found execution : Message → ToolError
  path_outside_workspace : WorkspaceError → ToolError
  io : ToolError

-- `modified` is `none` where the platform has no such time.
pub record Metadata : Type 0 where
  pub is_file : Bool
  pub len : ℕ
  pub modified : Option ℕ

-- What `tokio::fs::metadata` answers.
pub data Lookup : Type 0 where
  missing failed : Lookup
  found : Metadata → Lookup

-- The file system: `write` says whether it succeeded, `is_utf8` is `String::from_utf8`.
pub record FileSystem : Type 1 where
  pub World : Type 0
  pub metadata : World → FilePath → Lookup
  pub read : World → FilePath → Option Text
  pub write : World → FilePath → Text → Bool × World
  pub is_utf8 : Text → Bool

-- This write of `c` succeeds, and the file can then be read back and has a modification time.
pub record IsStored (fs : FileSystem) (w : fs.World) (p : FilePath) (c : Text) : Type 0 where
  pub mtime : ℕ
  pub write-succeeds : (fs.write w p c).0 ≡ true
  pub read-write : fs.read (fs.write w p c).1 p ≡ some c
  pub metadata-write :
      fs.metadata (fs.write w p c).1 p
      ≡ found (record { is_file = true; len = length c; modified = some mtime })

pub record ReadRecord : Type 0 where
  pub mtime : ℕ
  pub size : ℕ
  pub partial : Bool

-- `HashMap<PathBuf, ReadRecord>`, the latest entry of a path in front.
abbrev pub ReadTracker : Type 0
ReadTracker = List (FilePath × ReadRecord)

-- What the tools read of a `ToolContext`.
pub record ToolContext : Type 0 where
  pub workspace_root : FilePath
  pub read_tracker : Option ReadTracker

-- Paths are equal by their components.
abbrev pub path_eq : FilePath → FilePath → Bool
path_eq [] [] = true
path_eq (a ∷ p) (b ∷ q) = component_eq a b && path_eq p q
path_eq _ _ = false

unfoldable pub lookup : FilePath → ReadTracker → Option ReadRecord
lookup p [] = none
lookup p ((q, r) ∷ tracker) = if path_eq q p then some r else lookup p tracker

abbrev inserted : FilePath → ReadRecord → Option ReadTracker → Option ReadTracker
inserted p r none = none
inserted p r (some tracker) = some ((p, r) ∷ tracker)

abbrev pub record_partial_read : FilePath → ℕ → ℕ → Bool → ToolContext → ToolContext
record_partial_read p mtime size partial ctx = record ctx {
  read_tracker =
      inserted p (record { mtime = mtime; size = size; partial = partial }) ctx.read_tracker;
}

unfoldable pub record_read : FilePath → ℕ → ℕ → ToolContext → ToolContext
record_read p mtime size ctx = record_partial_read p mtime size false ctx

-- `metadata_or_not_found`.
abbrev pub metadata_or_not_found : FilePath → Lookup → ToolError ⊎ Metadata
metadata_or_not_found display missing = inl (not_found (missing_file display))
metadata_or_not_found display failed = inl io
metadata_or_not_found display (found m) = inr m
