-- ===== src/Tools/Edit/Gate.antt =====
-- crates/snaca-tools/src/edit.rs and crates/snaca-tools/src/multi_edit.rs: when a file may be changed, and when it stays as it was.
use snaca.Base.{
  ℕ, ◌≤◌, Bool, true, false, not, ◌||◌, Option, none, some, List, [], ◌∷◌, ◌≡◌, ◌≢◌, refl, sym, ap,
  subst, ◌∙◌, ◌⊎◌, inl, inr, ◌==◌, ltb, ltb-false→le, Bool-cases, arith,
}
use snaca.Core.Content.{Text}
use snaca.Workspace.PathGuard.{FilePath, Result, ok, err, resolve_within}
use snaca.Tools.Files.{
  ToolError, io, Metadata, Lookup, missing, failed, found, FileSystem, ReadRecord, ReadTracker,
  ToolContext, lookup, metadata_or_not_found,
}
use snaca.Tools.Edit.{
  EditOp, Loaded, same_mtime, check_record, check_read, on_bytes, on_check, on_metadata,
  on_resolved, load, Outcome, after_write, store, apply_all, multi_loaded, multi_edit,
  max_file_bytes,
}

-- The tracker, if there is one, has seen the whole file as it is now.
abbrev pub IsCurrent : FilePath → Metadata → Option ReadTracker → Type 0
IsCurrent p m none = Unit
IsCurrent p m (some tracker) =
    (prev : ReadRecord) × (lookup p tracker ≡ some prev)
    × (prev.partial ≡ false)
    × (m.modified ≡ some prev.mtime)
    × (prev.size ≡ m.len)

-- What holds where an edit may go on.
abbrev pub Gated : (fs : FileSystem) → ToolContext → fs.World → FilePath → FilePath → Text → Type 0
Gated fs ctx w path p content =
    (resolve_within ctx.workspace_root path ≡ ok p)
    × (fs.read w p ≡ some content)
    × (fs.is_utf8 content ≡ true)
    × ((m : Metadata) × (fs.metadata w p ≡ found m)
        × (m.is_file ≡ true)
        × (m.len ≤ max_file_bytes)
        × IsCurrent p m ctx.read_tracker)

eqb→eq : (a b : ℕ) → (a == b) ≡ true → a ≡ b
eqb→eq a b h = ground arith

same_mtime→eq : (a : ℕ) (o : Option ℕ) → same_mtime a o ≡ true → o ≡ some a
same_mtime→eq a none h = absurd (cc h)
same_mtime→eq a (some b) h = ap some (sym (eqb→eq a b h))

or-not : (a b : Bool) → (not a || not b) ≡ false → (a ≡ true) × (b ≡ true)
or-not true true h = (refl, refl)
or-not true false h = absurd (cc h)
or-not false b h = absurd (cc h)

check_record-none :
    (m : Metadata) (prev : ReadRecord)
    → check_record m (some prev) ≡ none
    → (prev.partial ≡ false) × (m.modified ≡ some prev.mtime) × (prev.size ≡ m.len)
check_record-none m prev h = elim (Bool-cases prev.partial) [
  | inl t ↦ absurd (cc (rw t at h))
  | inr f ↦ elim (Bool-cases (not (same_mtime prev.mtime m.modified) || not (prev.size == m.len))) [
    | inl t ↦ absurd (cc (rw (f, t) at h))
    | inr g ↦
        let both = or-not (same_mtime prev.mtime m.modified) (prev.size == m.len) g in
        (f, same_mtime→eq prev.mtime m.modified both.0, eqb→eq prev.size m.len both.1)
  ]
]

check_read-IsCurrent :
    (p : FilePath) (m : Metadata) (o : Option ReadTracker)
    → check_read p m o ≡ none
    → IsCurrent p m o
check_read-IsCurrent p m none h = tt
check_read-IsCurrent p m (some tracker) h = by_record (lookup p tracker) refl h
  where
    by_record :
        (o : Option ReadRecord)
        → lookup p tracker ≡ o
        → check_record m o ≡ none
        → IsCurrent p m (some tracker)
    by_record none e h = absurd (cc h)
    by_record (some prev) e h = let c = check_record-none m prev h in (prev, e, c.0, c.1, c.2)

on_bytes-inr :
    (fs : FileSystem) (p : FilePath) (o : Option Text) (q : FilePath) (content : Text)
    → on_bytes fs p o ≡ inr (q, content)
    → (q ≡ p) × (o ≡ some content) × (fs.is_utf8 content ≡ true)
on_bytes-inr fs p none q content h = absurd (cc h)
on_bytes-inr fs p (some bytes) q content h = elim (Bool-cases (fs.is_utf8 bytes)) [
  | inr f ↦ absurd (cc (rw f at h))
  | inl t ↦
      let e : inr (p, bytes) ≡ inr (q, content) = rw t at h in
      let same : bytes ≡ content = cc e in
      (cc e, ap some same, ap (λ c. fs.is_utf8 c) (sym same) ∙ t)
]

on_metadata-inr :
    (fs : FileSystem) (ctx : ToolContext) (w : fs.World) (p : FilePath) (m : Metadata)
    (q : FilePath) (content : Text)
    → on_metadata fs ctx w p (inr m) ≡ inr (q, content)
    → (m.is_file ≡ true)
      × (m.len ≤ max_file_bytes)
      × IsCurrent p m ctx.read_tracker
      × (on_bytes fs p (fs.read w p) ≡ inr (q, content))
on_metadata-inr fs ctx w p m q content h = elim (Bool-cases m.is_file) [
  | inr f ↦ absurd (cc (rw f at h))
  | inl t ↦ elim (Bool-cases (ltb max_file_bytes m.len)) [
    | inl big ↦ absurd (cc (rw (t, big) at h))
    | inr small ↦ by_check (check_read p m ctx.read_tracker) refl t small (rw (t, small) at h)
  ]
]
  where
    by_check :
        (o : Option ToolError)
        → check_read p m ctx.read_tracker ≡ o
        → m.is_file ≡ true
        → ltb max_file_bytes m.len ≡ false
        → on_check o (on_bytes fs p (fs.read w p)) ≡ inr (q, content)
        → (m.is_file ≡ true)
          × (m.len ≤ max_file_bytes)
          × IsCurrent p m ctx.read_tracker
          × (on_bytes fs p (fs.read w p) ≡ inr (q, content))
    by_check (some e) c t small h = absurd (cc h)
    by_check none c t small h =
        (t, ltb-false→le max_file_bytes m.len small, check_read-IsCurrent p m ctx.read_tracker c, h)

-- Where Edit and MultiEdit go on to replace, the path resolves inside the workspace, the text is the
-- file's and is UTF-8, it is a regular file of at most 5 MiB, and the tracker, if there is one, holds
-- a full read of the path with the file's present time and size.
pub load-Gated :
    (fs : FileSystem) (ctx : ToolContext) (w : fs.World) (path p : FilePath) (content : Text)
    → load fs ctx w path ≡ inr (p, content)
    → Gated fs ctx w path p content
unfolding load
load-Gated fs ctx w path p content h = by_resolved (resolve_within ctx.workspace_root path) refl h
  where
    by_bytes :
        (q : FilePath) (m : Metadata)
        → resolve_within ctx.workspace_root path ≡ ok q
        → fs.metadata w q ≡ found m
        → on_metadata fs ctx w q (inr m) ≡ inr (p, content)
        → Gated fs ctx w path p content
    by_bytes q m r e h =
        let g = on_metadata-inr fs ctx w q m p content h in
        let b = on_bytes-inr fs q (fs.read w q) p content g.3 in
        subst (λ x. Gated fs ctx w path x content) (sym b.0) (r, b.1, b.2, (m, e, g.0, g.1, g.2))

    by_found :
        (q : FilePath) (l : Lookup)
        → resolve_within ctx.workspace_root path ≡ ok q
        → fs.metadata w q ≡ l
        → on_metadata fs ctx w q (metadata_or_not_found path l) ≡ inr (p, content)
        → Gated fs ctx w path p content
    by_found q missing r e h = absurd (cc h)
    by_found q failed r e h = absurd (cc h)
    by_found q (found m) r e h = by_bytes q m r e h

    by_resolved :
        (r : Result)
        → resolve_within ctx.workspace_root path ≡ r
        → on_resolved fs ctx w path r ≡ inr (p, content)
        → Gated fs ctx w path p content
    by_resolved (err e) r h = absurd (cc h)
    by_resolved (ok q) r h = by_found q (fs.metadata w q) r refl h

-- An error other than a failed write leaves file system and tracker alone.
abbrev pub IsUnchanged : (fs : FileSystem) → ToolContext → fs.World → Outcome fs → Type 0
IsUnchanged fs ctx w o =
    (e : ToolError) → o.result ≡ inl e → e ≢ io → (o.world ≡ w) × (o.context ≡ ctx)

store-IsUnchanged :
    (fs : FileSystem) (ctx : ToolContext) (w : fs.World) (p : FilePath) (r : ToolError ⊎ (Text × ℕ))
    → IsUnchanged fs ctx w (store fs ctx w p r)
unfolding store
store-IsUnchanged fs ctx w p (inl e) = λ f h n. (refl, refl)
store-IsUnchanged fs ctx w p (inr (content, k)) = by_write (fs.write w p content)
  where
    by_write : (o : Bool × fs.World) → IsUnchanged fs ctx w (after_write fs ctx p k o)
    by_write (true, w') = λ f h n. absurd (cc h)
    by_write (false, w') = λ f h n. absurd (n (cc h))

-- When MultiEdit fails with anything but an I/O error, whichever edit it was that failed, file
-- system and tracker are as they were.
pub multi_edit-unchanged :
    (fs : FileSystem) (ctx : ToolContext) (w : fs.World) (path : FilePath) (ops : List EditOp)
    (e : ToolError)
    → (multi_edit fs ctx w path ops).result ≡ inl e
    → e ≢ io
    → ((multi_edit fs ctx w path ops).world ≡ w) × ((multi_edit fs ctx w path ops).context ≡ ctx)
unfolding multi_edit
multi_edit-unchanged fs ctx w path [] e = λ h n. (refl, refl)
multi_edit-unchanged fs ctx w path (op ∷ ops) e = by_load (load fs ctx w path) e
  where
    by_load : (l : Loaded) → IsUnchanged fs ctx w (multi_loaded fs ctx w (op ∷ ops) l)
    by_load (inl e) = λ f h n. (refl, refl)
    by_load (inr (p, content)) = store-IsUnchanged fs ctx w p (apply_all 1 (op ∷ ops) content)
