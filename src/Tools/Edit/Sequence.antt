-- ===== src/Tools/Edit/Sequence.antt =====
-- crates/snaca-tools/src/multi_edit.rs: MultiEdit against a sequence of Edits.
use snaca.Base.{
  ℕ, ◌+◌, Bool, true, false, Option, none, some, List, [], ◌∷◌, ◌≡◌, refl, sym, ap, subst, ◌∙◌, ◌⊎◌,
  inl, inr, ◌==◌, ltb, length, eq_refl, arith,
}
use snaca.Core.Content.{Text}
use snaca.Workspace.PathGuard.{
  FilePath, Component, root_dir, cur_dir, parent_dir, normal, component_eq, ok, resolve_within,
}
use snaca.Tools.Files.{
  ToolError, FileSystem, IsStored, ReadTracker, ToolContext, lookup, record_read, path_eq,
}
use snaca.Tools.Edit.{
  EditOp, check_read, load, check_op, replace_in, Outcome, fail, note_write, after_write, store,
  edit, apply_op, more_replaced, then_apply, apply_all, multi_loaded, multi_edit, max_file_bytes,
}
use snaca.Tools.Edit.Gate.{load-Gated}

abbrev add_result : ℕ → ToolError ⊎ ℕ → ToolError ⊎ ℕ
add_result k (inl e) = inl e
add_result k (inr n) = inr (k + n)

abbrev more : (fs : FileSystem) → ℕ → Outcome fs → Outcome fs
more fs k o = record o { result = add_result k o.result }

abbrev on_result :
    (fs : FileSystem)
    → Outcome fs
    → ToolError ⊎ ℕ
    → (ToolContext → fs.World → Outcome fs)
    → Outcome fs
on_result fs o (inl e) next = o
on_result fs o (inr k) next = more fs k (next o.context o.world)

-- The Edits one after the other, up to the first that fails, with their replacements in all.
unfoldable pub edit_each :
    (fs : FileSystem) → ToolContext → fs.World → FilePath → List EditOp → Outcome fs
unfolding edit
edit_each fs ctx w path [] = record { result = inr 0; world = w; context = ctx }
edit_each fs ctx w path (op ∷ ops) =
    let o = edit fs ctx w path op in on_result fs o o.result (λ ctx w. edit_each fs ctx w path ops)

abbrev AfterOp : ToolError ⊎ (Text × ℕ) → (Text → Type 0) → Type 0
AfterOp (inl e) P = Unit
AfterOp (inr (content, k)) P = P content

-- The Edits' writes, in the worlds where they happen, are stored, and what an Edit would refuse to read
-- back does not come about.
abbrev pub StaysReadable : (fs : FileSystem) → FilePath → fs.World → List EditOp → Text → Type 0
StaysReadable fs p w [] content = Unit
StaysReadable fs p w (op ∷ ops) content = AfterOp (replace_in op content) (λ c.
    IsStored fs w p c
    × (fs.is_utf8 c ≡ true)
    × (ltb max_file_bytes (length c) ≡ false)
    × StaysReadable fs p (fs.write w p c).1 ops c)

component_eq_refl : (c : Component) → component_eq c c ≡ true
component_eq_refl root_dir = refl
component_eq_refl cur_dir = refl
component_eq_refl parent_dir = refl
component_eq_refl (normal name) = eq_refl name

pub path_eq_refl : (p : FilePath) → path_eq p p ≡ true
path_eq_refl [] = refl
path_eq_refl (c ∷ p) = rw (component_eq_refl c, path_eq_refl p) refl

eqb_refl : (n : ℕ) → (n == n) ≡ true
eqb_refl n = ground arith

after_write-true :
    (fs : FileSystem) (ctx : ToolContext) (p : FilePath) (k : ℕ) (o : Bool × fs.World)
    → o.0 ≡ true
    → after_write fs ctx p k o
      ≡ record { result = inr k; world = o.1; context = note_write p (fs.metadata o.1 p) ctx }
after_write-true fs ctx p k (true, w) e = refl
after_write-true fs ctx p k (false, w) e = absurd (cc e)

module _ (fs : FileSystem) (path p : FilePath) where
  store-wrote :
      (ctx : ToolContext) (w : fs.World) (c : Text) (k : ℕ)
      → IsStored fs w p c
      → store fs ctx w p (inr (c, k)) ≡ record {
        result = inr k;
        world = (fs.write w p c).1;
        context = note_write p (fs.metadata (fs.write w p c).1 p) ctx;
      }
  unfolding store
  store-wrote ctx w c k st = after_write-true fs ctx p k (fs.write w p c) st.write-succeeds

  check_read-own :
      (m t : ℕ) (tracker : Option ReadTracker) (root : FilePath)
      → check_read p
          (record { is_file = true; len = m; modified = some t })
          (record_read p t m
            (record { workspace_root = root; read_tracker = tracker })).read_tracker
        ≡ none
  unfolding record_read lookup
  check_read-own m t none root = refl
  check_read-own m t (some tracker) root = rw (path_eq_refl p, eqb_refl t, eqb_refl m) refl

  store-failed :
      (ctx : ToolContext) (w : fs.World) (e : ToolError)
      → store fs ctx w p (inl e) ≡ fail fs ctx w e
  unfolding store
  store-failed ctx w e = refl

  -- An edit's own write passes the next edit's guards.
  reload :
      (ctx : ToolContext) (w : fs.World) (c : Text)
      → IsStored fs w p c
      → resolve_within ctx.workspace_root path ≡ ok p
      → fs.is_utf8 c ≡ true
      → ltb max_file_bytes (length c) ≡ false
      → load fs (note_write p (fs.metadata (fs.write w p c).1 p) ctx) (fs.write w p c).1 path
        ≡ inr (p, c)
  unfolding load record_read
  reload ctx w c st r utf8 small =
      let t = st.mtime in
      rw (st.metadata-write, r, st.metadata-write, small)
        (rw (check_read-own (length c) t ctx.read_tracker ctx.workspace_root, st.read-write, utf8)
          refl)

  -- The Edits leave the file with this text and report this many replacements.
  unfoldable Leaves : Outcome fs → Text → ℕ → Type 0
  Leaves o final k = (o.result ≡ inr k) × (fs.read o.world p ≡ some final)

  Leaves-more :
      (o : Outcome fs) (final : Text) (k n : ℕ)
      → Leaves o final n
      → Leaves (more fs k o) final (k + n)
  unfolding Leaves
  Leaves-more o final k n h = (ap (add_result k) h.0, h.1)

  -- An Edit after the guards, and the Edits after it.
  edit_each-step :
      (ctx : ToolContext) (w : fs.World) (op : EditOp) (ops : List EditOp) (content c : Text)
      (k : ℕ)
      → IsStored fs w p c
      → load fs ctx w path ≡ inr (p, content)
      → check_op op ≡ none
      → replace_in op content ≡ inr (c, k)
      → edit_each fs ctx w path (op ∷ ops)
        ≡ more fs k (
            edit_each fs
              (note_write p (fs.metadata (fs.write w p c).1 p) ctx)
              (fs.write w p c).1
              path
              ops)
  unfolding edit_each edit
  edit_each-step ctx w op ops content c k st l checked r =
      rw (checked, l, r, store-wrote ctx w c k st) refl

  -- The Edits do what the loop does, on every file that holds its text.
  abbrev EachLeaves : List EditOp → ℕ → Type 0
  EachLeaves ops n =
      (ctx : ToolContext) (w : fs.World) (content final : Text) (k : ℕ)
      → load fs ctx w path ≡ inr (p, content)
      → StaysReadable fs p w ops content
      → apply_all n ops content ≡ inr (final, k)
      → Leaves (edit_each fs ctx w path ops) final k

  edit_each-Leaves : (ops : List EditOp) (n : ℕ) → EachLeaves ops n
  unfolding edit_each apply_all Leaves
  edit_each-Leaves [] n ctx w content final k l readable e =
      let same : content ≡ final = cc e in
      (cc e, (load-Gated fs ctx w path p content l).1 ∙ ap some same)
  edit_each-Leaves (op ∷ ops) n ctx w content final k l readable e =
      by_check (check_op op) refl e (edit_each-Leaves ops (n + 1))
    where
      by_later :
          (c : Text) (k1 : ℕ) (later : ToolError ⊎ (Text × ℕ))
          → apply_all (n + 1) ops c ≡ later
          → more_replaced k1 later ≡ inr (final, k)
          → ((k2 : ℕ)
              → apply_all (n + 1) ops c ≡ inr (final, k2)
              → Leaves (edit_each fs ctx w path (op ∷ ops)) final (k1 + k2))
          → Leaves (edit_each fs ctx w path (op ∷ ops)) final k
      by_later c k1 (inl e) a h next = absurd (cc h)
      by_later c k1 (inr (f, k2)) a h next =
          let same : f ≡ final = cc h in
          let total : k1 + k2 ≡ k = cc h in
          subst (Leaves (edit_each fs ctx w path (op ∷ ops)) final) total
            (next k2 (a ∙ ap (λ x. inr (x, k2)) same))

      by_replaced :
          (r : ToolError ⊎ (Text × ℕ))
          → check_op op ≡ none
          → replace_in op content ≡ r
          → AfterOp r (λ c.
            IsStored fs w p c
            × (fs.is_utf8 c ≡ true)
            × (ltb max_file_bytes (length c) ≡ false)
            × StaysReadable fs p (fs.write w p c).1 ops c)
          → then_apply n r (apply_all (n + 1) ops) ≡ inr (final, k)
          → EachLeaves ops (n + 1)
          → Leaves (edit_each fs ctx w path (op ∷ ops)) final k
      by_replaced (inl e) checked r readable h ih = absurd (cc h)
      by_replaced (inr (c, k1)) checked r readable h ih =
          let next = λ (k2 : ℕ) (a : apply_all (n + 1) ops c ≡ inr (final, k2)).
            subst (λ o. Leaves o final (k1 + k2))
              (sym (edit_each-step ctx w op ops content c k1 readable.0 l checked r))
              (Leaves-more
                (edit_each fs (note_write p (fs.metadata (fs.write w p c).1 p) ctx)
                  (fs.write w p c).1 path ops)
                final k1 k2
                (ih (note_write p (fs.metadata (fs.write w p c).1 p) ctx) (fs.write w p c).1 c final
                  k2
                  (reload ctx w c readable.0 (load-Gated fs ctx w path p content l).0 readable.1
                    readable.2)
                  readable.3 a)) in
          by_later c k1 (apply_all (n + 1) ops c) refl h next

      by_check :
          (o : Option ToolError)
          → check_op op ≡ o
          → then_apply n (apply_op o op content) (apply_all (n + 1) ops) ≡ inr (final, k)
          → EachLeaves ops (n + 1)
          → Leaves (edit_each fs ctx w path (op ∷ ops)) final k
      by_check (some e) c h ih = absurd (cc h)
      by_check none c h ih = by_replaced (replace_in op content) c refl readable h ih

  multi_edit-Leaves :
      (ops : List EditOp) (ctx : ToolContext) (w : fs.World) (content : Text) (k : ℕ)
      → load fs ctx w path ≡ inr (p, content)
      → ((final : Text) (n : ℕ) → apply_all 1 ops content ≡ inr (final, n) → IsStored fs w p final)
      → (multi_edit fs ctx w path ops).result ≡ inr k
      → (final : Text) × (apply_all 1 ops content ≡ inr (final, k))
        × Leaves (multi_edit fs ctx w path ops) final k
  unfolding multi_edit Leaves
  multi_edit-Leaves [] ctx w content k l stored h = absurd (cc h)
  multi_edit-Leaves (op ∷ ops) ctx w content k l stored h =
      let here : multi_edit fs ctx w path (op ∷ ops)
          ≡ store fs ctx w p (apply_all 1 (op ∷ ops) content) =
        ap (multi_loaded fs ctx w (op ∷ ops)) l in
      by_applied (apply_all 1 (op ∷ ops) content) refl here
        (sym (ap (λ (o : Outcome fs). o.result) here) ∙ h)
    where
      by_stored :
          (final : Text) (n : ℕ) (o : Outcome fs)
          → IsStored fs w p final
          → o ≡ record {
            result = inr n;
            world = (fs.write w p final).1;
            context = note_write p (fs.metadata (fs.write w p final).1 p) ctx;
          }
          → o.result ≡ inr k
          → (n ≡ k) × Leaves o final k
      by_stored final n o st e r =
          let same : n ≡ k = cc (sym (ap (λ (o : Outcome fs). o.result) e) ∙ r) in
          (same, (r, ap (λ (o : Outcome fs). fs.read o.world p) e ∙ st.read-write))

      by_applied :
          (r : ToolError ⊎ (Text × ℕ))
          → apply_all 1 (op ∷ ops) content ≡ r
          → multi_edit fs ctx w path (op ∷ ops) ≡ store fs ctx w p r
          → (store fs ctx w p r).result ≡ inr k
          → (final : Text) × (apply_all 1 (op ∷ ops) content ≡ inr (final, k))
            × Leaves (multi_edit fs ctx w path (op ∷ ops)) final k
      by_applied (inl e) a here r =
          absurd (cc (sym (ap (λ (o : Outcome fs). o.result) (store-failed ctx w e)) ∙ r))
      by_applied (inr (final, n)) a here r =
          let st = stored final n a in
          let s =
            by_stored final n (store fs ctx w p (inr (final, n))) st (store-wrote ctx w final n st)
              r in
          (final, a ∙ ap (λ n. inr (final, n)) s.0, subst (λ o. Leaves o final k) (sym here) s.1)

-- MultiEdit refines the sequence of its Edits. If it succeeds on a file that it loads, if its own write
-- and each write of the Edits is stored (it succeeds, the file reads back as written and has a
-- modification time), and if the texts after each edit stay UTF-8 and within 5 MiB, then the Edits run
-- one after the other all succeed, report the same number of replacements in all, and leave the same
-- text.
pub multi_edit-edit_each :
    (fs : FileSystem) (path p : FilePath) (ops : List EditOp) (ctx : ToolContext) (w : fs.World)
    (content : Text) (k : ℕ)
    → load fs ctx w path ≡ inr (p, content)
    → ((final : Text) (n : ℕ) → apply_all 1 ops content ≡ inr (final, n) → IsStored fs w p final)
    → StaysReadable fs p w ops content
    → (multi_edit fs ctx w path ops).result ≡ inr k
    → ((edit_each fs ctx w path ops).result ≡ inr k)
      × (fs.read (edit_each fs ctx w path ops).world p
          ≡ fs.read (multi_edit fs ctx w path ops).world p)
unfolding Leaves
multi_edit-edit_each fs path p ops ctx w content k l stored readable h =
    let m = multi_edit-Leaves fs path p ops ctx w content k l stored h in
    let s = edit_each-Leaves fs path p ops 1 ctx w content m.0 k l readable m.1 in
    (s.0, s.1 ∙ sym m.2.1)
