-- ===== src/Tools/Edit/Applied.antt =====
-- crates/snaca-tools/src/edit.rs: what a successful Edit has done to the file.
use snaca.Base.{
  ℕ, Bool, true, false, Option, none, some, ◌≡◌, ◌≢◌, refl, sym, ap, subst, ◌∙◌, ◌⊎◌, inl, inr,
  ◌==◌, ltb, Bool-cases, arith,
}
use snaca.Core.Content.{Text}
use snaca.Core.Patterns.{count_matches, replace_first}
use snaca.Core.Patterns.Replaced.{Replaces, replace_first-Replaces}
use snaca.Workspace.PathGuard.{FilePath}
use snaca.Tools.Files.{ToolError, FileSystem, ToolContext}
use snaca.Tools.Edit.{
  EditOp, Loaded, load, check_op, replace_in, Outcome, after_write, store, edit_loaded,
  edit_checked, edit,
}

eqb-false→ne : (n : ℕ) → (n == 0) ≡ false → n ≢ 0
eqb-false→ne n h e = ground arith

one : (n : ℕ) → n ≢ 0 → ltb 1 n ≡ false → n ≡ 1
one n h k = ground arith

replace_in-once :
    (op : EditOp) (content new_content : Text) (k : ℕ)
    → op.replace_all ≡ false
    → replace_in op content ≡ inr (new_content, k)
    → (k ≡ 1)
      × (count_matches content op.old_string ≡ 1)
      × Replaces content op.old_string op.new_string new_content
unfolding replace_in
replace_in-once op content new_content k single h =
    let count = count_matches content op.old_string in
    elim (Bool-cases (count == 0)) [
      | inl none_found ↦ absurd (cc (rw none_found at h))
      | inr some_found ↦ elim (Bool-cases (ltb 1 count)) [
        | inl many ↦ absurd (cc (rw (some_found, many, single) at h))
        | inr few ↦
            let e : inr (replace_first content op.old_string op.new_string, 1)
                ≡ inr (new_content, k) =
              rw (some_found, few, single) at h in
            let same : replace_first content op.old_string op.new_string ≡ new_content = cc e in
            (
              cc e,
              one count (eqb-false→ne count some_found) few,
              subst (Replaces content op.old_string op.new_string) same (
                  replace_first-Replaces content op.old_string op.new_string
                    (eqb-false→ne count some_found)),
            )
      ]
    ]

-- What a successful Edit without `replace_all` has done.
abbrev pub ReplacedOnce :
    (fs : FileSystem) → ToolContext → fs.World → FilePath → EditOp → ℕ → Type 0
ReplacedOnce fs ctx w path op k =
    (p : FilePath) × (content : Text) × (new_content : Text) × (load fs ctx w path
      ≡ inr (p, content))
    × (k ≡ 1)
    × (count_matches content op.old_string ≡ 1)
    × Replaces content op.old_string op.new_string new_content
    × ((edit fs ctx w path op).world ≡ (fs.write w p new_content).1)

-- When Edit succeeds without `replace_all`, the file's text held exactly one match of the old string,
-- the text with the new string in its place was written to the resolved path, and one replacement is
-- reported.
pub edit-ReplacedOnce :
    (fs : FileSystem) (ctx : ToolContext) (w : fs.World) (path : FilePath) (op : EditOp) (k : ℕ)
    → op.replace_all ≡ false
    → (edit fs ctx w path op).result ≡ inr k
    → ReplacedOnce fs ctx w path op k
unfolding edit store
edit-ReplacedOnce fs ctx w path op k single h = by_check (check_op op) refl h
  where
    by_write :
        (p : FilePath) (new_content : Text) (n : ℕ) (o : Bool × fs.World)
        → (after_write fs ctx p n o).result ≡ inr k
        → ((after_write fs ctx p n o).world ≡ o.1) × (n ≡ k)
    by_write p c n (true, w') h = (refl, cc h)
    by_write p c n (false, w') h = absurd (cc h)

    by_replaced :
        (p : FilePath) (content : Text) (r : ToolError ⊎ (Text × ℕ))
        → edit fs ctx w path op ≡ store fs ctx w p r
        → load fs ctx w path ≡ inr (p, content)
        → replace_in op content ≡ r
        → (store fs ctx w p r).result ≡ inr k
        → ReplacedOnce fs ctx w path op k
    by_replaced p content (inl e) here l r h = absurd (cc h)
    by_replaced p content (inr (c, n)) here l r h =
        let wrote = by_write p c n (fs.write w p c) h in
        let did = replace_in-once op content c n single r in
        (
          p,
          content,
          c,
          l,
          sym wrote.1 ∙ did.0,
          did.1,
          did.2,
          ap (λ (o : Outcome fs). o.world) here ∙ wrote.0,
        )

    by_loaded :
        (l : Loaded)
        → edit fs ctx w path op ≡ edit_loaded fs ctx w op l
        → load fs ctx w path ≡ l
        → (edit_loaded fs ctx w op l).result ≡ inr k
        → ReplacedOnce fs ctx w path op k
    by_loaded (inl e) here l h = absurd (cc h)
    by_loaded (inr (p, content)) here l h =
        by_replaced p content (replace_in op content) here l refl h

    by_check :
        (o : Option ToolError)
        → check_op op ≡ o
        → (edit_checked fs ctx w path op o).result ≡ inr k
        → ReplacedOnce fs ctx w path op k
    by_check (some e) c h = absurd (cc h)
    by_check none c h = by_loaded (load fs ctx w path) (ap (edit_checked fs ctx w path op) c) refl h
