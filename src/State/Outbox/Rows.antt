-- ===== src/State/Outbox/Rows.antt =====
-- Finding a row of the `outbox` table after an update or an insert (crates/snaca-state/src/db.rs).
use snaca.Base.{
  String, Bool, false, some, List, [], ◌∷◌, ◌++◌, ◌≡◌, refl, arith, str_eq, eq_iff, any, ◌||◌,
  if◌then◌else◌,
}
use mathlib.Core.Option
use snaca.State.Outbox.{OutboxRow, outbox_find, update_where}

module _ {V : Type 0} where
  -- A change of the row `id` that keeps ids is seen under that id alone.
  pub outbox_find-update_where :
      (id key : String) (change : OutboxRow V → OutboxRow V) (table : List (OutboxRow V))
      → ((row : OutboxRow V) → (change row).id ≡ row.id)
      → outbox_find key (update_where id change table) ≡ (
          if str_eq id key
          then Option.map change (outbox_find key table)
          else outbox_find key table)
  unfolding outbox_find update_where
  outbox_find-update_where id key change [] h = ground arith
  outbox_find-update_where id key change (row ∷ table) h = ground (
    arith,
    h row,
    eq_iff row.id id,
    eq_iff row.id key,
    eq_iff id key,
    outbox_find-update_where id key change table h,
  )

  pub outbox_find-append :
      (key : String) (table : List (OutboxRow V)) (row : OutboxRow V)
      → any (λ r. str_eq r.id row.id) table ≡ false
      → outbox_find key (table ++ row ∷ [])
        ≡ (if str_eq row.id key then some row else outbox_find key table)
  unfolding outbox_find
  outbox_find-append key [] row h = refl
  outbox_find-append key (r ∷ table) row h = ground (
    arith,
    eq_iff r.id row.id,
    eq_iff r.id key,
    eq_iff row.id key,
    outbox_find-append key table row,
  )

  -- A row that is found is still found behind an insert.
  pub outbox_find-append_some :
      (key : String) (table : List (OutboxRow V)) (new row : OutboxRow V)
      → outbox_find key table ≡ some row
      → outbox_find key (table ++ new ∷ []) ≡ some row
  unfolding outbox_find
  outbox_find-append_some key [] new row h = cc
  outbox_find-append_some key (r ∷ table) new row h =
      ground (arith, outbox_find-append_some key table new row)

  pub outbox_find-id :
      (key : String) (table : List (OutboxRow V)) (row : OutboxRow V)
      → outbox_find key table ≡ some row
      → row.id ≡ key
  unfolding outbox_find
  outbox_find-id key [] row h = cc
  outbox_find-id key (r ∷ table) row h =
      ground (arith, eq_iff r.id key, outbox_find-id key table row)

  pub any-append :
      (p : OutboxRow V → Bool) (xs ys : List (OutboxRow V))
      → any p (xs ++ ys) ≡ (any p xs || any p ys)
  any-append p [] ys = refl
  any-append p (x ∷ xs) ys = ground (arith, any-append p xs ys)

  -- An update that keeps ids keeps the set of ids.
  pub any-update_where :
      (id key : String) (change : OutboxRow V → OutboxRow V) (table : List (OutboxRow V))
      → ((row : OutboxRow V) → (change row).id ≡ row.id)
      → any (λ r. str_eq r.id key) (update_where id change table) ≡ any (λ r. str_eq r.id key) table
  unfolding update_where
  any-update_where id key change [] h = refl
  any-update_where id key change (row ∷ table) h =
      ground (arith, h row, any-update_where id key change table h)
