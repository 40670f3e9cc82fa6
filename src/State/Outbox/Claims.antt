-- ===== src/State/Outbox/Claims.antt =====
-- `outbox_claim_pending` of crates/snaca-state/src/db.rs: which rows it returns, and in which order.
use mathlib.Core.List.{Perm}
use mathlib.Core.List.Perm
use snaca.Base.{
  ℕ, zero, suc, ◌≤◌, String, true, false, List, [], ◌∷◌, ◌++◌, ◌≡◌, ◌⊎◌, ◌↔◌, refl, sym, ap, subst,
  arith, leb, take, select, length, All, Bool-cases, inl, inr, eq_iff,
}
use snaca.State.Outbox.{
  OutboxStatus, pending, delivered, failed, OutboxRow, is_pending, is_claimable, insert_by_age,
  order_by_age, outbox_claim_pending,
}

pending_iff : (status : OutboxStatus) → (is_pending status ≡ true) ↔ (status ≡ pending)
pending_iff pending = ((λ h. refl), (λ h. refl))
pending_iff delivered = ((λ h. absurd (cc h)), (λ h. absurd (cc h)))
pending_iff failed = ((λ h. absurd (cc h)), (λ h. absurd (cc h)))

module _ {V : Type 0} where
  -- The oldest row first.
  abbrev pub IsFifo : List (OutboxRow V) → Type 0
  IsFifo [] = Unit
  IsFifo (row ∷ rows) = All (λ later. row.created_at ≤ later.created_at) rows × IsFifo rows

module _ {V : Type 0} (P : OutboxRow V → Type 0) where
  insert_by_age-All :
      (row : OutboxRow V) (rows : List (OutboxRow V))
      → P row
      → All P rows
      → All P (insert_by_age row rows)
  unfolding insert_by_age
  insert_by_age-All row [] p h = (p, tt)
  insert_by_age-All row (other ∷ rows) p h =
      elim (Bool-cases (leb row.created_at other.created_at)) [
        | inl older ↦ rw older (p, h)
        | inr newer ↦ rw newer (h.0, insert_by_age-All row rows p h.1)
      ]

module _ {V : Type 0} where
  All-le_trans :
      (a b : ℕ) (rows : List (OutboxRow V))
      → a ≤ b
      → All (λ r. b ≤ r.created_at) rows
      → All (λ r. a ≤ r.created_at) rows
  All-le_trans a b [] l h = tt
  All-le_trans a b (r ∷ rows) l h = (omega (arith, h.0), All-le_trans a b rows l h.1)

  insert_by_age-IsFifo :
      (row : OutboxRow V) (rows : List (OutboxRow V))
      → IsFifo rows
      → IsFifo (insert_by_age row rows)
  unfolding insert_by_age
  insert_by_age-IsFifo row [] h = (tt, tt)
  insert_by_age-IsFifo row (other ∷ rows) h =
      elim (Bool-cases (leb row.created_at other.created_at)) [
        | inl older ↦
            rw older
              ((le older, All-le_trans row.created_at other.created_at rows (le older) h.0), h)
        | inr newer ↦ rw newer (
          insert_by_age-All (λ r. other.created_at ≤ r.created_at) row rows (ge newer) h.0,
          insert_by_age-IsFifo row rows h.1,
        )
      ]
    where
      le : leb row.created_at other.created_at ≡ true → row.created_at ≤ other.created_at
      le e = ground arith

      ge : leb row.created_at other.created_at ≡ false → other.created_at ≤ row.created_at
      ge e = ground arith

  order_by_age-IsFifo : (rows : List (OutboxRow V)) → IsFifo (order_by_age rows)
  unfolding order_by_age
  order_by_age-IsFifo [] = tt
  order_by_age-IsFifo (row ∷ rows) =
      insert_by_age-IsFifo row (order_by_age rows) (order_by_age-IsFifo rows)

  -- A row that the claim is meant for, in the words of the method's comment.
  abbrev pub IsDue : ℕ → String → OutboxRow V → Type 0
  IsDue now plugin row =
      (row.plugin ≡ plugin) × (row.status ≡ pending) × (row.next_attempt_at ≤ now)

  -- `picked` holds exactly the rows with `P`, each as often as the table does.
  pub data Picks (P : OutboxRow V → Type 0) : List (OutboxRow V) → List (OutboxRow V) → Type 0 where
    picks_none : Picks P [] []
    keeps :
        {row : OutboxRow V} {rows picked : List (OutboxRow V)}
        → P row
        → Picks P rows picked
        → Picks P (row ∷ rows) (row ∷ picked)
    skips :
        {row : OutboxRow V} {rows picked : List (OutboxRow V)}
        → ¬ P row
        → Picks P rows picked
        → Picks P (row ∷ rows) picked

  claimable-IsDue :
      (now : ℕ) (plugin : String) (row : OutboxRow V)
      → is_claimable now plugin row ≡ true
      → IsDue now plugin row
  claimable-IsDue now plugin row h = (
    (eq_iff row.plugin plugin).0 (ground (arith, h)),
    (pending_iff row.status).0 (ground (arith, h)),
    ground (arith, h),
  )

  IsDue-claimable :
      (now : ℕ) (plugin : String) (row : OutboxRow V)
      → IsDue now plugin row
      → is_claimable now plugin row ≡ true
  IsDue-claimable now plugin row h =
      let same = (eq_iff row.plugin plugin).1 h.0 in
      let waits = (pending_iff row.status).1 h.1 in
      let due = h.2 in rw (same, waits) (ground (arith, due))

  select-Picks :
      (now : ℕ) (plugin : String) (table : List (OutboxRow V))
      → Picks (IsDue now plugin) table (select (is_claimable now plugin) table)
  select-Picks now plugin [] = picks_none
  select-Picks now plugin (row ∷ table) = elim (Bool-cases (is_claimable now plugin row)) [
    | inl t ↦ rw t (keeps (claimable-IsDue now plugin row t) (select-Picks now plugin table))
    | inr f ↦
        rw f (
          skips (λ due. cc (IsDue-claimable now plugin row due, f)) (select-Picks now plugin table))
  ]

  insert_by_age-Perm :
      (row : OutboxRow V) (rows : List (OutboxRow V)) → Perm (insert_by_age row rows) (row ∷ rows)
  unfolding insert_by_age
  insert_by_age-Perm row [] = Perm.rfl
  insert_by_age-Perm row (other ∷ rows) = elim (Bool-cases (leb row.created_at other.created_at)) [
    | inl older ↦ rw older Perm.rfl
    | inr newer ↦
        rw newer
          (Perm.trans (Perm.cons other (insert_by_age-Perm row rows)) (Perm.swap row other rows))
  ]

  order_by_age-Perm : (rows : List (OutboxRow V)) → Perm (order_by_age rows) rows
  unfolding order_by_age
  order_by_age-Perm [] = Perm.rfl
  order_by_age-Perm (row ∷ rows) =
      Perm.trans (insert_by_age-Perm row (order_by_age rows))
        (Perm.cons row (order_by_age-Perm rows))

  -- `taken` are `limit` rows, or all there are.
  abbrev pub Fills : ℕ → List (OutboxRow V) → List (OutboxRow V) → Type 0
  Fills limit taken rest = (length taken ≡ limit) ⊎ ((rest ≡ []) × (length taken ≤ limit))

  Fills-cons :
      (limit : ℕ) (row : OutboxRow V) (taken rest : List (OutboxRow V))
      → Fills limit taken rest
      → Fills (suc limit) (row ∷ taken) rest
  Fills-cons limit row taken rest (inl full) = inl (omega (arith, full))
  Fills-cons limit row taken rest (inr all) = inr (all.0, omega (arith, all.1))

  take-Fills :
      (limit : ℕ) (rows : List (OutboxRow V))
      → (rest : List (OutboxRow V)) × (take limit rows ++ rest ≡ rows)
        × Fills limit (take limit rows) rest
  take-Fills zero rows = (rows, refl, inl refl)
  take-Fills (suc n) [] = ([], refl, inr (refl, omega arith))
  take-Fills (suc n) (row ∷ rows) =
      let later = take-Fills n rows in
      (later.0, ap (λ rows. row ∷ rows) later.1, Fills-cons n row (take n rows) later.0 later.2)

  -- A claim takes from the rows of the plugin that are pending and whose time has come: these, each as
  -- often as in the table and in the order of their age, are the claimed rows followed by the rest, and
  -- the claimed ones are `limit` many, or all of them where they are no more.
  pub outbox_claim_pending_lem :
      (now : ℕ) (plugin : String) (limit : ℕ) (table : List (OutboxRow V))
      → (due : List (OutboxRow V)) × (rest : List (OutboxRow V)) × Picks
          (IsDue now plugin)
          table
          due
        × Perm (outbox_claim_pending now plugin limit table ++ rest) due
        × IsFifo (outbox_claim_pending now plugin limit table ++ rest)
        × Fills limit (outbox_claim_pending now plugin limit table) rest
  unfolding outbox_claim_pending
  outbox_claim_pending_lem now plugin limit table =
      let due : List (OutboxRow V) = select (is_claimable now plugin) table in
      let taken = take-Fills limit (order_by_age due) in
      (
        due,
        taken.0,
        select-Picks now plugin table,
        subst (λ rows. Perm rows due) (sym taken.1) (order_by_age-Perm due),
        subst IsFifo (sym taken.1) (order_by_age-IsFifo due),
        taken.2,
      )
