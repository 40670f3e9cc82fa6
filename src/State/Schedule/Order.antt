-- ===== src/State/Schedule/Order.antt =====
-- `ORDER BY next_fire_at ASC LIMIT ?` of crates/snaca-state/src/db.rs on the due rows.
use snaca.Base.{
  ℕ, zero, suc, ◌≤◌, String, Bool, true, ◌||◌, List, [], ◌∷◌, map, ◌≡◌, refl, ap, ◌∙◌, str_eq,
  eq_refl, contains, select, take, length, All, leb, arith, inl, inr, Bool-cases,
}
use snaca.State.Schedule.{ScheduledTask, is_due, insert_by_fire, order_by_fire}

abbrev pub ids : List ScheduledTask → List String
ids = map (λ t. t.id)

-- Every due row of the table has its id in the set.
abbrev pub Covered : ℕ → List String → List ScheduledTask → Type 0
Covered now set = All (λ row. is_due now row ≡ true → contains set row.id ≡ true)

pub covered :
    (now : ℕ) (set : List String) (table : List ScheduledTask)
    → ((k : String) → contains (ids (select (is_due now) table)) k ≡ true → contains set k ≡ true)
    → Covered now set table
covered now set [] h = tt
covered now set (row ∷ table) h = (
  (λ due. h row.id (rw (due, eq_refl row.id) refl)),
  covered now set table (λ k c. h k (ground (arith, c))),
)

insert-ids :
    (k : String) (task : ScheduledTask) (tasks : List ScheduledTask)
    → contains (ids (insert_by_fire task tasks)) k ≡ (str_eq task.id k || contains (ids tasks) k)
unfolding insert_by_fire
insert-ids k task [] = refl
insert-ids k task (other ∷ tasks) = ground (arith, insert-ids k task tasks)

pub order-ids :
    (k : String) (tasks : List ScheduledTask)
    → contains (ids (order_by_fire tasks)) k ≡ contains (ids tasks) k
unfolding order_by_fire
order-ids k [] = refl
order-ids k (task ∷ tasks) =
    insert-ids k task (order_by_fire tasks) ∙ ap (λ b. str_eq task.id k || b) (order-ids k tasks)

insert-length :
    (task : ScheduledTask) (tasks : List ScheduledTask)
    → length (insert_by_fire task tasks) ≡ suc (length tasks)
unfolding insert_by_fire
insert-length task [] = refl
insert-length task (other ∷ tasks) = ground (arith, insert-length task tasks)

pub order-length : (tasks : List ScheduledTask) → length (order_by_fire tasks) ≡ length tasks
unfolding order_by_fire
order-length [] = refl
order-length (task ∷ tasks) = insert-length task (order_by_fire tasks) ∙ ap suc (order-length tasks)

pub take-all : (n : ℕ) (tasks : List ScheduledTask) → length tasks ≤ n → take n tasks ≡ tasks
take-all zero [] h = refl
take-all zero (t ∷ tasks) h = absurd (omega (arith, h))
take-all (suc n) [] h = refl
take-all (suc n) (t ∷ tasks) h = ap (λ xs. t ∷ xs) (take-all n tasks (omega (arith, h)))

module _ (P : ScheduledTask → Type 0) where
  pub select-All :
      (p : ScheduledTask → Bool) (tasks : List ScheduledTask) → All P tasks → All P (select p tasks)
  select-All p [] h = tt
  select-All p (task ∷ tasks) h = elim (Bool-cases (p task)) [
    | inl t ↦ rw t (h.0, select-All p tasks h.1)
    | inr f ↦ rw f (select-All p tasks h.1)
  ]

  insert_by_fire-All :
      (task : ScheduledTask) (tasks : List ScheduledTask)
      → P task
      → All P tasks
      → All P (insert_by_fire task tasks)
  unfolding insert_by_fire
  insert_by_fire-All task [] p h = (p, tt)
  insert_by_fire-All task (other ∷ tasks) p h =
      elim (Bool-cases (leb task.next_fire_at other.next_fire_at)) [
        | inl older ↦ rw older (p, h)
        | inr newer ↦ rw newer (h.0, insert_by_fire-All task tasks p h.1)
      ]

  pub order_by_fire-All : (tasks : List ScheduledTask) → All P tasks → All P (order_by_fire tasks)
  unfolding order_by_fire
  order_by_fire-All [] h = tt
  order_by_fire-All (task ∷ tasks) h =
      insert_by_fire-All task (order_by_fire tasks) h.0 (order_by_fire-All tasks h.1)
