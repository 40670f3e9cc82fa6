-- ===== src/Server/Scheduler/Pass.antt =====
-- crates/snaca-server/src/scheduler.rs: what a poll pass leaves in the table.
use snaca.Base.{
  ℕ, ◌≤◌, ◌<◌, String, true, false, Option, none, some, List, [], ◌∷◌, map, ◌≡◌, refl, sym, ap, ◌∙◌,
  subst, str_eq, eq_iff, contains, select, length, All, if◌then◌else◌, arith, inl, inr, Bool-cases,
}
use snaca.State.Schedule.{
  ScheduledTask, is_due, order_by_fire, list_due_scheduled_tasks, update_task, set_fired,
  reschedule_task,
}
use snaca.State.Schedule.Order.{
  ids, Covered, covered, order-ids, order-length, take-all, select-All, order_by_fire-All,
}
use snaca.Server.Scheduler.{Chrono, advance_next_fire, fire_all, run_tick}
use snaca.Server.Scheduler.Fits.{Fits, advance_next_fire-Returns}

-- What the call for a task sets where it returns, and no time where it panics.
abbrev set_of : Option (Option ℕ) → Option ℕ
set_of none = none
set_of (some set) = set

abbrev new_time : Chrono → ℕ → ScheduledTask → Option ℕ
new_time chrono now task = set_of (advance_next_fire chrono task now)

update_task-map :
    (id : String) (change : ScheduledTask → ScheduledTask) (table : List ScheduledTask)
    → update_task id change table ≡ map (λ row. if str_eq row.id id then change row else row) table
unfolding update_task
update_task-map id change [] = refl
update_task-map id change (row ∷ table) = rw (update_task-map id change table) refl

map-map :
    (f g : ScheduledTask → ScheduledTask) (table : List ScheduledTask)
    → map g (map f table) ≡ map (λ row. g (f row)) table
map-map f g [] = refl
map-map f g (row ∷ table) = rw (map-map f g table) refl

map-id : (table : List ScheduledTask) → map (λ row. row) table ≡ table
map-id [] = refl
map-id (row ∷ table) = rw (map-id table) refl

set_fired-not_due :
    (now : ℕ) (next : Option ℕ) (row : ScheduledTask)
    → ((at : ℕ) → next ≡ some at → now < at)
    → is_due now (set_fired now next row) ≡ false
set_fired-not_due now none row h = refl
set_fired-not_due now (some at) row h = ground (arith, h at refl)

module _ (chrono : Chrono) (now : ℕ) where
  abbrev fire_step : ScheduledTask → ScheduledTask → ScheduledTask
  fire_step task row =
      if str_eq row.id task.id then set_fired now (new_time chrono now task) row else row

  -- What the pass over `due` makes of one row.
  unfoldable fire_row : List ScheduledTask → ScheduledTask → ScheduledTask
  fire_row [] row = row
  fire_row (task ∷ due) row = fire_row due (fire_step task row)

  new_time-returns :
      (task : ScheduledTask)
      → Fits now task
      → advance_next_fire chrono task now ≡ some (new_time chrono now task)
  new_time-returns task h =
      let r = advance_next_fire-Returns chrono now task h in
      r.returns ∙ sym (ap (λ o. some (set_of o)) r.returns)

  -- Where no task panics, the loop fires them all and works row by row.
  fire_all-map :
      (due table : List ScheduledTask)
      → All (Fits now) due
      → fire_all chrono now due table
        ≡ record { fired = due; completed = true; table = map (fire_row due) table }
  unfolding fire_all reschedule_task fire_row
  fire_all-map [] table h = rw (map-id table) refl
  fire_all-map (task ∷ due) table h =
      rw
        (
          new_time-returns task h.0,
          update_task-map task.id (set_fired now (new_time chrono now task)) table,
          fire_all-map due (map (fire_step task) table) h.1,
          map-map (fire_step task) (fire_row due) table,
        )
        refl

  fired-not_due :
      (task row : ScheduledTask)
      → Fits now task
      → is_due now (set_fired now (new_time chrono now task) row) ≡ false
  fired-not_due task row h =
      let r = advance_next_fire-Returns chrono now task h in
      set_fired-not_due now (new_time chrono now task) row
        (λ at e. r.is_future at (sym (ap set_of r.returns) ∙ e))

  step-same :
      (task row : ScheduledTask)
      → Fits now task
      → str_eq row.id task.id ≡ true
      → is_due now (fire_step task row) ≡ false
  step-same task row fits h = rw h (fired-not_due task row fits)

  step-stays :
      (task row : ScheduledTask)
      → Fits now task
      → is_due now row ≡ false
      → is_due now (fire_step task row) ≡ false
  step-stays task row fits h = elim (Bool-cases (str_eq row.id task.id)) [
    | inl same ↦ step-same task row fits same
    | inr other ↦ rw other h
  ]

  fire_row-stays :
      (due : List ScheduledTask) (row : ScheduledTask)
      → All (Fits now) due
      → is_due now row ≡ false
      → is_due now (fire_row due row) ≡ false
  unfolding fire_row
  fire_row-stays [] row fits h = h
  fire_row-stays (task ∷ due) row fits h =
      fire_row-stays due (fire_step task row) fits.1 (step-stays task row fits.0 h)

  step-other : (task row : ScheduledTask) → str_eq row.id task.id ≡ false → row ≡ fire_step task row
  step-other task row h = rw h refl

  fire_row-not_due :
      (due : List ScheduledTask) (row : ScheduledTask)
      → All (Fits now) due
      → contains (ids due) row.id ≡ true
      → is_due now (fire_row due row) ≡ false
  unfolding fire_row
  fire_row-not_due [] row fits h = absurd (cc)
  fire_row-not_due (task ∷ due) row fits h = elim (Bool-cases (str_eq row.id task.id)) [
    | inl same ↦ fire_row-stays due (fire_step task row) fits.1 (step-same task row fits.0 same)
    | inr other ↦
        subst (λ r. is_due now (fire_row due r) ≡ false) (step-other task row other)
          (fire_row-not_due due row fits.1
            (ground (arith, h, other, eq_iff row.id task.id, eq_iff task.id row.id)))
  ]

  quiet :
      (due table : List ScheduledTask)
      → All (Fits now) due
      → Covered now (ids due) table
      → select (is_due now) (map (fire_row due) table) ≡ []
  quiet due [] fits h = refl
  quiet due (row ∷ table) fits h =
      let none_due : is_due now (fire_row due row) ≡ false = elim (Bool-cases (is_due now row)) [
        | inl due_now ↦ fire_row-not_due due row fits (h.0 due_now)
        | inr later ↦ fire_row-stays due row fits later
      ] in
      rw (none_due, quiet due table fits h.1) refl

-- When a batch holds the tasks that are due, and the interval from now of every task ends within the
-- year 9999, a pass hands all the due tasks to the handler, runs to its end, and leaves no task that is
-- due at the same time, whatever the handler answered: each was disabled or has a time after `now`.
pub run_tick-none_due :
    (chrono : Chrono) (now batch_size : ℕ) (table : List ScheduledTask)
    → length (select (is_due now) table) ≤ batch_size
    → All (Fits now) table
    → ((run_tick chrono now batch_size table).fired ≡ order_by_fire (select (is_due now) table))
      × ((run_tick chrono now batch_size table).completed ≡ true)
      × (select (is_due now) (run_tick chrono now batch_size table).table ≡ [])
unfolding run_tick list_due_scheduled_tasks
run_tick-none_due chrono now batch_size table h fits =
    let all_due : List ScheduledTask = select (is_due now) table in
    let sorted : List ScheduledTask = order_by_fire all_due in
    let sorted_fits : All (Fits now) sorted =
      order_by_fire-All (Fits now) all_due (select-All (Fits now) (is_due now) table fits) in
    rw
      (
        take-all batch_size sorted (omega (arith, order-length all_due, h)),
        fire_all-map chrono now sorted table sorted_fits,
      )
      (
        refl,
        refl,
        quiet chrono now sorted table sorted_fits
            (covered now (ids sorted) table (λ k c. order-ids k all_due ∙ c)),
      )
