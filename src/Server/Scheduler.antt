-- ===== src/Server/Scheduler.antt =====
-- crates/snaca-server/src/scheduler.rs: one poll pass, and the next time of a task. The handler's
-- result is only logged, so a pass shows as its calls and the table it leaves. The additions of chrono
-- panic out of its range, which ends the pass: `none` stands for the panic.
pub mod Future
pub mod Fits
pub mod Pass
use snaca.Base.{
  ℕ, zero, suc, ◌+◌, ◌*◌, ◌≤◌, Bool, true, false, Option, none, some, List, [], ◌∷◌, leb,
  if◌then◌else◌,
}
use snaca.State.Schedule.{
  ℤ, pos, negsuc, last_time, ScheduledTask, list_due_scheduled_tasks, reschedule_task,
}

-- The range of chrono: the seconds that `Duration::seconds` takes and the last `DateTime<Utc>`, which
-- its documentation puts at about 292 million years and in the year 262142.
pub record Chrono : Type 0 where
  pub max_seconds : ℕ
  pub max_time : ℕ
  pub last_time-max_seconds : last_time ≤ max_seconds * 1000000000
  pub last_time-max_time : last_time ≤ max_time

abbrev pub max_hops : ℕ
max_hops = 100000

-- The steps of `advance_next_fire`, with `none` for a panic.
module _ (chrono : Chrono) (now : ℕ) where
  abbrev pub checked_add : ℕ → ℕ → Option ℕ
  checked_add t d = if leb (t + d) chrono.max_time then some (t + d) else none

  -- The `while` loop, with the hops that are left.
  unfoldable pub walk : ℕ → ℕ → ℕ → Option ℕ
  walk interval zero next = some next
  walk interval (suc hops) next =
      let rest = walk interval hops (next + interval) in
      if leb next now
      then if leb (next + interval) chrono.max_time then rest else none
      else some next

  -- The safety bail after the loop.
  abbrev pub bail : ℕ → Option ℕ → Option ℕ
  bail interval none = none
  bail interval (some next) = if leb next now then checked_add now interval else some next

  unfoldable pub first_after : ℕ → ℕ → Option ℕ
  unfolding walk
  first_after interval next_fire_at = bail interval (walk interval max_hops next_fire_at)

  abbrev pub fires_at : Option ℕ → Option (Option ℕ)
  fires_at none = none
  fires_at (some next) = some (some next)

  abbrev pub next_slot : ℕ → Option ℤ → Option (Option ℕ)
  next_slot next_fire_at none = some none
  next_slot next_fire_at (some (negsuc n)) = some none
  next_slot next_fire_at (some (pos zero)) = some none
  next_slot next_fire_at (some (pos (suc n))) =
      if leb (suc n) chrono.max_seconds
      then fires_at (first_after (suc n * 1000000000) next_fire_at)
      else none

unfoldable pub advance_next_fire : Chrono → ScheduledTask → ℕ → Option (Option ℕ)
unfolding first_after
advance_next_fire chrono task now = next_slot chrono now task.next_fire_at task.interval_secs

-- The tasks handed to the handler in order, whether the pass ran to its end, and the table it left.
pub record Passed : Type 0 where
  pub fired : List ScheduledTask
  pub completed : Bool
  pub table : List ScheduledTask

abbrev pub fired_first : ScheduledTask → Passed → Passed
fired_first task passed = record passed { fired = task ∷ passed.fired }

abbrev pub rescheduled :
    ℕ
    → ScheduledTask
    → List ScheduledTask
    → Option (Option ℕ)
    → (List ScheduledTask → Passed)
    → Passed
rescheduled now task table none later = record {
  fired = task ∷ [];
  completed = false;
  table = table;
}
rescheduled now task table (some next) later =
    fired_first task (later (reschedule_task task.id now next table))

-- The `for` loop over the due tasks.
unfoldable pub fire_all : Chrono → ℕ → List ScheduledTask → List ScheduledTask → Passed
unfolding advance_next_fire reschedule_task
fire_all chrono now [] table = record { fired = []; completed = true; table = table }
fire_all chrono now (task ∷ due) table =
    rescheduled now task table (advance_next_fire chrono task now) (fire_all chrono now due)

unfoldable pub run_tick : Chrono → ℕ → ℕ → List ScheduledTask → Passed
unfolding fire_all list_due_scheduled_tasks
run_tick chrono now batch_size table =
    fire_all chrono now (list_due_scheduled_tasks now batch_size table) table
