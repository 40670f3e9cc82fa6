-- ===== src/Examples/Schedules.antt =====
-- A schedule with a late recurring task (crates/snaca-server/src/scheduler.rs).
use snaca.Base.{ℕ, ◌*◌, true, false, none, some, List, [], ◌∷◌, ◌≡◌, refl, select, arith}
use snaca.State.Schedule.{
  pos, ScheduledTask, is_due, insert_by_fire, order_by_fire, list_due_scheduled_tasks,
}
use snaca.Server.Scheduler.{Chrono, advance_next_fire, fire_all, run_tick}
use snaca.Server.Scheduler.Future.{IsNextSlot, advance_next_fire-IsNextSlot}
use snaca.Server.Scheduler.Pass.{run_tick-none_due}

abbrev hourly : ScheduledTask
hourly = record {
  id = "h";
  tenant_id = "t";
  project_id = "p";
  chat_id = "c";
  plugin = "lark";
  prompt = "report";
  interval_secs = some (pos 3600);
  next_fire_at = 1000;
  last_fired_at = none;
  enabled = true;
  created_at = 0;
}

abbrev tasks : List ScheduledTask
tasks =
    record hourly { id = "once"; interval_secs = none }
    ∷ hourly
    ∷ record hourly { id = "off"; enabled = false }
    ∷ []

abbrev chrono : Chrono
chrono = record {
  max_seconds = 9223372036854775;
  max_time = 8210266876799999999999;
  last_time-max_seconds = omega arith;
  last_time-max_time = omega arith;
}

advance_next_fire-IsNextSlot_example :
    (next : ℕ) × (advance_next_fire chrono hourly 9000000000000 ≡ some (some next))
    × IsNextSlot 9000000000000 1000 (3600 * 1000000000) next
advance_next_fire-IsNextSlot_example =
    advance_next_fire-IsNextSlot chrono hourly 9000000000000 3599 refl (omega arith) (omega arith)

run_tick-none_due_example :
    ((run_tick chrono 5000 10 tasks).fired ≡ order_by_fire (select (is_due 5000) tasks))
    × ((run_tick chrono 5000 10 tasks).completed ≡ true)
    × (select (is_due 5000) (run_tick chrono 5000 10 tasks).table ≡ [])
run_tick-none_due_example =
    run_tick-none_due chrono 5000 10 tasks (omega arith) (tt, (omega arith, (omega arith, tt)))

-- An interval that the admin API accepts and `Duration::seconds` does not take: the task is handed to
-- the handler, the pass ends there, and the task stays due.
abbrev endless : ScheduledTask
endless = record hourly { interval_secs = some (pos 9223372036854775807) }

endless_panics :
    run_tick chrono 5000 10 (endless ∷ [])
    ≡ record { fired = endless ∷ []; completed = false; table = endless ∷ [] }
unfolding run_tick fire_all advance_next_fire list_due_scheduled_tasks order_by_fire insert_by_fire
endless_panics = refl
