-- ===== src/State/Schedule.antt =====
-- crates/snaca-state/src/db.rs: the table `scheduled_tasks` and its statements, which succeed. A time
-- is in nanoseconds since the start of 1970; the table keeps its rows in the order of their insertion.
pub mod Order
use snaca.Base.{
  ℕ, String, Bool, true, false, ◌&&◌, Option, none, some, List, [], ◌∷◌, ◌++◌, leb, str_eq, select,
  take, if◌then◌else◌,
}

-- The end of the year 9999: up to here the order of the RFC 3339 texts in the table is that of the
-- times.
abbrev pub last_time : ℕ
last_time = 253402300799999999999

-- `i64`.
pub data ℤ : Type 0 where
  pos negsuc : ℕ → ℤ

pub record ScheduledTask : Type 0 where
  pub id : String
  pub tenant_id : String
  pub project_id : String
  pub chat_id : String
  pub plugin : String
  pub prompt : String
  pub interval_secs : Option ℤ
  pub next_fire_at : ℕ
  pub last_fired_at : Option ℕ
  pub enabled : Bool
  pub created_at : ℕ

pub record NewScheduledTask : Type 0 where
  pub tenant_id : String
  pub project_id : String
  pub chat_id : String
  pub plugin : String
  pub prompt : String
  pub interval_secs : Option ℤ
  pub next_fire_at : ℕ

-- The row of a new task; its id is a new UUID.
abbrev pub task_row : String → ℕ → NewScheduledTask → ScheduledTask
task_row id now t = record {
  id = id;
  tenant_id = t.tenant_id;
  project_id = t.project_id;
  chat_id = t.chat_id;
  plugin = t.plugin;
  prompt = t.prompt;
  interval_secs = t.interval_secs;
  next_fire_at = t.next_fire_at;
  last_fired_at = none;
  enabled = true;
  created_at = now;
}

unfoldable pub schedule_task :
    String → ℕ → NewScheduledTask → List ScheduledTask → ScheduledTask × List ScheduledTask
schedule_task id now t table = (task_row id now t, table ++ task_row id now t ∷ [])

abbrev pub is_due : ℕ → ScheduledTask → Bool
is_due now task = task.enabled && leb task.next_fire_at now

-- `ORDER BY next_fire_at ASC`.
unfoldable pub insert_by_fire : ScheduledTask → List ScheduledTask → List ScheduledTask
insert_by_fire task [] = task ∷ []
insert_by_fire task (other ∷ tasks) =
    let rest = insert_by_fire task tasks in
    if leb task.next_fire_at other.next_fire_at then task ∷ other ∷ tasks else other ∷ rest

unfoldable pub order_by_fire : List ScheduledTask → List ScheduledTask
order_by_fire [] = []
order_by_fire (task ∷ tasks) = insert_by_fire task (order_by_fire tasks)

unfoldable pub list_due_scheduled_tasks : ℕ → ℕ → List ScheduledTask → List ScheduledTask
list_due_scheduled_tasks now limit table = take limit (order_by_fire (select (is_due now) table))

unfoldable pub list_scheduled_tasks_for_chat :
    String → String → List ScheduledTask → List ScheduledTask
list_scheduled_tasks_for_chat tenant chat_id table =
    order_by_fire (select (λ t. str_eq t.tenant_id tenant && str_eq t.chat_id chat_id) table)

unfoldable pub update_task :
    String → (ScheduledTask → ScheduledTask) → List ScheduledTask → List ScheduledTask
update_task id change [] = []
update_task id change (task ∷ tasks) =
    (if str_eq task.id id then change task else task) ∷ update_task id change tasks

-- A recurring task gets its next time, and any other is disabled.
abbrev pub set_fired : ℕ → Option ℕ → ScheduledTask → ScheduledTask
set_fired fired_at (some next) task = record task {
  last_fired_at = some fired_at;
  next_fire_at = next;
}
set_fired fired_at none task = record task { last_fired_at = some fired_at; enabled = false }

unfoldable pub reschedule_task : String → ℕ → Option ℕ → List ScheduledTask → List ScheduledTask
unfolding update_task
reschedule_task id fired_at next_fire_at = update_task id (set_fired fired_at next_fire_at)

unfoldable pub set_scheduled_task_enabled : String → Bool → List ScheduledTask → List ScheduledTask
set_scheduled_task_enabled id enabled = update_task id (λ task. record task { enabled = enabled })

unfoldable pub delete_scheduled_task : String → List ScheduledTask → List ScheduledTask
delete_scheduled_task id = select (λ task. if str_eq task.id id then false else true)
