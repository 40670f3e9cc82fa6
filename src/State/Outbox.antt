-- ===== src/State/Outbox.antt =====
-- crates/snaca-state/src/models.rs and db.rs: the `outbox` table. `V` is `serde_json::Value`.
pub mod Claims
pub mod Rows
use snaca.Base.{
  ℕ, ◌+◌, String, Bool, true, false, not, ◌&&◌, ◌||◌, Option, none, some, List, [], ◌∷◌, ◌++◌, map,
  leb, ltb, str_eq, any, select, take, if◌then◌else◌,
}

pub data OutboxKind : Type 0 where
  send_message update_message file_upload : OutboxKind

pub data OutboxStatus : Type 0 where
  pending delivered failed : OutboxStatus

pub record NewOutboxEntry (V : Type 0) : Type 0 where
  pub id : String
  pub plugin : String
  pub tenant_id : String
  pub chat_id : String
  pub kind : OutboxKind
  pub payload : V
  pub next_attempt_at : ℕ

pub record OutboxRow (V : Type 0) : Type 0 where
  pub id : String
  pub plugin : String
  pub tenant_id : String
  pub chat_id : String
  pub kind : OutboxKind
  pub payload : V
  pub attempts : ℕ
  pub next_attempt_at : ℕ
  pub status : OutboxStatus
  pub last_error : Option String
  pub platform_message_id : Option String
  pub created_at : ℕ
  pub delivered_at : Option ℕ

abbrev pub is_pending : OutboxStatus → Bool
is_pending pending = true
is_pending _ = false

abbrev pub is_delivered : OutboxStatus → Bool
is_delivered delivered = true
is_delivered _ = false

-- `delivered_at IS NOT NULL AND delivered_at < ?`.
abbrev pub delivered_before : ℕ → Option ℕ → Bool
delivered_before cutoff none = false
delivered_before cutoff (some at) = ltb at cutoff

module _ {V : Type 0} where
  abbrev pub new_row : ℕ → NewOutboxEntry V → OutboxRow V
  new_row now entry = record {
    id = entry.id;
    plugin = entry.plugin;
    tenant_id = entry.tenant_id;
    chat_id = entry.chat_id;
    kind = entry.kind;
    payload = entry.payload;
    attempts = 0;
    next_attempt_at = entry.next_attempt_at;
    status = pending;
    last_error = none;
    platform_message_id = none;
    created_at = now;
    delivered_at = none;
  }

  unfoldable pub outbox_find : String → List (OutboxRow V) → Option (OutboxRow V)
  outbox_find id [] = none
  outbox_find id (row ∷ table) = if str_eq row.id id then some row else outbox_find id table

  -- `none` is a conflict on the primary key.
  unfoldable pub outbox_enqueue :
      ℕ → NewOutboxEntry V → List (OutboxRow V) → Option (List (OutboxRow V))
  outbox_enqueue now entry table =
      if any (λ row. str_eq row.id entry.id) table
      then none
      else some (table ++ new_row now entry ∷ [])

  -- `UPDATE outbox SET … WHERE id = ?`.
  unfoldable pub update_where :
      String → (OutboxRow V → OutboxRow V) → List (OutboxRow V) → List (OutboxRow V)
  update_where id change [] = []
  update_where id change (row ∷ table) =
      (if str_eq row.id id then change row else row) ∷ update_where id change table

  abbrev pub set_delivered : ℕ → Option String → OutboxRow V → OutboxRow V
  set_delivered now platform_message_id row = record row {
    status = delivered;
    platform_message_id = platform_message_id;
    delivered_at = some now;
    last_error = none;
  }

  unfoldable pub outbox_mark_delivered :
      ℕ → String → Option String → List (OutboxRow V) → List (OutboxRow V)
  unfolding update_where
  outbox_mark_delivered now id platform_message_id =
      update_where id (set_delivered now platform_message_id)

  abbrev pub set_failed : String → OutboxRow V → OutboxRow V
  set_failed last_error row = record row { status = failed; last_error = some last_error }

  unfoldable pub outbox_mark_failed : String → String → List (OutboxRow V) → List (OutboxRow V)
  unfolding update_where
  outbox_mark_failed id last_error = update_where id (set_failed last_error)

  abbrev pub set_rescheduled : String → ℕ → OutboxRow V → OutboxRow V
  set_rescheduled last_error next_attempt_at row = record row {
    attempts = row.attempts + 1;
    last_error = some last_error;
    next_attempt_at = next_attempt_at;
  }

  unfoldable pub outbox_reschedule : String → String → ℕ → List (OutboxRow V) → List (OutboxRow V)
  unfolding update_where
  outbox_reschedule id last_error next_attempt_at =
      update_where id (set_rescheduled last_error next_attempt_at)

  -- The `WHERE` clause of the claim.
  abbrev pub is_claimable : ℕ → String → OutboxRow V → Bool
  is_claimable now plugin row =
      str_eq row.plugin plugin && (is_pending row.status && leb row.next_attempt_at now)

  -- `ORDER BY created_at ASC`, rows of one time in the table's order.
  unfoldable pub insert_by_age : OutboxRow V → List (OutboxRow V) → List (OutboxRow V)
  insert_by_age row [] = row ∷ []
  insert_by_age row (other ∷ rows) =
      if leb row.created_at other.created_at
      then row ∷ other ∷ rows
      else other ∷ insert_by_age row rows

  unfoldable pub order_by_age : List (OutboxRow V) → List (OutboxRow V)
  unfolding insert_by_age
  order_by_age [] = []
  order_by_age (row ∷ rows) = insert_by_age row (order_by_age rows)

  unfoldable pub outbox_claim_pending : ℕ → String → ℕ → List (OutboxRow V) → List (OutboxRow V)
  unfolding order_by_age
  outbox_claim_pending now plugin limit table =
      take limit (order_by_age (select (is_claimable now plugin) table))

  abbrev pub set_retry : ℕ → OutboxRow V → OutboxRow V
  set_retry now row = record row { status = pending; next_attempt_at = now; last_error = none }

  -- The second part is `rows_affected() > 0`.
  unfoldable pub outbox_force_retry : ℕ → String → List (OutboxRow V) → List (OutboxRow V) × Bool
  unfolding update_where
  outbox_force_retry now id table =
      (update_where id (set_retry now) table, any (λ row. str_eq row.id id) table)

  unfoldable pub outbox_purge_delivered_older_than : ℕ → List (OutboxRow V) → List (OutboxRow V)
  outbox_purge_delivered_older_than cutoff =
      select (λ row. not (is_delivered row.status && delivered_before cutoff row.delivered_at))
