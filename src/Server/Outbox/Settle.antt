-- ===== src/Server/Outbox/Settle.antt =====
-- crates/snaca-server/src/outbox.rs: what one dispatch of a row leaves in the table.
use snaca.Base.{
  ℕ, ◌+◌, ◌≤◌, ◌<◌, String, true, false, ◌&&◌, Option, none, some, List, ◌≡◌, ◌⊎◌, inl, inr, refl,
  arith, ltb, eq_refl, Bool-cases,
}
use snaca.Server.Outbox.Transport.{IsTransport, is_retryable-IsTransport, not_retryable}
use snaca.Server.Channel.{ChannelError, ChannelResult, ok, err, Codec, Plugin}
use snaca.Server.Outbox.{
  max_attempts, is_retryable, next_attempt_after, UpdateFallback, unless_conflict,
  enqueue_update_fallback_inner, call_row, settle_row, dispatch_row, Table, is_update_message,
  enqueue_fallback, fallback_of, settle_called,
}
use snaca.State.Outbox.{
  delivered, failed, NewOutboxEntry, OutboxRow, new_row, outbox_find, outbox_enqueue,
  outbox_mark_delivered, outbox_mark_failed, outbox_reschedule, set_delivered, set_failed,
  set_rescheduled,
}
use snaca.State.Outbox.Rows.{outbox_find-update_where, outbox_find-append_some}

module _ {V : Type 0} where
  -- A row that is found stays found behind an insert.
  outbox_find-enqueue :
      (now : ℕ) (key : String) (entry : NewOutboxEntry V) (db : List (OutboxRow V))
      (row : OutboxRow V)
      → outbox_find key db ≡ some row
      → outbox_find key (unless_conflict (outbox_enqueue now entry db) db) ≡ some row
  unfolding outbox_enqueue
  outbox_find-enqueue now key entry db row h =
      ground (arith, outbox_find-append_some key db (new_row now entry) row)

  pub find-mark_delivered :
      (now : ℕ) (id : String) (platform : Option String) (db : List (OutboxRow V))
      (row : OutboxRow V)
      → outbox_find id db ≡ some row
      → outbox_find id (outbox_mark_delivered now id platform db)
        ≡ some (set_delivered now platform row)
  unfolding outbox_mark_delivered
  find-mark_delivered now id platform db row h =
      rw (outbox_find-update_where id id (set_delivered now platform) db (λ r. refl), eq_refl id, h)

  pub find-mark_failed :
      (id e : String) (db : List (OutboxRow V)) (row : OutboxRow V)
      → outbox_find id db ≡ some row
      → outbox_find id (outbox_mark_failed id e db) ≡ some (set_failed e row)
  unfolding outbox_mark_failed
  find-mark_failed id e db row h =
      rw (outbox_find-update_where id id (set_failed e) db (λ r. refl), eq_refl id, h)

  pub find-reschedule :
      (id e : String) (at : ℕ) (db : List (OutboxRow V)) (row : OutboxRow V)
      → outbox_find id db ≡ some row
      → outbox_find id (outbox_reschedule id e at db) ≡ some (set_rescheduled e at row)
  unfolding outbox_reschedule
  find-reschedule id e at db row h =
      rw (outbox_find-update_where id id (set_rescheduled e at) db (λ r. refl), eq_refl id, h)

retried :
    (e : ChannelError) (attempts : ℕ)
    → (is_retryable e && ltb (attempts + 1) max_attempts) ≡ true
    → IsTransport e × (attempts + 1 < max_attempts)
retried e attempts h = (is_retryable-IsTransport e (ground (arith, h)), ground (arith, h))

given_up :
    (e : ChannelError) (attempts : ℕ)
    → (is_retryable e && ltb (attempts + 1) max_attempts) ≡ false
    → (¬ IsTransport e) ⊎ (max_attempts ≤ attempts + 1)
given_up e attempts h = elim (Bool-cases (is_retryable e)) [
  | inl t ↦ inr (ground (arith, h, t))
  | inr f ↦ inl (not_retryable e f)
]

module _ (codec : Codec) (error_text : ChannelError → String) where
  open codec use {Value, decode_update}

  find-enqueue_fallback :
      (now : ℕ) (plugin_name fresh_id key : String) (fb : UpdateFallback)
      (db : Table codec error_text) (row : OutboxRow Value)
      → outbox_find key db ≡ some row
      → outbox_find key
          (enqueue_update_fallback_inner codec error_text now plugin_name fresh_id fb db)
        ≡ some row
  unfolding enqueue_update_fallback_inner
  find-enqueue_fallback now plugin_name fresh_id key fb db row h =
      outbox_find-enqueue now key _ db row h

  -- No further try follows, with this text: the payload does not decode, or the call's error is none of
  -- the transport, or this was the last attempt.
  abbrev pub GivesUp : OutboxRow Value → Option (ChannelResult (Option String)) → String → Type 0
  GivesUp row none e = e ≡ "payload deserialise"
  GivesUp row (some (ok platform_id)) e = ⊥
  GivesUp row (some (err failure)) e =
      ((¬ IsTransport failure) ⊎ (max_attempts ≤ row.attempts + 1)) × (e ≡ error_text failure)

  -- What the reply to a row's call makes of the row: delivered with the platform's id for an `Ok`, failed
  -- where the worker gives up, and else, after an error of the transport, a row with one attempt more,
  -- due after the wait of its attempts and otherwise as before.
  pub data IsSettled (now : ℕ) (row : OutboxRow Value)
      : Option (ChannelResult (Option String)) → OutboxRow Value → Type 0 where
    is_delivered :
        {after : OutboxRow Value} (platform_id : Option String)
        → after ≡ record row {
          status = delivered;
          platform_message_id = platform_id;
          delivered_at = some now;
          last_error = none;
        }
        → IsSettled now row (some (ok platform_id)) after
    is_failed :
        {reply : Option (ChannelResult (Option String))} {after : OutboxRow Value} (e : String)
        → GivesUp row reply e
        → after ≡ record row { status = failed; last_error = some e }
        → IsSettled now row reply after
    will_retry :
        {after : OutboxRow Value} (e : ChannelError)
        → IsTransport e
        → row.attempts + 1 < max_attempts
        → after ≡ record row {
          attempts = row.attempts + 1;
          last_error = some (error_text e);
          next_attempt_at = next_attempt_after now (row.attempts + 1);
        }
        → IsSettled now row (some (err e)) after

  -- The result that the table holds for the row, and that it is settled.
  abbrev SettledIn :
      ℕ → OutboxRow Value → Option (ChannelResult (Option String)) → Table codec error_text → Type 0
  SettledIn now row reply db =
      (after : OutboxRow Value) × (outbox_find row.id db ≡ some after)
      × IsSettled now row reply after

  failed_with_fallback :
      (now : ℕ) (plugin_name fresh_id : String) (row : OutboxRow Value) (e : String)
      (reply : Option (ChannelResult (Option String))) (fallback : Option UpdateFallback)
      (db : Table codec error_text)
      → outbox_find row.id db ≡ some row
      → GivesUp row reply e
      → SettledIn now row reply (
          enqueue_fallback codec error_text now plugin_name fresh_id fallback
            (outbox_mark_failed row.id e db))
  failed_with_fallback now plugin_name fresh_id row e reply none db h g =
      (set_failed e row, find-mark_failed row.id e db row h, is_failed e g refl)
  failed_with_fallback now plugin_name fresh_id row e reply (some fb) db h g = (
    set_failed e row,
    find-enqueue_fallback now plugin_name fresh_id row.id fb (outbox_mark_failed row.id e db)
        (set_failed e row) (find-mark_failed row.id e db row h),
    is_failed e g refl,
  )

  settle_called-IsSettled :
      (now : ℕ) (plugin_name fresh_id : String) (row : OutboxRow Value)
      (res : Option (ChannelResult (Option String))) (db : Table codec error_text)
      → outbox_find row.id db ≡ some row
      → SettledIn now row res (settle_called codec error_text now plugin_name fresh_id row res db)
  unfolding settle_row
  settle_called-IsSettled now plugin_name fresh_id row none db h =
      failed_with_fallback now plugin_name fresh_id row "payload deserialise" none none db h refl
  settle_called-IsSettled now plugin_name fresh_id row (some (ok platform_id)) db h = (
    set_delivered now platform_id row,
    find-mark_delivered now row.id platform_id db row h,
    is_delivered platform_id refl,
  )
  settle_called-IsSettled now plugin_name fresh_id row (some (err e)) db h =
      elim (Bool-cases (is_retryable e && ltb (row.attempts + 1) max_attempts)) [
        | inl again ↦
            let both = retried e row.attempts again in
            rw again (
              set_rescheduled (error_text e) (next_attempt_after now (row.attempts + 1)) row,
              find-reschedule row.id (error_text e) (next_attempt_after now (row.attempts + 1)) db
                  row h,
              will_retry e both.0 both.1 refl,
            )
        | inr over ↦
            let g : GivesUp row (some (err e)) (error_text e) =
              (given_up e row.attempts over, refl) in
            rw over (elim (Bool-cases (is_update_message row.kind)) [
              | inl update ↦ rw update (
                  failed_with_fallback now plugin_name fresh_id row (error_text e) (some (err e))
                    (fallback_of codec error_text row (decode_update row.payload)) db h g)
              | inr new ↦ rw new (
                  failed_with_fallback now plugin_name fresh_id row (error_text e) (some (err e))
                    none db h g)
            ])
      ]

  -- A row that is dispatched as it stands in the table is settled by the reply to its call: delivered
  -- with the platform's id if the plugin accepts it; due again after the wait of the new count of
  -- attempts, one more, if an error of the transport leaves it below the limit; and failed with the
  -- error's text, its attempts as before, if its payload does not decode, on any other error and at the
  -- last attempt.
  pub dispatch_row-IsSettled :
      (now : ℕ) (plugin : Plugin) (fresh_id : String) (row : OutboxRow Value)
      (db : Table codec error_text)
      → outbox_find row.id db ≡ some row
      → (after : OutboxRow Value) × (outbox_find row.id
            (dispatch_row codec error_text now plugin fresh_id row db)
          ≡ some after)
        × IsSettled now row (call_row codec error_text plugin row.kind row.payload) after
  unfolding dispatch_row
  dispatch_row-IsSettled now plugin fresh_id row db h =
      settle_called-IsSettled now plugin.name fresh_id row
        (call_row codec error_text plugin row.kind row.payload) db h
