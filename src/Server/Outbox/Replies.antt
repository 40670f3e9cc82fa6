-- ===== src/Server/Outbox/Replies.antt =====
-- crates/snaca-server/src/outbox.rs: the reply behind a failed update.

use snaca.Base.{
  ℕ, ◌+◌, String, Bool, false, Option, none, some, List, [], ◌∷◌, ◌++◌, ◌≡◌, refl, ◌∙◌, subst,
  arith, any, str_eq, eq_refl, Bool-cases, inl, inr,
}
use snaca.Server.Channel.{
  ChannelError, ChannelResult, ok, err, map_result, Codec, Plugin, MessageUpdateParams,
}
use snaca.Server.Outbox.{
  after_enqueue, first_try_cushion, is_retryable, next_attempt_after, UpdateFallback,
  enqueue_update_fallback_inner, handle_first_attempt, update_message_now, Table, fallback_params,
}
use snaca.Server.Outbox.Settle.{find-mark_delivered, find-mark_failed, find-reschedule}
use snaca.State.Outbox.{
  send_message, update_message, pending, delivered, failed, NewOutboxEntry, OutboxRow, new_row,
  outbox_find, outbox_enqueue, update_where, outbox_mark_failed, set_delivered, set_failed,
  set_rescheduled,
}
use snaca.State.Outbox.Rows.{
  outbox_find-append, outbox_find-append_some, any-append, any-update_where,
}

abbrev has_id : {V : Type 0} → String → List (OutboxRow V) → Bool
has_id id table = any (λ r. str_eq r.id id) table

module _ (codec : Codec) (error_text : ChannelError → String) where
  open codec use {Value, decode_send, decode-encode_send, encode_send, encode_update}

  -- The row of an update, after its first try: delivered, to be tried again, or failed with a fresh
  -- row that sends the content to the chat.
  pub data IsReplied (fresh_id : String) (fb : UpdateFallback) (db : Table codec error_text)
      : OutboxRow Value → Type 0 where
    is_delivered : {row : OutboxRow Value} → row.status ≡ delivered → IsReplied fresh_id fb db row
    will_retry :
        {row : OutboxRow Value}
        → row.status ≡ pending
        → row.attempts ≡ 1
        → IsReplied fresh_id fb db row
    replaced :
        {row : OutboxRow Value} (sent : OutboxRow Value)
        → row.status ≡ failed
        → outbox_find fresh_id db ≡ some sent
        → sent.status ≡ pending
        → sent.kind ≡ send_message
        → sent.chat_id ≡ fb.chat_id
        → decode_send sent.payload ≡ some (fallback_params codec error_text fresh_id fb)
        → IsReplied fresh_id fb db row

  abbrev RepliedIn : String → String → UpdateFallback → Table codec error_text → Type 0
  RepliedIn id fresh_id fb db =
      (row : OutboxRow Value) × (outbox_find id db ≡ some row) × IsReplied fresh_id fb db row

  replaced_by :
      (now : ℕ) (plugin_name id fresh_id e : String) (fb : UpdateFallback)
      (db : Table codec error_text) (row : OutboxRow Value)
      → outbox_find id db ≡ some row
      → has_id fresh_id db ≡ false
      → RepliedIn id fresh_id fb (
          enqueue_update_fallback_inner codec error_text now plugin_name fresh_id fb
            (outbox_mark_failed id e db))
  unfolding enqueue_update_fallback_inner outbox_enqueue outbox_mark_failed
  replaced_by now plugin_name id fresh_id e fb db row h absent =
      let db' : Table codec error_text = update_where id (set_failed e) db in
      let sent : OutboxRow Value = new_row now (record {
        id = fresh_id;
        plugin = plugin_name;
        tenant_id = fb.tenant_id;
        chat_id = fb.chat_id;
        kind = send_message;
        payload = encode_send (fallback_params codec error_text fresh_id fb);
        next_attempt_at = now;
      }) in
      let new : has_id fresh_id db' ≡ false =
        any-update_where id fresh_id (set_failed e) db (λ r. refl) ∙ absent in
      rw new (
        set_failed e row,
        outbox_find-append_some id db' sent (set_failed e row) (find-mark_failed id e db row h),
        replaced sent refl (rw (outbox_find-append fresh_id db' sent new, eq_refl fresh_id)) refl
            refl refl (decode-encode_send (fallback_params codec error_text fresh_id fb)),
      )

  first_attempt-IsReplied :
      (now : ℕ) (plugin_name id fresh_id : String) (fb : UpdateFallback)
      (res : ChannelResult (Option String)) (db : Table codec error_text) (row : OutboxRow Value)
      → outbox_find id db ≡ some row
      → has_id fresh_id db ≡ false
      → row.status ≡ pending
      → row.attempts ≡ 0
      → RepliedIn id fresh_id fb
          (handle_first_attempt codec error_text now plugin_name fresh_id id (some fb) res db)
  unfolding handle_first_attempt
  first_attempt-IsReplied now plugin_name id fresh_id fb (ok p) db row h absent s a =
      (set_delivered now p row, find-mark_delivered now id p db row h, is_delivered refl)
  first_attempt-IsReplied now plugin_name id fresh_id fb (err e) db row h absent s a =
      elim (Bool-cases (is_retryable e)) [
        | inl again ↦ rw again (
          set_rescheduled (error_text e) (next_attempt_after now 1) row,
          find-reschedule id (error_text e) (next_attempt_after now 1) db row h,
          will_retry s (omega (arith, a)),
        )
        | inr terminal ↦
            rw terminal (replaced_by now plugin_name id fresh_id (error_text e) fb db row h absent)
      ]

  settled :
      (settle : Table codec error_text → Table codec error_text) (d d' : Table codec error_text)
      (o : Option (Table codec error_text))
      → o ≡ some d
      → after_enqueue codec error_text settle o ≡ some d'
      → settle d ≡ d'
  settled settle d d' none e h = absurd (cc)
  settled settle d d' (some x) e h = cc

  -- The entry `update_message` writes.
  abbrev entry : ℕ → String → String → String → MessageUpdateParams → NewOutboxEntry Value
  entry now plugin_name id chat_id params = record {
    id = id;
    plugin = plugin_name;
    tenant_id = params.tenant_id;
    chat_id = chat_id;
    kind = update_message;
    payload = encode_update params;
    next_attempt_at = now + first_try_cushion;
  }

  -- The reply of an update is not lost: when `update_message` could write its row, and the fresh id
  -- is new, the row is delivered, or pending for another try, or it failed and a pending
  -- `send_message` row holds the same content for the fallback chat.
  pub update_message_now-IsReplied :
      (now : ℕ) (plugin : Plugin) (id fresh_id chat_id : String) (params : MessageUpdateParams)
      (db : Table codec error_text) {db' : Table codec error_text}
      → has_id fresh_id db ≡ false
      → str_eq id fresh_id ≡ false
      → update_message_now codec error_text now plugin id fresh_id chat_id params db ≡ some db'
      → let fb : UpdateFallback = record {
        chat_id = chat_id;
        tenant_id = params.tenant_id;
        content = params.content;
      } in
        (row : OutboxRow Value) × (outbox_find id db' ≡ some row) × IsReplied fresh_id fb db' row
  unfolding update_message_now outbox_enqueue
  update_message_now-IsReplied now plugin id fresh_id chat_id params db {db'} absent other h =
      elim (Bool-cases (has_id id db)) [
        | inl there ↦ absurd (cc (rw there at h))
        | inr new ↦
            let fb : UpdateFallback = record {
              chat_id = chat_id;
              tenant_id = params.tenant_id;
              content = params.content;
            } in
            let row : OutboxRow Value = new_row now (entry now plugin.name id chat_id params) in
            let found : outbox_find id (db ++ row ∷ []) ≡ some row =
              rw (outbox_find-append id db row new, eq_refl id) refl in
            let still_absent : has_id fresh_id (db ++ row ∷ []) ≡ false =
              rw (any-append (λ r. str_eq r.id fresh_id) db (row ∷ []), absent, other) refl in
            let moved =
              settled
                (handle_first_attempt codec error_text now plugin.name fresh_id id (some fb)
                  (map_result (λ _. none) (plugin.message_update params)))
                (db ++ row ∷ []) db'
                (outbox_enqueue now (entry now plugin.name id chat_id params) db) (rw new refl) h in
            subst (λ d. RepliedIn id fresh_id fb d) moved
              (first_attempt-IsReplied now plugin.name id fresh_id fb
                (map_result (λ _. none) (plugin.message_update params)) (db ++ row ∷ []) row found
                still_absent refl refl)
      ]
