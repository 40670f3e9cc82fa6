-- ===== src/Server/Outbox.antt =====
-- crates/snaca-server/src/outbox.rs: write a row, try the plugin, and settle the row by the reply. The
-- database calls succeed, but for an insert of an id that is there. `error_text` is the errors'
-- `Display`, a time is in seconds, and the parser's message is left out of the error of a payload that
-- does not decode.
pub mod Transport
pub mod Settle
pub mod Replies
use mathlib.Core.List.{get_last?}
use snaca.Base.{
  ℕ, ◌+◌, ◌-◌, String, Bool, true, false, ◌&&◌, Option, none, some, List, [], ◌∷◌, get_elem?, ltb,
  if◌then◌else◌,
}
use snaca.Server.Channel.{
  ChannelError, io, disconnected, timeout, send_closed, ChannelResult, ok, err, map_result,
  MessageSendParams, MessageUpdateParams, FileUploadParams, Codec, Plugin,
}
use snaca.State.Outbox.{
  OutboxKind, send_message, update_message, file_upload, NewOutboxEntry, OutboxRow, outbox_enqueue,
  outbox_mark_delivered, outbox_mark_failed, outbox_reschedule,
}

abbrev pub max_attempts : ℕ
max_attempts = 6

abbrev pub backoff_schedule : List ℕ
backoff_schedule = 5 ∷ 30 ∷ 120 ∷ 600 ∷ 1800 ∷ 5400 ∷ []

abbrev pub first_try_cushion : ℕ
first_try_cushion = 30

abbrev pub is_retryable : ChannelError → Bool
is_retryable disconnected = true
is_retryable timeout = true
is_retryable send_closed = true
is_retryable (io e) = true
is_retryable _ = false

abbrev pub or_last : Option ℕ → ℕ
or_last (some d) = d
or_last none = 5400

-- `saturating_sub` is `-`; past the end the last entry is taken.
unfoldable pub next_attempt_after : ℕ → ℕ → ℕ
next_attempt_after now attempts_so_far =
    now + or_last (get_elem? backoff_schedule (attempts_so_far - 1))

pub record UpdateFallback : Type 0 where
  pub chat_id : String
  pub tenant_id : String
  pub content : String

abbrev pub is_update_message : OutboxKind → Bool
is_update_message update_message = true
is_update_message _ = false

-- A failed insert is only logged.
abbrev pub unless_conflict :
    {V : Type 0} → Option (List (OutboxRow V)) → List (OutboxRow V) → List (OutboxRow V)
unless_conflict (some db) old = db
unless_conflict none old = old

module _ (codec : Codec) (error_text : ChannelError → String) where
  open codec use {
    Value, encode_send, decode_send, encode_update, decode_update, encode_upload, decode_upload,
  }

  abbrev pub Table : Type 0
  Table = List (OutboxRow Value)

  -- The entry and the parameters of a replacement for a failed update.
  abbrev pub fallback_params : String → UpdateFallback → MessageSendParams
  fallback_params fresh_id fb = record {
    tenant_id = fb.tenant_id;
    chat_id = fb.chat_id;
    content = fb.content;
    format = none;
    reply_to = none;
    idempotency_key = some fresh_id;
  }

  unfoldable pub enqueue_update_fallback_inner :
      ℕ → String → String → UpdateFallback → Table → Table
  enqueue_update_fallback_inner now plugin_name fresh_id fb db =
      unless_conflict
        (outbox_enqueue now
          (record {
            id = fresh_id;
            plugin = plugin_name;
            tenant_id = fb.tenant_id;
            chat_id = fb.chat_id;
            kind = send_message;
            payload = encode_send (fallback_params fresh_id fb);
            next_attempt_at = now;
          })
          db)
        db

  abbrev pub enqueue_fallback : ℕ → String → String → Option UpdateFallback → Table → Table
  enqueue_fallback now plugin_name fresh_id none db = db
  enqueue_fallback now plugin_name fresh_id (some fb) db =
      enqueue_update_fallback_inner now plugin_name fresh_id fb db

  -- `fresh_id` is what `new_id()` returns if a fallback is written.
  unfoldable pub handle_first_attempt :
      ℕ
      → String
      → String
      → String
      → Option UpdateFallback
      → ChannelResult (Option String)
      → Table
      → Table
  handle_first_attempt now plugin_name fresh_id id fallback (ok platform_id) db =
      outbox_mark_delivered now id platform_id db
  handle_first_attempt now plugin_name fresh_id id fallback (err e) db =
      if is_retryable e
      then outbox_reschedule id (error_text e) (next_attempt_after now 1) db
      else enqueue_fallback now plugin_name fresh_id fallback
          (outbox_mark_failed id (error_text e) db)

  -- `?` after the enqueue: no call is made when the row cannot be written.
  abbrev pub after_enqueue : (Table → Table) → Option Table → Option Table
  after_enqueue settle none = none
  after_enqueue settle (some db) = some (settle db)

  -- `none` is the error of the enqueue.
  unfoldable pub send_message_now :
      ℕ → Plugin → String → String → MessageSendParams → Table → Option Table
  send_message_now now plugin id fresh_id params db =
      let keyed = record params { idempotency_key = some id } in
      after_enqueue
        (handle_first_attempt now plugin.name fresh_id id none
          (map_result some (plugin.message_send keyed)))
        (outbox_enqueue now
          (record {
            id = id;
            plugin = plugin.name;
            tenant_id = params.tenant_id;
            chat_id = params.chat_id;
            kind = send_message;
            payload = encode_send keyed;
            next_attempt_at = now + first_try_cushion;
          })
          db)

  unfoldable pub update_message_now :
      ℕ → Plugin → String → String → String → MessageUpdateParams → Table → Option Table
  update_message_now now plugin id fresh_id fallback_chat_id params db =
      after_enqueue
        (handle_first_attempt now plugin.name fresh_id id
          (some (record {
            chat_id = fallback_chat_id;
            tenant_id = params.tenant_id;
            content = params.content;
          }))
          (map_result (λ _. none) (plugin.message_update params)))
        (outbox_enqueue now
          (record {
            id = id;
            plugin = plugin.name;
            tenant_id = params.tenant_id;
            chat_id = fallback_chat_id;
            kind = update_message;
            payload = encode_update params;
            next_attempt_at = now + first_try_cushion;
          })
          db)

  -- `params` holds the encoded bytes; its key is overwritten by the row's id.
  unfoldable pub file_upload_now :
      ℕ → Plugin → String → String → FileUploadParams → Table → Option Table
  file_upload_now now plugin id fresh_id params db =
      let keyed = record params { idempotency_key = some id } in
      after_enqueue
        (handle_first_attempt now plugin.name fresh_id id none
          (map_result some (plugin.file_upload keyed)))
        (outbox_enqueue now
          (record {
            id = id;
            plugin = plugin.name;
            tenant_id = params.tenant_id;
            chat_id = params.chat_id;
            kind = file_upload;
            payload = encode_upload keyed;
            next_attempt_at = now + first_try_cushion;
          })
          db)

  -- The call of a row's method; `none` is a payload that does not decode.
  abbrev call_decoded :
      {P A : Type 0}
      → (P → ChannelResult A)
      → (A → Option String)
      → Option P
      → Option (ChannelResult (Option String))
  call_decoded call platform_id none = none
  call_decoded call platform_id (some params) = some (map_result platform_id (call params))

  unfoldable pub call_row : Plugin → OutboxKind → Value → Option (ChannelResult (Option String))
  call_row plugin send_message payload = call_decoded plugin.message_send some (decode_send payload)
  call_row plugin update_message payload =
      call_decoded plugin.message_update (λ _. none) (decode_update payload)
  call_row plugin file_upload payload = call_decoded plugin.file_upload some (decode_upload payload)

  abbrev pub fallback_of : OutboxRow Value → Option MessageUpdateParams → Option UpdateFallback
  fallback_of row none = none
  fallback_of row (some upd) =
      some (record { chat_id = row.chat_id; tenant_id = upd.tenant_id; content = upd.content })

  -- The final `match`.
  unfoldable pub settle_row :
      ℕ → String → String → OutboxRow Value → ChannelResult (Option String) → Table → Table
  settle_row now plugin_name fresh_id row (ok platform_id) db =
      outbox_mark_delivered now row.id platform_id db
  settle_row now plugin_name fresh_id row (err e) db =
      let attempts_after = row.attempts + 1 in
      if is_retryable e && ltb attempts_after max_attempts
      then outbox_reschedule row.id (error_text e) (next_attempt_after now attempts_after) db
      else let db' = outbox_mark_failed row.id (error_text e) db in
        if is_update_message row.kind
        then enqueue_fallback now plugin_name fresh_id (fallback_of row (decode_update row.payload))
            db'
        else db'

  abbrev pub settle_called :
      ℕ → String → String → OutboxRow Value → Option (ChannelResult (Option String)) → Table → Table
  settle_called now plugin_name fresh_id row none db =
      outbox_mark_failed row.id "payload deserialise" db
  settle_called now plugin_name fresh_id row (some res) db =
      settle_row now plugin_name fresh_id row res db

  unfoldable pub dispatch_row : ℕ → Plugin → String → OutboxRow Value → Table → Table
  unfolding settle_row call_row enqueue_update_fallback_inner next_attempt_after
  dispatch_row now plugin fresh_id row db =
      settle_called now plugin.name fresh_id row (call_row plugin row.kind row.payload) db
