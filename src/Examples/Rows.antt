-- ===== src/Examples/Rows.antt =====
-- An outbox with two rows and a plugin whose calls fail (crates/snaca-server/src/outbox.rs). A stored
-- payload is the parameters themselves.
use mathlib.Core.List.{Perm}
use snaca.Base.{◌++◌, String, Option, none, some, List, [], ◌∷◌, ◌≡◌, refl}
use snaca.Server.Channel.{
  ChannelError, timeout, auth_failed, err, Codec, Plugin, MessageSendParams, MessageUpdateParams,
  FileUploadParams,
}
use snaca.Server.Outbox.{
  call_row, dispatch_row, update_message_now, Table, handle_first_attempt,
  enqueue_update_fallback_inner,
}
use snaca.Server.Outbox.Settle.{IsSettled, dispatch_row-IsSettled}
use snaca.Server.Outbox.Replies.{IsReplied, update_message_now-IsReplied}
use snaca.State.Outbox.{
  send_message, update_message, pending, OutboxRow, outbox_find, outbox_enqueue, outbox_mark_failed,
  outbox_claim_pending,
}
use snaca.State.Outbox.Claims.{IsFifo, IsDue, Picks, Fills, outbox_claim_pending_lem}

data Payload : Type 0 where
  sent : MessageSendParams → Payload
  updated : MessageUpdateParams → Payload
  uploaded : FileUploadParams → Payload

abbrev decode_sent : Payload → Option MessageSendParams
decode_sent (sent p) = some p
decode_sent _ = none

abbrev decode_updated : Payload → Option MessageUpdateParams
decode_updated (updated p) = some p
decode_updated _ = none

abbrev decode_uploaded : Payload → Option FileUploadParams
decode_uploaded (uploaded p) = some p
decode_uploaded _ = none

abbrev codec : Codec
codec = record {
  Value = Payload;
  encode_send = sent;
  decode_send = decode_sent;
  encode_update = updated;
  decode_update = decode_updated;
  encode_upload = uploaded;
  decode_upload = decode_uploaded;
  decode-encode_send = λ p. refl;
  decode-encode_update = λ p. refl;
  decode-encode_upload = λ p. refl;
}

abbrev error_text : ChannelError → String
error_text e = "error"

abbrev refusing : Plugin
refusing = record {
  name = "lark";
  message_send = λ p. err auth_failed;
  message_update = λ p. err auth_failed;
  file_upload = λ p. err timeout;
}

abbrev greeting : MessageSendParams
greeting = record {
  tenant_id = "t";
  chat_id = "c";
  content = "hi";
  format = none;
  reply_to = none;
  idempotency_key = some "1";
}

abbrev waiting : OutboxRow Payload
waiting = record {
  id = "1";
  plugin = "lark";
  tenant_id = "t";
  chat_id = "c";
  kind = send_message;
  payload = sent greeting;
  attempts = 2;
  next_attempt_at = 10;
  status = pending;
  last_error = none;
  platform_message_id = none;
  created_at = 1;
  delivered_at = none;
}

abbrev table : List (OutboxRow Payload)
table = waiting ∷ record waiting { id = "2"; created_at = 0 } ∷ []

outbox_claim_pending_example :
    (due : List (OutboxRow Payload)) × (rest : List (OutboxRow Payload)) × Picks
      (IsDue 20 "lark")
      table
      due
    × Perm (outbox_claim_pending 20 "lark" 1 table ++ rest) due
    × IsFifo (outbox_claim_pending 20 "lark" 1 table ++ rest)
    × Fills 1 (outbox_claim_pending 20 "lark" 1 table) rest
outbox_claim_pending_example = outbox_claim_pending_lem 20 "lark" 1 table

waiting_found : outbox_find "1" table ≡ some waiting
unfolding outbox_find
waiting_found = refl

dispatch_row-IsSettled_example :
    (after : OutboxRow Payload) × (outbox_find "1"
        (dispatch_row codec error_text 20 refusing "f" waiting table)
      ≡ some after)
    × IsSettled codec error_text 20 waiting
        (call_row codec error_text refusing send_message (sent greeting))
        after
dispatch_row-IsSettled_example =
    dispatch_row-IsSettled codec error_text 20 refusing "f" waiting table waiting_found

abbrev edit : MessageUpdateParams
edit = record { tenant_id = "t"; message_id = "m"; content = "new" }

abbrev edited : Table codec error_text
edited =
    enqueue_update_fallback_inner codec error_text 20 "lark" "f"
      (record { chat_id = "c"; tenant_id = "t"; content = "new" })
      (outbox_mark_failed "e" "error" (
        record {
          id = "e";
          plugin = "lark";
          tenant_id = "t";
          chat_id = "c";
          kind = update_message;
          payload = updated edit;
          attempts = 0;
          next_attempt_at = 50;
          status = pending;
          last_error = none;
          platform_message_id = none;
          created_at = 20;
          delivered_at = none;
        }
        ∷ []))

edit_written : update_message_now codec error_text 20 refusing "e" "f" "c" edit [] ≡ some edited
unfolding update_message_now outbox_enqueue handle_first_attempt
edit_written = refl

update_message_now-IsReplied_example :
    (row : OutboxRow Payload) × (outbox_find "e" edited ≡ some row)
    × IsReplied codec error_text "f"
        (record { chat_id = "c"; tenant_id = "t"; content = "new" })
        edited
        row
update_message_now-IsReplied_example =
    update_message_now-IsReplied codec error_text 20 refusing "e" "f" "c" edit [] refl refl
      edit_written
