-- ===== src/Host/Reader.antt =====
-- crates/snaca-channel-host/src/supervisor.rs: `reader_task`, which takes in what a plugin says. A sender
-- of a oneshot channel is a number, and what the task sends is listed. The dispatcher and the writer
-- take what they are sent; an error's reason is left out.
pub mod Once
pub mod Authorised
use snaca.Base.{
  ℕ, String, Bool, true, false, Option, none, some, List, [], ◌∷◌, ◌++◌, str_eq, if◌then◌else◌,
}
use snaca.Core.Content.{Text}
use snaca.Protocol.JsonRpc.{
  RequestId, id_eq, ErrorCode, method_not_found, invalid_params, auth_failed, JsonRpcError,
  JsonRpcRequest, JsonRpcResponse, JsonRpcNotification, JsonRpcMessage, request, response,
  notification, ok, err, new_error,
}
use snaca.Protocol.Codec.{Serde, Decoded, message, json, empty_frame, payload_too_large, decode}
use snaca.Engine.Approval.{WireDecision}
use snaca.Host.Params.{
  ApprovalCallbackParams, QuestionCallbackParams, ToolAdvertiseParams, CommandAdvertiseParams,
  PassedOn, InboundEvent, message_received, message_recalled, log, approval_callback,
  question_callback, plugin_error, unknown, Wire,
}

-- What the task sends: on a oneshot channel, to the dispatcher, to the plugin.
pub data Sent (V : Type 0) : Type 0 where
  respond : ℕ → JsonRpcResponse V → Sent V
  decide : ℕ → WireDecision → Sent V
  answer : ℕ → QuestionCallbackParams V → Sent V
  inbound : InboundEvent V → Sent V
  reply : JsonRpcResponse V → Sent V

-- The maps the task shares with the handle: `pending`, the two registries and what was advertised.
pub record Shared (V : Type 0) : Type 0 where
  pub pending : List (RequestId × ℕ)
  pub approvals : List (String × ℕ)
  pub questions : List (String × ℕ)
  pub advertised_tools : List (String × ToolAdvertiseParams V)
  pub advertised_commands : List (String × CommandAdvertiseParams)

-- `HashMap::remove`: the value and what is left.
abbrev pub kept : {K : Type 0} → K × ℕ → Option ℕ × List (K × ℕ) → Option ℕ × List (K × ℕ)
kept entry (o, rest) = (o, entry ∷ rest)

unfoldable pub remove : {K : Type 0} → (K → K → Bool) → K → List (K × ℕ) → Option ℕ × List (K × ℕ)
remove eq k [] = (none, [])
remove eq k ((j, s) ∷ entries) =
    let later = remove eq k entries in if eq j k then (some s, entries) else kept (j, s) later

-- `HashMap::insert`.
unfoldable pub insert : {A : Type 0} → String → A → List (String × A) → List (String × A)
insert k a [] = (k, a) ∷ []
insert k a ((j, b) ∷ entries) =
    let later = insert k a entries in if str_eq j k then (k, a) ∷ entries else (j, b) ∷ later

abbrev pub check_auth : String → String → Bool
check_auth provided expected = str_eq provided expected

-- `deserialize_params`.
abbrev pub deserialize_params : {V P : Type 0} → (V → Option P) → Option V → Option P
deserialize_params from_value none = none
deserialize_params from_value (some v) = from_value v

abbrev pub or_else : {A : Type 0} → Option A → A → A
or_else none a = a
or_else (some b) a = b

module _ (wire : Wire) (expected_token : String) where
  open wire use {Value}

  abbrev pub Step : Type 0
  Step = List (Sent Value) × Shared Value

  abbrev pub on_response :
      JsonRpcResponse Value → Option ℕ × List (RequestId × ℕ) → Shared Value → Step
  on_response resp (some tx, rest) s = (respond tx resp ∷ [], record s { pending = rest })
  on_response resp (none, rest) s = ([], s)

  -- The end of `handle_approval_callback`; without a pending request the callback goes to the dispatcher.
  abbrev pub on_taken_approval :
      ApprovalCallbackParams → Option ℕ × List (String × ℕ) → Shared Value → Step
  on_taken_approval params (some tx, rest) s =
      (decide tx params.decision ∷ [], record s { approvals = rest })
  on_taken_approval params (none, rest) s = (inbound (approval_callback params) ∷ [], s)

  abbrev pub on_approval_params : Option ApprovalCallbackParams → Shared Value → Step
  on_approval_params none s = ([], s)
  on_approval_params (some params) s =
      if check_auth params.auth expected_token
      then on_taken_approval params (remove str_eq params.callback_token s.approvals) s
      else ([], s)

  unfoldable pub handle_approval_callback : Option Value → Shared Value → Step
  unfolding remove
  handle_approval_callback params s =
      on_approval_params (deserialize_params wire.approval_params params) s

  abbrev pub on_taken_question :
      QuestionCallbackParams Value → Option ℕ × List (String × ℕ) → Shared Value → Step
  on_taken_question params (some tx, rest) s =
      (answer tx params ∷ [], record s { questions = rest })
  on_taken_question params (none, rest) s = (inbound (question_callback params) ∷ [], s)

  abbrev pub on_question_params : Option (QuestionCallbackParams Value) → Shared Value → Step
  on_question_params none s = ([], s)
  on_question_params (some params) s =
      if check_auth params.auth expected_token
      then on_taken_question params (remove str_eq params.callback_token s.questions) s
      else ([], s)

  unfoldable pub handle_question_callback : Option Value → Shared Value → Step
  unfolding remove
  handle_question_callback params s =
      on_question_params (deserialize_params wire.question_params params) s

  -- An event whose parameters were read and carry the token.
  abbrev pub passed_on :
      (PassedOn Value → InboundEvent Value) → Option (PassedOn Value) → Option (InboundEvent Value)
  passed_on event none = none
  passed_on event (some params) =
      if check_auth params.auth expected_token then some (event params) else none

  abbrev pub str_at : Value → String → Option String
  str_at raw key = and_str (wire.get raw key)
    where
      and_str : Option Value → Option String
      and_str none = none
      and_str (some v) = wire.as_str v

  abbrev pub on_error_params : Value → Option (InboundEvent Value)
  on_error_params raw =
      if check_auth (or_else (str_at raw "auth") "") expected_token
      then some (
          plugin_error (or_else (str_at raw "severity") "error") (or_else (str_at raw "message") "")
            (wire.get raw "data"))
      else none

  -- The two callbacks do not get here.
  unfoldable pub parse_inbound : JsonRpcNotification Value → Option (InboundEvent Value)
  parse_inbound n =
      if str_eq n.method "event.message_received"
      then passed_on message_received (deserialize_params wire.received_params n.params)
      else if str_eq n.method "event.message_recalled"
      then passed_on message_recalled (deserialize_params wire.recalled_params n.params)
      else if str_eq n.method "event.error"
      then on_error_params (or_else n.params wire.null)
      else if str_eq n.method "log.write"
      then passed_on log (deserialize_params wire.log_params n.params)
      else some (unknown n.method n.params)

  abbrev pub on_inbound : Option (InboundEvent Value) → Shared Value → Step
  on_inbound none s = ([], s)
  on_inbound (some event) s = (inbound event ∷ [], s)

  unfoldable pub on_notification : JsonRpcNotification Value → Shared Value → Step
  unfolding handle_approval_callback handle_question_callback parse_inbound
  on_notification n s =
      if str_eq n.method "event.approval_callback"
      then handle_approval_callback n.params s
      else if str_eq n.method "event.question_callback"
      then handle_question_callback n.params s
      else on_inbound (parse_inbound n) s

  abbrev pub on_tool_params : RequestId → Option (ToolAdvertiseParams Value) → Shared Value → Step
  on_tool_params id none s = (reply (err id (new_error invalid_params "")) ∷ [], s)
  on_tool_params id (some params) s =
      if check_auth params.auth expected_token
      then (
        reply (ok id wire.empty_object) ∷ [],
        record s { advertised_tools = insert params.name params s.advertised_tools },
      )
      else (reply (err id (new_error auth_failed "auth_failed")) ∷ [], s)

  unfoldable pub handle_tool_advertise : JsonRpcRequest Value → Shared Value → Step
  unfolding insert
  handle_tool_advertise req s =
      on_tool_params req.id (deserialize_params wire.tool_params req.params) s

  abbrev pub on_command_params : RequestId → Option CommandAdvertiseParams → Shared Value → Step
  on_command_params id none s = (reply (err id (new_error invalid_params "")) ∷ [], s)
  on_command_params id (some params) s =
      if check_auth params.auth expected_token
      then (
        reply (ok id wire.empty_object) ∷ [],
        record s { advertised_commands = insert params.name params s.advertised_commands },
      )
      else (reply (err id (new_error auth_failed "auth_failed")) ∷ [], s)

  unfoldable pub handle_command_advertise : JsonRpcRequest Value → Shared Value → Step
  unfolding insert
  handle_command_advertise req s =
      on_command_params req.id (deserialize_params wire.command_params req.params) s

  unfoldable pub on_request : JsonRpcRequest Value → Shared Value → Step
  unfolding handle_tool_advertise handle_command_advertise
  on_request req s =
      if str_eq req.method "tool.advertise"
      then handle_tool_advertise req s
      else if str_eq req.method "command.advertise"
      then handle_command_advertise req s
      else (reply (err req.id (new_error method_not_found "method_not_found")) ∷ [], s)

  -- The `match` on a message.
  unfoldable pub on_message : JsonRpcMessage Value → Shared Value → Step
  unfolding remove on_notification on_request
  on_message (response resp) s = on_response resp (remove id_eq resp.id s.pending) s
  on_message (notification n) s = on_notification n s
  on_message (request req) s = on_request req s

  -- A line that is no message is passed over.
  abbrev pub on_decoded : Decoded Value → Shared Value → Step
  on_decoded (message m) s = on_message m s
  on_decoded _ s = ([], s)

  abbrev pub then_read : Step → (Shared Value → Step) → Step
  then_read (sent, s) next = let (later, s') = next s in (sent ++ later, s')

  unfoldable pub reader_task : Serde Value → List Text → Shared Value → Step
  unfolding on_message
  reader_task serde [] s = ([], s)
  reader_task serde (line ∷ lines) s =
      then_read (on_decoded (decode serde line) s) (reader_task serde lines)
