-- ===== src/Examples/Plugins.antt =====
-- A plugin that answers an approval (crates/snaca-channel-host/src/supervisor.rs). A JSON value is a list of
-- texts, and serde prints every message as `{}`.
use snaca.Base.{
  ◌+◌, String, Option, none, some, List, [], ◌∷◌, map, ◌≡◌, refl, All, arith, get_elem?,
}
use snaca.Core.Content.{bytes}
use snaca.Engine.Approval.{wire_allow}
use snaca.Protocol.JsonRpc.{JsonRpcMessage, notification}
use snaca.Protocol.Codec.{Serde, message, decode, written, lines_of}
use snaca.Protocol.Codec.Framing.{Prints, decode-written}
use snaca.Host.Params.{ApprovalCallbackParams, Wire}
use snaca.Host.Reader.{
  Shared, decide, on_message, on_notification, handle_approval_callback, remove, reader_task,
}
use snaca.Host.Reader.Once.{sends, waits, reader_task-waits}
use snaca.Host.Reader.Authorised.{Justified, on_message-Justified}

abbrev approval_of : List String → Option ApprovalCallbackParams
approval_of (auth ∷ token ∷ rest) = some (record {
  auth = auth;
  callback_token = token;
  decision = wire_allow;
  user_id = "u";
  decided_at = "now";
})
approval_of _ = none

abbrev wire : Wire
wire = record {
  Value = List String;
  null = [];
  empty_object = [];
  get = λ v key. none;
  as_str = λ v. get_elem? v 0;
  approval_params = approval_of;
  question_params = λ v. none;
  tool_params = λ v. none;
  command_params = λ v. none;
  received_params = λ v. none;
  recalled_params = λ v. none;
  log_params = λ v. none;
}

abbrev callback : JsonRpcMessage (List String)
callback =
    notification
      (record { method = "event.approval_callback"; params = some ("secret" ∷ "card" ∷ []) })

abbrev waiting : Shared (List String)
waiting = record {
  pending = [];
  approvals = ("card", 7) ∷ [];
  questions = [];
  advertised_tools = [];
  advertised_commands = [];
}

abbrev serde : Serde (List String)
serde = record { to_vec = λ m. some (bytes "{}"); from_slice = λ t. some callback }

callback-Prints : Prints serde callback
callback-Prints = ([], refl, tt, refl, omega arith)

decode-written_example :
    map (decode serde) (lines_of (written serde (callback ∷ callback ∷ [])))
    ≡ map message (callback ∷ callback ∷ [])
decode-written_example =
    decode-written serde (callback ∷ callback ∷ []) (callback-Prints, (callback-Prints, tt))

callback_decides : (on_message wire "secret" callback waiting).0 ≡ decide 7 wire_allow ∷ []
unfolding on_message on_notification handle_approval_callback remove
callback_decides = refl

on_message-Justified_example :
    All (Justified wire "secret" callback waiting) (on_message wire "secret" callback waiting).0
on_message-Justified_example = on_message-Justified wire "secret" callback waiting

reader_task-waits_example :
    sends 7 (reader_task wire "secret" serde (bytes "{}" ∷ bytes "{}" ∷ []) waiting).0
      + waits 7 (reader_task wire "secret" serde (bytes "{}" ∷ bytes "{}" ∷ []) waiting).1
    ≡ waits 7 waiting
reader_task-waits_example =
    reader_task-waits wire "secret" serde 7 (bytes "{}" ∷ bytes "{}" ∷ []) waiting
