-- ===== src/Server/Channel.antt =====
-- The errors of crates/snaca-channel-host/src/error.rs, the parameters of
-- crates/snaca-channel-protocol/src/methods.rs that the outbox sends, and a plugin as the outbox calls it.
use snaca.Base.{String, Option, some, ◌≡◌}

-- A foreign error is its text; the codes of `Plugin` are left as text too.
pub data ChannelError : Type 0 where
  io protocol : String → ChannelError
  plugin : String → String → ChannelError
  handshake : String → ChannelError
  disconnected timeout send_closed auth_failed : ChannelError
  invalid_params : String → String → ChannelError
  serde other : String → ChannelError

pub data ChannelResult (A : Type 0) : Type 0 where
  ok : A → ChannelResult A
  err : ChannelError → ChannelResult A

abbrev pub map_result : {A B : Type 0} → (A → B) → ChannelResult A → ChannelResult B
map_result f (ok a) = ok (f a)
map_result f (err e) = err e

pub record MessageSendParams : Type 0 where
  pub tenant_id : String
  pub chat_id : String
  pub content : String
  pub format : Option String
  pub reply_to : Option String
  pub idempotency_key : Option String

pub record MessageUpdateParams : Type 0 where
  pub tenant_id : String
  pub message_id : String
  pub content : String

pub record FileUploadParams : Type 0 where
  pub tenant_id : String
  pub chat_id : String
  pub filename : String
  pub mime_type : String
  pub bytes_base64 : String
  pub idempotency_key : Option String

-- `serde_json` on these parameters; what is encoded decodes to itself.
pub record Codec : Type 1 where
  pub Value : Type 0
  pub encode_send : MessageSendParams → Value
  pub decode_send : Value → Option MessageSendParams
  pub encode_update : MessageUpdateParams → Value
  pub decode_update : Value → Option MessageUpdateParams
  pub encode_upload : FileUploadParams → Value
  pub decode_upload : Value → Option FileUploadParams
  pub decode-encode_send : (p : MessageSendParams) → decode_send (encode_send p) ≡ some p
  pub decode-encode_update : (p : MessageUpdateParams) → decode_update (encode_update p) ≡ some p
  pub decode-encode_upload : (p : FileUploadParams) → decode_upload (encode_upload p) ≡ some p

-- A plugin's replies to one call each: the platform's message id, if the method returns one.
pub record Plugin : Type 0 where
  pub name : String
  pub message_send : MessageSendParams → ChannelResult String
  pub message_update : MessageUpdateParams → ChannelResult (Unit {0})
  pub file_upload : FileUploadParams → ChannelResult String
