-- ===== src/Protocol/JsonRpc.antt =====
-- crates/snaca-channel-protocol/src/jsonrpc.rs, and the error codes of errors.rs that the host replies
-- with. `V` is `serde_json::Value`; the version tag "2.0" is left out.
use snaca.Base.{ℕ, String, Bool, true, false, Option, none, some, str_eq, ◌==◌}

-- An `i64`.
pub data ℤ : Type 0 where
  pos negsuc : ℕ → ℤ

pub data RequestId : Type 0 where
  number : ℤ → RequestId
  string : String → RequestId
  null : RequestId

abbrev pub id_eq : RequestId → RequestId → Bool
id_eq (number (pos a)) (number (pos b)) = a == b
id_eq (number (negsuc a)) (number (negsuc b)) = a == b
id_eq (string a) (string b) = str_eq a b
id_eq null null = true
id_eq _ _ = false

pub data ErrorCode : Type 0 where
  method_not_found invalid_params auth_failed : ErrorCode
  other : ℤ → ErrorCode

pub record JsonRpcError (V : Type 0) : Type 0 where
  pub code : ErrorCode
  pub message : String
  pub detail : Option V

pub record JsonRpcRequest (V : Type 0) : Type 0 where
  pub id : RequestId
  pub method : String
  pub params : Option V

pub record JsonRpcResponse (V : Type 0) : Type 0 where
  pub id : RequestId
  pub result : Option V
  pub error : Option (JsonRpcError V)

pub record JsonRpcNotification (V : Type 0) : Type 0 where
  pub method : String
  pub params : Option V

pub data JsonRpcMessage (V : Type 0) : Type 0 where
  request : JsonRpcRequest V → JsonRpcMessage V
  response : JsonRpcResponse V → JsonRpcMessage V
  notification : JsonRpcNotification V → JsonRpcMessage V

module _ {V : Type 0} where
  -- `JsonRpcResponse::ok` and `err`, with `JsonRpcError::new`.
  abbrev pub ok : RequestId → V → JsonRpcResponse V
  ok id result = record { id = id; result = some result; error = none }

  abbrev pub new_error : ErrorCode → String → JsonRpcError V
  new_error code message = record { code = code; message = message; detail = none }

  abbrev pub err : RequestId → JsonRpcError V → JsonRpcResponse V
  err id error = record { id = id; result = none; error = some error }
