-- ===== src/Host/Reader/Once.antt =====
-- crates/snaca-channel-host/src/supervisor.rs: a oneshot channel is sent on once, by whoever takes it out of its map.
use snaca.Base.{
  ℕ, ◌+◌, String, Bool, true, false, Option, none, some, List, [], ◌∷◌, ◌++◌, ◌≡◌, refl, ◌==◌,
  str_eq, if-cases, arith,
}
use snaca.Core.Content.{Text}
use snaca.Protocol.JsonRpc.{
  RequestId, id_eq, JsonRpcRequest, JsonRpcResponse, JsonRpcNotification, request, response,
  notification,
}
use snaca.Protocol.Codec.{Serde, Decoded, message, json, empty_frame, payload_too_large, decode}
use snaca.Host.Params.{
  ApprovalCallbackParams, QuestionCallbackParams, ToolAdvertiseParams, CommandAdvertiseParams,
  InboundEvent, Wire,
}
use snaca.Host.Reader.{
  Sent, respond, decide, answer, Shared, kept, remove, check_auth, deserialize_params, Step,
  on_response, on_taken_approval, on_approval_params, handle_approval_callback, on_taken_question,
  on_question_params, handle_question_callback, parse_inbound, on_inbound, on_notification,
  on_tool_params, handle_tool_advertise, on_command_params, handle_command_advertise, on_request,
  on_message, on_decoded, then_read, reader_task,
}

abbrev pub one_if : Bool → ℕ
one_if true = 1
one_if false = 0

-- How often a sender stands in a map.
unfoldable pub held : {K : Type 0} → ℕ → List (K × ℕ) → ℕ
held tx [] = 0
held tx ((k, s) ∷ entries) = one_if (s == tx) + held tx entries

-- How often a sender waits in the three maps.
abbrev pub waits : {V : Type 0} → ℕ → Shared V → ℕ
waits tx s = held tx s.pending + (held tx s.approvals + held tx s.questions)

abbrev pub uses : {V : Type 0} → ℕ → Sent V → ℕ
uses tx (respond s resp) = one_if (s == tx)
uses tx (decide s d) = one_if (s == tx)
uses tx (answer s params) = one_if (s == tx)
uses tx _ = 0

-- How often is sent on a sender.
unfoldable pub sends : {V : Type 0} → ℕ → List (Sent V) → ℕ
sends tx [] = 0
sends tx (e ∷ sent) = uses tx e + sends tx sent

sends-append :
    {V : Type 0} (tx : ℕ) (xs ys : List (Sent V)) → sends tx (xs ++ ys) ≡ sends tx xs + sends tx ys
unfolding sends
sends-append tx [] ys = omega arith
sends-append tx (x ∷ xs) ys = omega (arith, sends-append tx xs ys)

-- What the removed entry held, and the rest.
abbrev taken : {K : Type 0} → ℕ → Option ℕ × List (K × ℕ) → ℕ
taken tx (none, rest) = held tx rest
taken tx (some s, rest) = one_if (s == tx) + held tx rest

remove-held :
    {K : Type 0} (tx : ℕ) (eq : K → K → Bool) (k : K) (entries : List (K × ℕ))
    → taken tx (remove eq k entries) ≡ held tx entries
unfolding remove held
remove-held tx eq k [] = refl
remove-held {K} tx eq k ((j, s) ∷ entries) =
    if-cases (λ (p : Option ℕ × List (K × ℕ)). taken tx p ≡ one_if (s == tx) + held tx entries)
      (eq j k) (λ t. refl) (λ f. by_later (remove eq k entries) (remove-held tx eq k entries))
  where
    by_later :
        (p : Option ℕ × List (K × ℕ))
        → taken tx p ≡ held tx entries
        → taken tx (kept (j, s) p) ≡ one_if (s == tx) + held tx entries
    by_later (none, rest) h = omega (arith, h)
    by_later (some r, rest) h = omega (arith, h)

module _ (wire : Wire) (expected_token : String) where
  open wire use {Value}

  -- What is sent on a sender no longer waits, and nothing else changes.
  unfoldable Balanced : ℕ → Shared Value → Step wire expected_token → Type 0
  Balanced tx s (sent, s') = sends tx sent + waits tx s' ≡ waits tx s

  quiet : (tx : ℕ) (s : Shared Value) → sends {V = Value} tx [] + waits tx s ≡ waits tx s
  unfolding sends
  quiet tx s = omega arith

  on_response-Balanced :
      (tx : ℕ) (resp : JsonRpcResponse Value) (s : Shared Value)
      → Balanced tx s (on_response wire expected_token resp (remove id_eq resp.id s.pending) s)
  unfolding Balanced sends
  on_response-Balanced tx resp s =
      by_taken (remove id_eq resp.id s.pending) (remove-held tx id_eq resp.id s.pending)
    where
      by_taken :
          (p : Option ℕ × List (RequestId × ℕ))
          → taken tx p ≡ held tx s.pending
          → Balanced tx s (on_response wire expected_token resp p s)
      by_taken (none, rest) h = omega arith
      by_taken (some r, rest) h = omega (arith, h)

  handle_approval_callback-Balanced :
      (tx : ℕ) (params : Option Value) (s : Shared Value)
      → Balanced tx s (handle_approval_callback wire expected_token params s)
  unfolding Balanced sends handle_approval_callback
  handle_approval_callback-Balanced tx params s =
      by_params (deserialize_params wire.approval_params params)
    where
      by_taken :
          (params : ApprovalCallbackParams) (p : Option ℕ × List (String × ℕ))
          → taken tx p ≡ held tx s.approvals
          → Balanced tx s (on_taken_approval wire expected_token params p s)
      by_taken params (none, rest) h = omega arith
      by_taken params (some r, rest) h = omega (arith, h)

      by_params :
          (o : Option ApprovalCallbackParams)
          → Balanced tx s (on_approval_params wire expected_token o s)
      by_params none = omega arith
      by_params (some params) =
          if-cases (Balanced tx s) (check_auth params.auth expected_token)
            (λ t.
              by_taken params (remove str_eq params.callback_token s.approvals)
                (remove-held tx str_eq params.callback_token s.approvals))
            (λ f. quiet tx s)

  handle_question_callback-Balanced :
      (tx : ℕ) (params : Option Value) (s : Shared Value)
      → Balanced tx s (handle_question_callback wire expected_token params s)
  unfolding Balanced sends handle_question_callback
  handle_question_callback-Balanced tx params s =
      by_params (deserialize_params wire.question_params params)
    where
      by_taken :
          (params : QuestionCallbackParams Value) (p : Option ℕ × List (String × ℕ))
          → taken tx p ≡ held tx s.questions
          → Balanced tx s (on_taken_question wire expected_token params p s)
      by_taken params (none, rest) h = omega arith
      by_taken params (some r, rest) h = omega (arith, h)

      by_params :
          (o : Option (QuestionCallbackParams Value))
          → Balanced tx s (on_question_params wire expected_token o s)
      by_params none = omega arith
      by_params (some params) =
          if-cases (Balanced tx s) (check_auth params.auth expected_token)
            (λ t.
              by_taken params (remove str_eq params.callback_token s.questions)
                (remove-held tx str_eq params.callback_token s.questions))
            (λ f. quiet tx s)

  on_inbound-Balanced :
      (tx : ℕ) (o : Option (InboundEvent Value)) (s : Shared Value)
      → Balanced tx s (on_inbound wire expected_token o s)
  unfolding Balanced sends
  on_inbound-Balanced tx none s = omega arith
  on_inbound-Balanced tx (some event) s = omega arith

  on_notification-Balanced :
      (tx : ℕ) (n : JsonRpcNotification Value) (s : Shared Value)
      → Balanced tx s (on_notification wire expected_token n s)
  unfolding on_notification
  on_notification-Balanced tx n s =
      if-cases (Balanced tx s) (str_eq n.method "event.approval_callback")
        (λ t. handle_approval_callback-Balanced tx n.params s)
        (λ f.
          if-cases (Balanced tx s) (str_eq n.method "event.question_callback")
            (λ t. handle_question_callback-Balanced tx n.params s)
            (λ f. on_inbound-Balanced tx (parse_inbound wire expected_token n) s))

  on_request-Balanced :
      (tx : ℕ) (req : JsonRpcRequest Value) (s : Shared Value)
      → Balanced tx s (on_request wire expected_token req s)
  unfolding Balanced sends on_request handle_tool_advertise handle_command_advertise
  on_request-Balanced tx req s =
      if-cases (Balanced tx s) (str_eq req.method "tool.advertise")
        (λ t. by_tool (deserialize_params wire.tool_params req.params))
        (λ f.
          if-cases (Balanced tx s) (str_eq req.method "command.advertise")
            (λ t. by_command (deserialize_params wire.command_params req.params))
            (λ f. omega arith))
    where
      by_tool :
          (o : Option (ToolAdvertiseParams Value))
          → Balanced tx s (on_tool_params wire expected_token req.id o s)
      by_tool none = omega arith
      by_tool (some params) =
          if-cases (Balanced tx s) (check_auth params.auth expected_token) (λ t. omega arith)
            (λ f. omega arith)

      by_command :
          (o : Option CommandAdvertiseParams)
          → Balanced tx s (on_command_params wire expected_token req.id o s)
      by_command none = omega arith
      by_command (some params) =
          if-cases (Balanced tx s) (check_auth params.auth expected_token) (λ t. omega arith)
            (λ f. omega arith)

  on_decoded-Balanced :
      (tx : ℕ) (d : Decoded Value) (s : Shared Value)
      → Balanced tx s (on_decoded wire expected_token d s)
  unfolding on_message Balanced
  on_decoded-Balanced tx (message (response resp)) s = on_response-Balanced tx resp s
  on_decoded-Balanced tx (message (notification n)) s = on_notification-Balanced tx n s
  on_decoded-Balanced tx (message (request req)) s = on_request-Balanced tx req s
  on_decoded-Balanced tx json s = quiet tx s
  on_decoded-Balanced tx empty_frame s = quiet tx s
  on_decoded-Balanced tx (payload_too_large n limit) s = quiet tx s

  -- Whatever lines a plugin writes, what the reader sends on a oneshot channel and what still waits in
  -- the three maps is together what waited before: a sender is used once at most, a used one waits no
  -- more, and none is lost.
  pub reader_task-waits :
      (serde : Serde Value) (tx : ℕ) (lines : List Text) (s : Shared Value)
      → sends tx (reader_task wire expected_token serde lines s).0
          + waits tx (reader_task wire expected_token serde lines s).1
        ≡ waits tx s
  unfolding reader_task Balanced
  reader_task-waits serde tx [] s = quiet tx s
  reader_task-waits serde tx (line ∷ lines) s =
      by_step (on_decoded wire expected_token (decode serde line) s)
        (on_decoded-Balanced tx (decode serde line) s) (reader_task-waits serde tx lines)
    where
      by_step :
          (step : Step wire expected_token)
          → Balanced tx s step
          → ((s' : Shared Value)
              → sends tx (reader_task wire expected_token serde lines s').0
                  + waits tx (reader_task wire expected_token serde lines s').1
                ≡ waits tx s')
          → sends tx
                (then_read wire expected_token step (reader_task wire expected_token serde lines)).0
              + waits tx
                  (then_read wire expected_token step
                    (reader_task wire expected_token serde lines)).1
            ≡ waits tx s
      by_step (sent, s') h ih =
          omega (
            arith,
            h,
            ih s',
            sends-append tx sent (reader_task wire expected_token serde lines s').0,
          )
