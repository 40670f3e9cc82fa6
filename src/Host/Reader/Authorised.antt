-- ===== src/Host/Reader/Authorised.antt =====
-- crates/snaca-channel-host/src/supervisor.rs: what a plugin must show for a decision to be delivered.
use snaca.Base.{
  ℕ, String, true, Option, none, some, List, ◌≡◌, refl, ap, str_eq, eq_iff, All, if-cases,
}
use snaca.Protocol.JsonRpc.{
  RequestId, id_eq, JsonRpcRequest, JsonRpcNotification, JsonRpcMessage, request, response,
  notification,
}
use snaca.Host.Params.{
  ApprovalCallbackParams, QuestionCallbackParams, ToolAdvertiseParams, CommandAdvertiseParams,
  InboundEvent, Wire,
}
use snaca.Host.Reader.{
  Sent, respond, decide, answer, inbound, reply, Shared, remove, check_auth, deserialize_params,
  Step, on_response, on_taken_approval, on_approval_params, handle_approval_callback,
  on_taken_question, on_question_params, handle_question_callback, parse_inbound, on_inbound,
  on_notification, on_tool_params, handle_tool_advertise, on_command_params,
  handle_command_advertise, on_request, on_message,
}

module _ (wire : Wire) (expected_token : String) where
  open wire use {Value}

  -- A callback of this method whose parameters carry the plugin's token, for this entry of a registry.
  abbrev pub Called :
      {P : Type 0}
      → String
      → (Value → Option P)
      → (P → String)
      → (P → String)
      → JsonRpcMessage Value
      → List (String × ℕ)
      → ℕ
      → P
      → Type 0
  Called method from_value auth callback_token m registry tx params =
      (n : JsonRpcNotification Value) × (m ≡ notification n)
      × (n.method ≡ method)
      × (deserialize_params from_value n.params ≡ some params)
      × (auth params ≡ expected_token)
      × ((remove str_eq (callback_token params) registry).0 ≡ some tx)

  -- What stands behind a thing sent, in the state it was sent in.
  abbrev pub Justified : JsonRpcMessage Value → Shared Value → Sent Value → Type 0
  Justified m s (decide tx d) =
      (params : ApprovalCallbackParams) × (params.decision ≡ d)
      × Called "event.approval_callback" wire.approval_params (λ p. p.auth) (λ p. p.callback_token)
          m s.approvals tx params
  Justified m s (answer tx params) =
      Called "event.question_callback" wire.question_params (λ p. p.auth) (λ p. p.callback_token) m
        s.questions tx params
  Justified m s (respond tx resp) =
      (m ≡ response resp) × ((remove id_eq resp.id s.pending).0 ≡ some tx)
  Justified m s (reply resp) = (req : JsonRpcRequest Value) × (m ≡ request req) × (resp.id ≡ req.id)
  Justified m s (inbound event) = (n : JsonRpcNotification Value) × (m ≡ notification n)

  -- All that a step sends is justified.
  unfoldable Sound : JsonRpcMessage Value → Shared Value → Step wire expected_token → Type 0
  Sound m s (sent, s') = All (Justified m s) sent

  auth-eq : (a : String) → check_auth a expected_token ≡ true → a ≡ expected_token
  auth-eq a h = (eq_iff a expected_token).0 h

  on_approval-Sound :
      (n : JsonRpcNotification Value) (s : Shared Value)
      → n.method ≡ "event.approval_callback"
      → Sound (notification n) s (handle_approval_callback wire expected_token n.params s)
  unfolding Sound handle_approval_callback
  on_approval-Sound n s method = by_params (deserialize_params wire.approval_params n.params) refl
    where
      by_taken :
          (params : ApprovalCallbackParams)
          → deserialize_params wire.approval_params n.params ≡ some params
          → params.auth ≡ expected_token
          → (p : Option ℕ × List (String × ℕ)) → remove str_eq params.callback_token s.approvals ≡ p
          → Sound (notification n) s (on_taken_approval wire expected_token params p s)
      by_taken params e a (none, rest) r = ((n, refl), tt)
      by_taken params e a (some tx, rest) r =
          ((params, refl, (n, refl, method, e, a, ap (λ p. p.0) r)), tt)

      by_params :
          (o : Option ApprovalCallbackParams)
          → deserialize_params wire.approval_params n.params ≡ o
          → Sound (notification n) s (on_approval_params wire expected_token o s)
      by_params none e = tt
      by_params (some params) e =
          if-cases (Sound (notification n) s) (check_auth params.auth expected_token)
            (λ t.
              by_taken params e (auth-eq params.auth t)
                (remove str_eq params.callback_token s.approvals) refl)
            (λ f. tt)

  on_question-Sound :
      (n : JsonRpcNotification Value) (s : Shared Value)
      → n.method ≡ "event.question_callback"
      → Sound (notification n) s (handle_question_callback wire expected_token n.params s)
  unfolding Sound handle_question_callback
  on_question-Sound n s method = by_params (deserialize_params wire.question_params n.params) refl
    where
      by_taken :
          (params : QuestionCallbackParams Value)
          → deserialize_params wire.question_params n.params ≡ some params
          → params.auth ≡ expected_token
          → (p : Option ℕ × List (String × ℕ)) → remove str_eq params.callback_token s.questions ≡ p
          → Sound (notification n) s (on_taken_question wire expected_token params p s)
      by_taken params e a (none, rest) r = ((n, refl), tt)
      by_taken params e a (some tx, rest) r = ((n, refl, method, e, a, ap (λ p. p.0) r), tt)

      by_params :
          (o : Option (QuestionCallbackParams Value))
          → deserialize_params wire.question_params n.params ≡ o
          → Sound (notification n) s (on_question_params wire expected_token o s)
      by_params none e = tt
      by_params (some params) e =
          if-cases (Sound (notification n) s) (check_auth params.auth expected_token)
            (λ t.
              by_taken params e (auth-eq params.auth t)
                (remove str_eq params.callback_token s.questions) refl)
            (λ f. tt)

  on_notification-Sound :
      (n : JsonRpcNotification Value) (s : Shared Value)
      → Sound (notification n) s (on_notification wire expected_token n s)
  unfolding on_notification Sound
  on_notification-Sound n s =
      if-cases (Sound (notification n) s) (str_eq n.method "event.approval_callback")
        (λ t. on_approval-Sound n s ((eq_iff n.method "event.approval_callback").0 t))
        (λ f.
          if-cases (Sound (notification n) s) (str_eq n.method "event.question_callback")
            (λ t. on_question-Sound n s ((eq_iff n.method "event.question_callback").0 t))
            (λ f. by_event (parse_inbound wire expected_token n)))
    where
      by_event :
          (o : Option (InboundEvent Value))
          → Sound (notification n) s (on_inbound wire expected_token o s)
      by_event none = tt
      by_event (some event) = ((n, refl), tt)

  on_request-Sound :
      (req : JsonRpcRequest Value) (s : Shared Value)
      → Sound (request req) s (on_request wire expected_token req s)
  unfolding Sound on_request handle_tool_advertise handle_command_advertise
  on_request-Sound req s =
      if-cases (Sound (request req) s) (str_eq req.method "tool.advertise")
        (λ t. by_tool (deserialize_params wire.tool_params req.params))
        (λ f.
          if-cases (Sound (request req) s) (str_eq req.method "command.advertise")
            (λ t. by_command (deserialize_params wire.command_params req.params))
            (λ f. ((req, refl, refl), tt)))
    where
      by_tool :
          (o : Option (ToolAdvertiseParams Value))
          → Sound (request req) s (on_tool_params wire expected_token req.id o s)
      by_tool none = ((req, refl, refl), tt)
      by_tool (some params) =
          if-cases (Sound (request req) s) (check_auth params.auth expected_token)
            (λ t. ((req, refl, refl), tt)) (λ f. ((req, refl, refl), tt))

      by_command :
          (o : Option CommandAdvertiseParams)
          → Sound (request req) s (on_command_params wire expected_token req.id o s)
      by_command none = ((req, refl, refl), tt)
      by_command (some params) =
          if-cases (Sound (request req) s) (check_auth params.auth expected_token)
            (λ t. ((req, refl, refl), tt)) (λ f. ((req, refl, refl), tt))

  -- Whatever a plugin says, the reader delivers an approval's decision or a question's answer only for
  -- a callback notification of that kind whose parameters carry the plugin's token, to the sender that
  -- is registered under its callback token, and a response only to the call that is pending under its
  -- id; a request is replied to under its own id.
  pub on_message-Justified :
      (m : JsonRpcMessage Value) (s : Shared Value)
      → All (Justified m s) (on_message wire expected_token m s).0
  unfolding on_message Sound
  on_message-Justified (response resp) s = by_taken (remove id_eq resp.id s.pending) refl
    where
      by_taken :
          (p : Option ℕ × List (RequestId × ℕ))
          → remove id_eq resp.id s.pending ≡ p
          → All (Justified (response resp) s) (on_response wire expected_token resp p s).0
      by_taken (none, rest) r = tt
      by_taken (some tx, rest) r = ((refl, ap (λ p. p.0) r), tt)
  on_message-Justified (notification n) s = on_notification-Sound n s
  on_message-Justified (request req) s = on_request-Sound req s
