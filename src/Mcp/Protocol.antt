-- ===== src/Mcp/Protocol.antt =====
-- src/actioncloud/mcp_server.py: handle_message. A request that names a tool has the state that the
-- call leaves; every other one leaves the state as it is. `id` is `none` where the message has none.
use action_cloud.Prelude.{
  ◌≡◌, refl, ◌⊎◌, inl, inr, String, string_eq, Option, none, some, ◌==◌, if◌then◌else◌, arith,
  Bool-cases, Option-cases,
}
use action_cloud.Mcp.{Value, Args, Failure, Tool, answered, refused}

pub record Request : Type 0 where
  pub id : Option Value
  pub method : String
  pub name : String
  pub arguments : Args

Tool-cases {ℓ} :
    {A : Type ℓ} (x : Tool A) → ((f : Failure) × (x ≡ refused f)) ⊎ ((a : A) × (x ≡ answered a))
Tool-cases (answered a) = inr (a, refl)
Tool-cases (refused f) = inl (f, refl)

module _ (State Answer : Type 0) (call_tool : State → String → Args → Tool (State × Answer)) where
  pub data Reply : Type 0 where
    initialized pong tools_manifest method_not_found : Reply
    tool_result : Answer → Reply
    tool_error : Failure → Reply

  pub record Response : Type 0 where
    pub id : Value
    pub reply : Reply

  called : State → Tool (State × Answer) → State × Reply
  called s (answered (t, a)) = (t, tool_result a)
  called s (refused e) = (s, tool_error e)

  unfoldable pub reply_to : State → Request → State × Reply
  unfolding called
  reply_to s req =
      if req.method == "initialize"
      then (s, initialized)
      else if req.method == "ping"
      then (s, pong)
      else if req.method == "tools/list"
      then (s, tools_manifest)
      else if req.method == "tools/call"
      then called s (call_tool s req.name req.arguments)
      else (s, method_not_found)

  unfoldable pub handle_message : State → Request → State × Option Response
  unfolding reply_to
  handle_message s req = elim req.id [
    | none ↦ (s, none)
    | some id ↦ let (t, reply) = reply_to s req in (t, some (record { id = id; reply = reply }))
  ]

  reply_to_call :
      (s : State) (req : Request)
      → req.method ≡ "tools/call"
      → reply_to s req ≡ called s (call_tool s req.name req.arguments)
  unfolding reply_to
  reply_to_call s req m = rw m refl

  -- A message changes the state only if it is a request, with an id, that calls a tool, and the tool
  -- is not refused; the state is then the one that the tool leaves.
  pub handle_message_state :
      (s : State) (req : Request)
      → ((handle_message s req).0 ≡ s)
        ⊎ ((id : Value) × (answer : Answer) × (req.id ≡ some id)
            × (req.method ≡ "tools/call")
            × (call_tool s req.name req.arguments ≡ answered ((handle_message s req).0, answer)))
  unfolding handle_message called
  handle_message_state s req = elim (Option-cases req.id) [
    | inl e ↦ inl (ground (arith, e))
    | inr (id, e) ↦ elim (Bool-cases (req.method == "tools/call")) [
      | inr other ↦ inl (ground (arith, e, other))
      | inl call ↦ elim (Tool-cases (call_tool s req.name req.arguments)) [
        | inl (f, e') ↦ inl (ground (arith, e, e'))
        | inr ((t, answer), e') ↦
            let m : req.method ≡ "tools/call" =
              ground (arith, string_eq.same_iff req.method "tools/call") in
            inr (id, answer, e, m, ground (arith, e, e', reply_to_call s req m))
      ]
    ]
  ]
