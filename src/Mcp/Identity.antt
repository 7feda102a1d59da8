-- ===== src/Mcp/Identity.antt =====
-- A server that is bound to a key acts as the key's agent.
use action_cloud.Prelude.{
  ℕ, ◌≡◌, ◌⊎◌, Option-cases, refl, inl, inr, String, string_eq, Bool, false, Option, none, some, [],
  ◌∷◌, ◌==◌, if◌then◌else◌, arith, Bool-cases, subst,
}
use action_cloud.Schema.{
  AgentRole, research, coding, testing, deployment, documentation, data_analysis, security, devops,
  database, ml, cloud, monitoring, role_value,
}
use action_cloud.Auth.{Principal}
use action_cloud.Judge.{Rounding}
use action_cloud.Store.{Vector, Store}
use action_cloud.Pipeline.{Enrichers}
use action_cloud.Service.{System, Options, ReuseReply, record_reuse}
use action_cloud.Mcp.Tools.{reuse_memory, or_failure, tool_alias, call_tool, reused}
use action_cloud.Floats.{Floats}
use action_cloud.Store.Search.{Engine}
use action_cloud.Builder.{MemorySelectionPolicy}
use action_cloud.Mcp.{
  invalid_arguments, is_truthy, Value, text, Args, Tool, answered, refused, lookup, put, without,
  first_of, aliases, arg, role_named, ◌>>=◌, role_arg, names_other, bind,
}

lookup-put :
    (args : Args) (name other : String) (v : Value)
    → lookup (put args name v) other ≡ (if name == other then some v else lookup args other)
unfolding lookup put
lookup-put [] name other v = refl
lookup-put ((k, old) ∷ args) name other v = ground (
  arith,
  lookup-put args name other v,
  string_eq.same_iff k name,
  string_eq.same_iff k other,
  string_eq.same_iff name other,
)

role_named-role_value : (r : AgentRole) → role_named (role_value r) ≡ some r
unfolding role_named role_value
role_named-role_value research = refl
role_named-role_value coding = refl
role_named-role_value testing = refl
role_named-role_value deployment = refl
role_named-role_value documentation = refl
role_named-role_value data_analysis = refl
role_named-role_value security = refl
role_named-role_value devops = refl
role_named-role_value database = refl
role_named-role_value ml = refl
role_named-role_value cloud = refl
role_named-role_value monitoring = refl

abbrev bound_args : Principal → Args → Args
bound_args p args =
    put (put (without "role" args) "agent_id" (text p.agent_id)) "agent_role"
      (text (role_value p.role))

bind_cases :
    (p : Principal) (args bound : Args)
    → bind (some p) args ≡ answered bound
    → (names_other (lookup args "agent_id") p.agent_id ≡ false)
      × (names_other (arg args "agent_role") (role_value p.role) ≡ false)
      × (bound_args p args ≡ bound)
unfolding bind
bind_cases p args bound h = elim (Bool-cases (names_other (lookup args "agent_id") p.agent_id)) [
  | inl a ↦ absurd (ground arith)
  | inr a ↦ elim (Bool-cases (names_other (arg args "agent_role") (role_value p.role))) [
    | inl b ↦ absurd (ground arith)
    | inr b ↦ (a, b, ground arith)
  ]
]

bound_id :
    (p : Principal) (args : Args) → lookup (bound_args p args) "agent_id" ≡ some (text p.agent_id)
bound_id p args = rw (lookup-put, lookup-put) refl

bound_role :
    (p : Principal) (args : Args)
    → lookup (bound_args p args) "agent_role" ≡ some (text (role_value p.role))
bound_role p args = rw lookup-put refl

role_arg_of :
    (args : Args) (r : AgentRole) (default : Option AgentRole)
    → lookup args "agent_role" ≡ some (text (role_value r))
    → role_arg args default ≡ answered (some r)
unfolding role_arg arg first_of aliases
role_arg_of args r default h = ground (arith, h, role_named-role_value r)

role_arg-bound :
    (p : Principal) (args : Args) (default : Option AgentRole)
    → role_arg (bound_args p args) default ≡ answered (some p.role)
role_arg-bound p args default = role_arg_of (bound_args p args) p.role default (bound_role p args)

-- With a key, a tool call that the binding lets pass sees the key's agent as agent_id, and the key's
-- role as role, whatever its arguments say and under whichever alias.
pub bind_agent :
    (p : Principal) (args bound : Args) (default : Option AgentRole)
    → bind (some p) args ≡ answered bound
    → (lookup bound "agent_id" ≡ some (text p.agent_id))
      × (role_arg bound default ≡ answered (some p.role))
bind_agent p args bound default h =
    let (_, _, e) = bind_cases p args bound h in
    subst
      (λ a.
        (lookup a "agent_id" ≡ some (text p.agent_id))
        × (role_arg a default ≡ answered (some p.role)))
      e (bound_id p args, role_arg-bound p args default)

bind_answers :
    (p : Principal) (args : Args)
    → ((bound : Args) × (bind (some p) args ≡ answered bound))
      ⊎ (bind (some p) args ≡ refused invalid_arguments)
unfolding bind
bind_answers p args = elim (Bool-cases (names_other (lookup args "agent_id") p.agent_id)) [
  | inl a ↦ inr (ground (arith, a))
  | inr a ↦ elim (Bool-cases (names_other (arg args "agent_role") (role_value p.role))) [
    | inl b ↦ inr (ground (arith, a, b))
    | inr b ↦ inl (bound_args p args, ground (arith, a, b))
  ]
]

module _ (r : Rounding) (enrichers : Enrichers) (options : Options) (fold : String → String)
    (uuid_of : Value → Option ℕ) (int_of_text : String → Option ℕ) where
  abbrev reuse : Store → Args → ℕ → Tool (Store × ReuseReply)
  reuse = reuse_memory r enrichers options fold uuid_of int_of_text

  -- The tool on bound arguments.
  reuse_memory_bound_args :
      (p : Principal) (args bound : Args) (s : Store) (now : ℕ)
      → bind (some p) args ≡ answered bound
      → ((id : ℕ) × (success : Bool) × (reuse s bound now
            ≡ or_failure (record_reuse r s id success (some p.agent_id) now)))
        ⊎ (reuse s bound now ≡ refused invalid_arguments)
  unfolding reuse_memory arg first_of aliases
  reuse_memory_bound_args p args bound s now h =
      let mine = (bind_agent p args bound none h).0 in
      elim (Option-cases (arg bound "experience_id")) [
        | inl e ↦ inr (ground (arith, e))
        | inr (v, e) ↦ elim (Option-cases (uuid_of v)) [
          | inl e' ↦ inr (ground (arith, e, e'))
          | inr (id, e') ↦ elim (Option-cases (arg bound "success")) [
            | inl e'' ↦ inr (ground (arith, e, e', e''))
            | inr (w, e'') ↦ inl (id, is_truthy w, ground (arith, e, e', e'', mine))
          ]
        ]
      ]

  module _ (F : Floats) (engine : Engine F) (embed : String → Vector)
      (ratio : String → String → F.Float) (from_env : MemorySelectionPolicy F) where
    -- A call of the tool reuse_memory, under either of its names, on a server with a key: it is the
    -- report of the key's agent, of some memory and outcome, and leaves what record_reuse leaves, or it
    -- is refused as invalid. No argument makes it the report of another agent.
    pub call_tool_reuse_bound :
        (p : Principal) (sys : System) (name : String) (args : Args) (id : ℕ) (accepted : Bool)
        (now : ℕ)
        → ((name ≡ "reuse_memory") ⊎ (name ≡ "report_memory_reuse"))
        → ((memory : ℕ) × (success : Bool) × (call_tool r enrichers options fold uuid_of int_of_text
                F engine embed ratio
                (some p)
                from_env
                sys
                name
                args
                id
                accepted
                now
              ≡ (or_failure (record_reuse r sys.store memory success (some p.agent_id) now)
                  >>= λ res. answered (record sys { store = res.0 }, reused res.1))))
          ⊎ (call_tool r enrichers options fold uuid_of int_of_text F engine embed ratio
                (some p)
                from_env
                sys
                name
                args
                id
                accepted
                now
              ≡ refused invalid_arguments)
    unfolding call_tool tool_alias bind
    call_tool_reuse_bound p sys name args id accepted now named = elim (bind_answers p args) [
      | inr e ↦ inr (ground (arith, e))
      | inl (bound, e) ↦
          let aliased : tool_alias name ≡ "reuse_memory" = elim named [
            | inl same ↦ rw same refl
            | inr same ↦ rw same refl
          ] in
          elim (reuse_memory_bound_args p args bound sys.store now e) [
            | inl (memory, success, h) ↦ inl (memory, success, rw (e, aliased, h) refl)
            | inr h ↦ inr (rw (e, aliased, h) refl)
          ]
    ]
