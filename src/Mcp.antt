-- ===== src/Mcp.antt =====
-- src/actioncloud/mcp_server.py: the arguments of a tool call, the binding of the server to the agent
-- of its key, and the errors of a call. A JSON value is one of `Value`: a number is a natural one.
pub mod Tools
pub mod Protocol
pub mod Identity
use action_cloud.Prelude.{
  ℕ, String, string_eq, nat_eq, Bool, true, false, not, ◌&&◌, Option, none, some, List, [], ◌∷◌,
  ◌==◌, if◌then◌else◌,
}
use action_cloud.Schema.{
  AgentRole, research, coding, testing, deployment, documentation, data_analysis, security, devops,
  database, ml, cloud, monitoring, MemoryTier, private, agent, shared, validated, organizational,
  truthy, role_value,
}
use action_cloud.Auth.{Principal}

pub data Value : Type 0 where
  null : Value
  text : String → Value
  number : ℕ → Value
  boolean : Bool → Value
  texts : List String → Value

abbrev pub Args : Type 0
Args = List (String × Value)

-- What a call answers with is_error set: ToolError and ValueError, KeyError, anything else.
pub data Failure : Type 0 where
  invalid_arguments not_found internal_error unknown_tool : Failure

pub data Tool {ℓ} (A : Type ℓ) : Type ℓ where
  answered : A → Tool A
  refused : Failure → Tool A

infixl 5 ◌>>=◌
abbrev pub ◌>>=◌ {ℓ κ} : {A : Type ℓ} {B : Type κ} → Tool A → (A → Tool B) → Tool B
answered a >>= f = f a
refused e >>= f = refused e

-- args.get(name), with null for None
unfoldable pub lookup : Args → String → Option Value
lookup [] name = none
lookup ((k, v) ∷ args) name = if k == name then some v else lookup args name

-- args[name] = v
unfoldable pub put : Args → String → Value → Args
put [] name v = (name, v) ∷ []
put ((k, old) ∷ args) name v =
    let rest = put args name v in if k == name then (k, v) ∷ args else (k, old) ∷ rest

unfoldable pub without : String → Args → Args
without name [] = []
without name ((k, v) ∷ args) =
    let rest = without name args in if k == name then rest else (k, v) ∷ rest

-- ALIASES
unfoldable pub aliases : String → List String
aliases canonical =
    if canonical == "task"
    then "task" ∷ "query" ∷ []
    else if canonical == "agent_role"
    then "agent_role" ∷ "role" ∷ []
    else if canonical == "k_inject"
    then "k_inject" ∷ "max_memories" ∷ []
    else if canonical == "action"
    then "action_taken" ∷ "action" ∷ []
    else canonical ∷ []

abbrev pub not_none : Option Value → Option Value
not_none (some null) = none
not_none o = o

unfoldable pub first_of : Args → List String → Option Value
unfolding lookup
first_of args [] = none
first_of args (name ∷ names) =
    let rest = first_of args names in
    elim (not_none (lookup args name)) [ none ↦ rest | some v ↦ some v ]

-- _arg with no default
unfoldable pub arg : Args → String → Option Value
unfolding first_of aliases
arg args canonical = first_of args (aliases canonical)

abbrev pub required : Option Value → Tool Value
required none = refused invalid_arguments
required (some v) = answered v

-- ROLE_ENUM
abbrev role_enum : List AgentRole
role_enum =
    research ∷ coding ∷ testing ∷ deployment ∷ documentation ∷ data_analysis ∷ security ∷ devops
    ∷ database ∷ ml ∷ cloud ∷ monitoring ∷ []

-- AgentRole(value)
find_role : List AgentRole → String → Option AgentRole
unfolding role_value
find_role [] v = none
find_role (r ∷ rs) v = if role_value r == v then some r else find_role rs v

unfoldable pub role_named : String → Option AgentRole
unfolding find_role
role_named v = find_role role_enum v

-- _role
unfoldable pub role_arg : Args → Option AgentRole → Tool (Option AgentRole)
unfolding arg role_named
role_arg args default = elim (arg args "agent_role") [
  | none ↦ answered default
  | some v ↦ elim v [
    | text t ↦ elim (role_named t) [ none ↦ refused invalid_arguments | some r ↦ answered (some r) ]
    | _ ↦ refused invalid_arguments
  ]
]

-- bool(v)
abbrev pub is_truthy : Value → Bool
is_truthy null = false
is_truthy (text t) = truthy t
is_truthy (number n) = not (n == 0)
is_truthy (boolean b) = b
is_truthy (texts []) = false
is_truthy (texts (t ∷ ts)) = true

-- `claimed and claimed != name`
abbrev pub names_other : Option Value → String → Bool
names_other none name = false
names_other (some (text t)) name = truthy t && not (t == name)
names_other (some v) name = is_truthy v

-- _bind
unfoldable pub bind : Option Principal → Args → Tool Args
unfolding lookup put without arg role_value
bind none args = answered args
bind (some p) args =
    if names_other (lookup args "agent_id") p.agent_id
    then refused invalid_arguments
    else if names_other (arg args "agent_role") (role_value p.role)
    then refused invalid_arguments
    else answered (
        put (put (without "role" args) "agent_id" (text p.agent_id)) "agent_role"
          (text (role_value p.role)))
