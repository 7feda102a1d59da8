-- ===== src/Auth.antt =====
-- src/actioncloud/auth.py: the registry of agents and their keys. `hash` is SHA-256 in hexadecimal
-- (hash_key), and `key` is the fresh token of generate_key.
pub mod Keys
use action_cloud.Prelude.{
  sort, leb, ℕ, String, string_eq, Bool, true, false, not, ◌&&◌, ◌||◌, Option, none, some, List, [],
  ◌∷◌, ◌++◌, ◌==◌, if◌then◌else◌, any, map,
}
use action_cloud.Schema.{AgentRole, research, truthy}

pub record Principal : Type 0 where
  pub agent_id : String
  pub role : AgentRole
  pub is_admin : Bool

-- ADMIN
abbrev pub admin : Principal
admin = record { agent_id = "__admin__"; role = research; is_admin = true }

pub record Agent : Type 0 where
  pub agent_id : String
  pub agent_role : AgentRole
  pub key_hash : String
  pub created_at : ℕ
  pub revoked_at : Option ℕ

abbrev pub is_active : Agent → Bool
is_active a = elim a.revoked_at [ none ↦ true | some _ ↦ false ]

-- ON CONFLICT (agent_id) DO UPDATE
rekey : List Agent → String → AgentRole → String → List Agent
rekey [] agent_id role hashed = []
rekey (a ∷ agents) agent_id role hashed =
    (if a.agent_id == agent_id
      then record a { agent_role = role; key_hash = hashed; revoked_at = none }
      else a)
    ∷ rekey agents agent_id role hashed

abbrev pub has_id : String → List Agent → Bool
has_id agent_id agents = any (λ a. a.agent_id == agent_id) agents

-- key_hash is UNIQUE: another agent's row with this hash refuses the write.
abbrev taken : String → String → List Agent → Bool
taken agent_id hashed agents =
    any (λ a. a.key_hash == hashed && not (a.agent_id == agent_id)) agents

-- The principal of the active agent with this hash.
unfoldable pub agent_of_hash : List Agent → String → Option Principal
agent_of_hash [] hashed = none
agent_of_hash (a ∷ agents) hashed =
    if a.key_hash == hashed && is_active a
    then some (record { agent_id = a.agent_id; role = a.agent_role; is_admin = false })
    else agent_of_hash agents hashed

abbrev pub is_admin_key : String → Option String → Bool
is_admin_key key none = false
is_admin_key key (some admin_key) = truthy admin_key && key == admin_key

module _ (hash : String → String) where
  -- `none` is a violation of a unique column; the registry is as it was.
  unfoldable pub register_agent :
      List Agent → String → AgentRole → Bool → String → ℕ → Option (List Agent)
  unfolding rekey
  register_agent agents agent_id role rotate key now =
      let new : Agent = record {
        agent_id = agent_id;
        agent_role = role;
        key_hash = hash key;
        created_at = now;
        revoked_at = none;
      } in
      if taken agent_id (hash key) agents
      then none
      else if has_id agent_id agents
      then (if rotate then some (rekey agents agent_id role (hash key)) else none)
      else some (agents ++ new ∷ [])

  unfoldable pub resolve_key : List Agent → Option String → Option String → Option Principal
  unfolding agent_of_hash
  resolve_key agents none admin_key = none
  resolve_key agents (some key) admin_key =
      if truthy key
      then (if is_admin_key key admin_key then some admin else agent_of_hash agents (hash key))
      else none

-- The registry with the agent's row revoked, and whether a row changed.
unfoldable pub revoke_agent : List Agent → String → ℕ → List Agent × Bool
revoke_agent [] agent_id now = ([], false)
revoke_agent (a ∷ agents) agent_id now =
    let (rest, changed) = revoke_agent agents agent_id now in
    if a.agent_id == agent_id && is_active a
    then (record a { revoked_at = some now } ∷ rest, true)
    else (a ∷ rest, changed)

-- A row of list_agents.
pub record ListedAgent : Type 0 where
  pub agent_id : String
  pub role : AgentRole
  pub created_at : ℕ
  pub revoked_at : Option ℕ

-- ORDER BY created_at
unfoldable pub list_agents : List Agent → List ListedAgent
unfolding sort
list_agents agents =
    map
      (λ (a : Agent). record {
        agent_id = a.agent_id;
        role = a.agent_role;
        created_at = a.created_at;
        revoked_at = a.revoked_at;
      })
      (sort (λ (x y : Agent). leb x.created_at y.created_at) agents)
