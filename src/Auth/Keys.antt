-- ===== src/Auth/Keys.antt =====
-- Which keys open which identity.
use action_cloud.Prelude.{
  ℕ, ◌≡◌, ◌≢◌, refl, ◌⊎◌, inl, inr, String, string_eq, Bool, true, false, ◌&&◌, Option, none, some,
  List, [], ◌∷◌, ◌++◌, ◌==◌, any, arith, Bool-cases,
}
use action_cloud.Schema.{AgentRole, truthy}
use action_cloud.Auth.{
  Principal, admin, Agent, is_active, rekey, has_id, taken, register_agent, agent_of_hash,
  is_admin_key, resolve_key, revoke_agent,
}

agent_of_hash-revoke_agent :
    (agents : List Agent) (agent_id hashed : String) (now : ℕ) (p : Principal)
    → agent_of_hash (revoke_agent agents agent_id now).0 hashed ≡ some p
    → (p.agent_id ≢ agent_id) × (p.is_admin ≡ false)
unfolding agent_of_hash revoke_agent
agent_of_hash-revoke_agent [] agent_id hashed now p h = absurd (ground arith)
agent_of_hash-revoke_agent (a ∷ agents) agent_id hashed now p h =
    elim (Bool-cases (a.agent_id == agent_id && is_active a)) [
      | inl mine ↦ agent_of_hash-revoke_agent agents agent_id hashed now p (ground arith)
      | inr other ↦ elim (Bool-cases (a.key_hash == hashed && is_active a)) [
        | inl hit ↦ (λ e. ground (arith, string_eq.same_iff a.agent_id agent_id), ground arith)
        | inr miss ↦ agent_of_hash-revoke_agent agents agent_id hashed now p (ground arith)
      ]
    ]

abbrev agent_principal : String → AgentRole → Principal
agent_principal agent_id role = record { agent_id = agent_id; role = role; is_admin = false }

agent_of_hash-insert :
    (agents : List Agent) (new : Agent)
    → any (λ a. a.key_hash == new.key_hash) agents ≡ false
    → is_active new ≡ true
    → agent_of_hash (agents ++ new ∷ []) new.key_hash
      ≡ some (agent_principal new.agent_id new.agent_role)
unfolding agent_of_hash
agent_of_hash-insert [] new h active = ground (arith, string_eq.same_iff new.key_hash new.key_hash)
agent_of_hash-insert (a ∷ agents) new h active = ground (arith, agent_of_hash-insert agents new)

-- A hash that is free for an agent who has no row is free altogether.
not_taken_fresh :
    (agents : List Agent) (agent_id hashed : String)
    → taken agent_id hashed agents ≡ false
    → has_id agent_id agents ≡ false
    → any (λ a. a.key_hash == hashed) agents ≡ false
not_taken_fresh [] agent_id hashed h k = refl
not_taken_fresh (a ∷ agents) agent_id hashed h k =
    ground (arith, not_taken_fresh agents agent_id hashed)

agent_of_hash-rekey :
    (agents : List Agent) (agent_id : String) (role : AgentRole) (hashed : String)
    → taken agent_id hashed agents ≡ false
    → has_id agent_id agents ≡ true
    → agent_of_hash (rekey agents agent_id role hashed) hashed
      ≡ some (agent_principal agent_id role)
unfolding agent_of_hash rekey
agent_of_hash-rekey [] agent_id role hashed h k = cc
agent_of_hash-rekey (a ∷ agents) agent_id role hashed h k = ground (
  arith,
  agent_of_hash-rekey agents agent_id role hashed,
  string_eq.same_iff hashed hashed,
  string_eq.same_iff a.agent_id agent_id,
)

-- After a rotation no other hash opens the agent.
agent_of_hash-rekey_ne :
    (agents : List Agent) (agent_id : String) (role : AgentRole) (hashed old : String)
    (p : Principal)
    → old ≢ hashed
    → agent_of_hash (rekey agents agent_id role hashed) old ≡ some p
    → p.agent_id ≢ agent_id
unfolding agent_of_hash rekey
agent_of_hash-rekey_ne [] agent_id role hashed old p ne h = absurd (ground arith)
agent_of_hash-rekey_ne (a ∷ agents) agent_id role hashed old p ne h =
    elim (Bool-cases (a.agent_id == agent_id)) [
      | inl mine ↦
          agent_of_hash-rekey_ne agents agent_id role hashed old p ne
            (ground (arith, string_eq.same_iff hashed old))
      | inr other ↦ elim (Bool-cases (a.key_hash == old && is_active a)) [
        | inl hit ↦ λ e. ground (arith, string_eq.same_iff a.agent_id agent_id)
        | inr miss ↦ agent_of_hash-rekey_ne agents agent_id role hashed old p ne (ground arith)
      ]
    ]

module _ (hash : String → String) (agents : List Agent) (agent_id : String) where
  -- Once an agent is revoked no key opens it: whoever a key resolves to is the admin, by the admin
  -- key, or another agent.
  pub revoked_locked_out :
      (key : String) (admin_key : Option String) (now : ℕ) (p : Principal)
      → resolve_key hash (revoke_agent agents agent_id now).0 (some key) admin_key ≡ some p
      → ((is_admin_key key admin_key ≡ true) × (p ≡ admin)) ⊎ (p.agent_id ≢ agent_id)
  unfolding resolve_key
  revoked_locked_out key admin_key now p h = elim (Bool-cases (is_admin_key key admin_key)) [
    | inl yes_ ↦ inl (yes_, ground arith)
    | inr no_ ↦ inr ((agent_of_hash-revoke_agent agents agent_id (hash key) now p (ground arith)).0)
  ]

  -- The key that a successful registration returns, if it is neither empty nor the admin key, opens
  -- the agent with its new role.
  pub registered_resolves :
      (role : AgentRole) (rotate : Bool) (key : String) (admin_key : Option String) (now : ℕ)
      (after : List Agent)
      → truthy key ≡ true
      → is_admin_key key admin_key ≡ false
      → register_agent hash agents agent_id role rotate key now ≡ some after
      → resolve_key hash after (some key) admin_key
        ≡ some (record { agent_id = agent_id; role = role; is_admin = false })
  unfolding resolve_key register_agent
  registered_resolves role rotate key admin_key now after shown plain h =
      let new : Agent = record {
        agent_id = agent_id;
        agent_role = role;
        key_hash = hash key;
        created_at = now;
        revoked_at = none;
      } in
      ground (
        arith,
        agent_of_hash-rekey agents agent_id role (hash key),
        agent_of_hash-insert agents new,
        not_taken_fresh agents agent_id (hash key),
      )

  -- After the rotation of a known agent's key, no other key that hashes differently and is not the
  -- admin key opens the agent.
  pub rotated_locked_out :
      (role : AgentRole) (key old : String) (admin_key : Option String) (now : ℕ)
      (after : List Agent) (p : Principal)
      → has_id agent_id agents ≡ true
      → hash old ≢ hash key
      → is_admin_key old admin_key ≡ false
      → register_agent hash agents agent_id role true key now ≡ some after
      → resolve_key hash after (some old) admin_key ≡ some p
      → p.agent_id ≢ agent_id
  unfolding resolve_key register_agent
  rotated_locked_out role key old admin_key now after p known ne plain h k =
      agent_of_hash-rekey_ne agents agent_id role (hash key) (hash old) p ne (ground arith)
