-- ===== src/Api/Identity.antt =====
-- Who a request acts as, and what it is shown.
use action_cloud.Prelude.{
  ℕ, ◌≡◌, refl, ◌⊎◌, inl, inr, String, string_eq, Bool, true, false, not, ◌&&◌, Option, none, some,
  List, arith, Bool-cases, Option-cases,
}
use action_cloud.Schema.{AgentRole, role_eq, ExperienceCreate, truthy?}
use action_cloud.Judge.{Rounding}
use action_cloud.Store.{Store}
use action_cloud.Auth.{Principal, Agent, resolve_key}
use action_cloud.Pipeline.{Enrichers}
use action_cloud.Service.{Options, System, Stored, store_experience, record_reuse}
use action_cloud.Api.Admin.{create_agent}
use action_cloud.Api.{
  response, http_error, presented, Settings, authenticate, require_admin, other_id, other_role,
  resolve_identity, report_experience_reuse, store_payload, store_experience_route, or_status,
  reuse_response,
}

-- Whether what a request claims fits its principal.
abbrev pub is_honest : Option String → Option AgentRole → Principal → Bool
is_honest claimed_id claimed_role p = not (other_id claimed_id p) && not (other_role claimed_role p)

-- With an agent's key the identity is the key's agent and role, if the request names nobody else,
-- and is refused with 403 otherwise.
pub resolve_identity_agent :
    (p : Principal) (claimed_id : Option String) (claimed_role : Option AgentRole)
    → p.is_admin ≡ false
    → ((is_honest claimed_id claimed_role p ≡ true)
        × (resolve_identity (some p) claimed_id claimed_role
            ≡ response (some p.agent_id, some p.role)))
      ⊎ ((is_honest claimed_id claimed_role p ≡ false)
          × (resolve_identity (some p) claimed_id claimed_role ≡ http_error 403))
unfolding resolve_identity
resolve_identity_agent p claimed_id claimed_role h = elim (Bool-cases (other_id claimed_id p)) [
  | inl a ↦ inr (ground arith, ground arith)
  | inr a ↦ elim (Bool-cases (other_role claimed_role p)) [
    | inl b ↦ inr (ground arith, ground arith)
    | inr b ↦ inl (ground arith, ground arith)
  ]
]

-- A report of reuse by an agent's key is the report of that agent under its own name, or 403,
-- whoever the request names.
pub report_experience_reuse_own :
    (r : Rounding) (s : Store) (p : Principal) (id : ℕ) (success : Bool)
    (claimed_id : Option String) (now : ℕ)
    → p.is_admin ≡ false
    → (report_experience_reuse r s (some p) id success claimed_id now
        ≡ reuse_response (record_reuse r s id success (some p.agent_id) now))
      ⊎ (report_experience_reuse r s (some p) id success claimed_id now ≡ http_error 403)
unfolding report_experience_reuse
report_experience_reuse_own r s p id success claimed_id now h =
    elim (resolve_identity_agent p claimed_id none h) [
      | inl (_, e) ↦ inl (ground arith)
      | inr (_, e) ↦ inr (ground arith)
    ]

-- What an agent's key stores is stored as that agent's, with its role, whoever the request names;
-- or the request is refused.
pub store_experience_route_own :
    (r : Rounding) (enrichers : Enrichers) (options : Options) (sys : System) (p : Principal)
    (payload : ExperienceCreate) (claimed_id : Option String) (claimed_role : Option AgentRole)
    (id : ℕ) (accepted : Bool) (now : ℕ) (res : System × Stored)
    → p.is_admin ≡ false
    → store_experience_route r enrichers options sys
        (some p)
        payload
        claimed_id
        claimed_role
        id
        accepted
        now
      ≡ response res
    → or_status 503 (
        store_experience r enrichers options sys
          (record payload { agent_id = p.agent_id; agent_role = p.role })
          id
          accepted
          now)
      ≡ response res
unfolding store_experience_route store_payload
store_experience_route_own r enrichers options sys p payload claimed_id claimed_role id accepted now
      res h k =
    elim (resolve_identity_agent p claimed_id claimed_role h) [
      | inl (_, e) ↦ ground arith
      | inr (_, e) ↦ absurd (ground arith)
    ]

-- A request passes with no principal only if authentication is off and it presents no key; one that
-- passes with a principal has a key that resolves to it.
pub authenticate_sound :
    (hash : String → String) (bearer : String → Option String) (settings : Settings)
    (agents : List Agent) (x_api_key authorization : Option String) (who : Option Principal)
    → authenticate hash bearer settings agents x_api_key authorization ≡ response who
    → ((who ≡ none)
        × (settings.auth_required ≡ false)
        × (truthy? (presented bearer x_api_key authorization) ≡ false))
      ⊎ ((p : Principal) × (who ≡ some p)
          × (resolve_key hash agents (presented bearer x_api_key authorization) settings.admin_key
              ≡ some p))
unfolding authenticate
authenticate_sound hash bearer settings agents x_api_key authorization who h =
    let key = presented bearer x_api_key authorization in
    elim (Bool-cases (not settings.auth_required && not (truthy? key))) [
      | inl off ↦ inl (ground arith, ground arith, ground arith)
      | inr on_ ↦ elim (Option-cases (resolve_key hash agents key settings.admin_key)) [
        | inl e ↦ absurd (ground arith)
        | inr (p, e) ↦ inr (p, ground arith, e)
      ]
    ]

-- Only a principal that is an admin registers an agent: any other request gets 403.
pub create_agent_admin :
    (hash : String → String) (agents : List Agent) (principal : Option Principal)
    (agent_id : String) (role : AgentRole) (rotate : Bool) (key : String) (now : ℕ)
    → ((p : Principal) × (principal ≡ some p) × (p.is_admin ≡ true))
      ⊎ (create_agent hash agents principal agent_id role rotate key now ≡ http_error 403)
unfolding create_agent require_admin
create_agent_admin hash agents none agent_id role rotate key now = inr refl
create_agent_admin hash agents (some p) agent_id role rotate key now =
    elim (Bool-cases p.is_admin) [ inl yes_ ↦ inl (p, refl, yes_) | inr no_ ↦ inr (ground arith) ]
