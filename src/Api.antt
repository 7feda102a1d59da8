-- ===== src/Api.antt =====
-- src/actioncloud/api.py: identity and the routes over the service and the registry. An HTTPException
-- is its status. `bearer` stands for the token of an Authorization header, `none` if it does not
-- begin with "bearer " in any case of letters. FastAPI's validation of a request comes before.
pub mod Identity
pub mod Agreement
pub mod Retrieval
pub mod Admin
use action_cloud.Prelude.{
  ℕ, String, string_eq, Bool, true, false, not, ◌&&◌, ◌||◌, Option, none, some, List, [], ◌∷◌, ◌==◌,
  if◌then◌else◌,
}
use action_cloud.Floats.{Floats}
use action_cloud.Schema.{
  AgentRole, MemoryTier, role_eq, ExperienceCreate, is_visible_to, truthy, truthy?,
}
use action_cloud.Judge.{Rounding}
use action_cloud.Store.{Vector, Row, Store, get_experience}
use action_cloud.Store.Search.{Engine, SearchParams, Candidate}
use action_cloud.Auth.{Principal, Agent, resolve_key, register_agent, revoke_agent}
use action_cloud.Pipeline.{Enrichers}
use action_cloud.Builder.{MemorySelectionPolicy}
use action_cloud.Service.{
  ServiceError, Result, ok, err, reporter_required, experience_not_found, could_not_queue,
  database_error, System, Options, Stored, ReuseReply, Prepared, store_experience, record_reuse,
  search_memory, prepare_context,
}

pub data Http {ℓ} (A : Type ℓ) : Type ℓ where
  response : A → Http A
  http_error : ℕ → Http A

infixl 5 ◌>>=◌
abbrev pub ◌>>=◌ {ℓ κ} : {A : Type ℓ} {B : Type κ} → Http A → (A → Http B) → Http B
response a >>= f = f a
http_error n >>= f = http_error n

-- `key = x_api_key`, or the bearer token where there is none.
abbrev pub bearer_token : (String → Option String) → Option String → Option String
bearer_token bearer none = none
bearer_token bearer (some header) = if truthy header then bearer header else none

abbrev pub presented : (String → Option String) → Option String → Option String → Option String
presented bearer none authorization = bearer_token bearer authorization
presented bearer (some k) authorization =
    if truthy k then some k else bearer_token bearer authorization

pub record Settings : Type 0 where
  pub auth_required : Bool
  pub admin_key : Option String

module _ (hash : String → String) (bearer : String → Option String) where
  -- No principal at all only where authentication is off and no key is given.
  unfoldable pub authenticate :
      Settings → List Agent → Option String → Option String → Http (Option Principal)
  unfolding resolve_key
  authenticate settings agents x_api_key authorization =
      let key = presented bearer x_api_key authorization in
      if not settings.auth_required && not (truthy? key)
      then response none
      else elim (resolve_key hash agents key settings.admin_key) [
        | none ↦ http_error 401
        | some p ↦ response (some p)
      ]

unfoldable pub require_admin : Option Principal → Http Principal
require_admin none = http_error 403
require_admin (some p) = if p.is_admin then response p else http_error 403

-- A claim that names someone else; no claim, or the empty text, names nobody.
abbrev pub other_id : Option String → Principal → Bool
other_id none p = false
other_id (some claimed) p = truthy claimed && not (claimed == p.agent_id)

abbrev pub other_role : Option AgentRole → Principal → Bool
other_role none p = false
other_role (some claimed) p = not (claimed == p.role)

unfoldable pub resolve_identity :
    Option Principal → Option String → Option AgentRole → Http (Option String × Option AgentRole)
resolve_identity none claimed_id claimed_role = response (claimed_id, claimed_role)
resolve_identity (some p) claimed_id claimed_role =
    if p.is_admin
    then response (claimed_id, claimed_role)
    else if other_id claimed_id p
    then http_error 403
    else if other_role claimed_role p
    then http_error 403
    else response (some p.agent_id, some p.role)

-- What a route makes of the errors of the service; an error that it does not catch is a 500.
abbrev pub reuse_status : ServiceError → ℕ
reuse_status experience_not_found = 404
reuse_status reporter_required = 400
reuse_status _ = 500

abbrev pub reuse_response {ℓ} : {A : Type ℓ} → Result A → Http A
reuse_response (ok a) = response a
reuse_response (err e) = http_error (reuse_status e)

abbrev pub or_status {ℓ} : {A : Type ℓ} → ℕ → Result A → Http A
or_status n (ok a) = response a
or_status n (err e) = http_error n

-- POST /experiences/{experience_id}/reuse
unfoldable pub report_experience_reuse :
    Rounding → Store → Option Principal → ℕ → Bool → Option String → ℕ → Http (Store × ReuseReply)
unfolding resolve_identity
report_experience_reuse r s principal id success claimed_id now = do
  (reporter, _) ← resolve_identity principal claimed_id none
  reuse_response (record_reuse r s id success reporter now)

-- POST /experiences: what the key's agent stores is stored under its own name.
unfoldable pub store_payload :
    ExperienceCreate → Option String × Option AgentRole → Http ExperienceCreate
store_payload payload (none, role) = http_error 422
store_payload payload (some agent_id, none) = http_error 422
store_payload payload (some agent_id, some role) =
    if truthy agent_id
    then response (record payload { agent_id = agent_id; agent_role = role })
    else http_error 422

unfoldable pub store_experience_route :
    Rounding
    → Enrichers
    → Options
    → System
    → Option Principal
    → ExperienceCreate
    → Option String
    → Option AgentRole
    → ℕ
    → Bool
    → ℕ
    → Http (System × Stored)
unfolding resolve_identity store_payload
store_experience_route r enrichers options sys principal payload claimed_id claimed_role id accepted
      now =
    do
      identity ← resolve_identity principal claimed_id claimed_role
      data_ ← store_payload payload identity
      or_status 503 (store_experience r enrichers options sys data_ id accepted now)

-- GET /experiences/{experience_id}: an agent that may not see the row is told what it would be told
-- of no row.
abbrev pub sees : Option Principal → Row → Bool
sees none row = true
sees (some p) row =
    p.is_admin || is_visible_to row.tier row.agent_id row.agent_role (some p.agent_id) (some p.role)

unfoldable pub get_experience_route : Store → Option Principal → ℕ → Http Row
get_experience_route s principal id = elim (get_experience s id) [
  | none ↦ http_error 404
  | some row ↦ if sees principal row then response row else http_error 404
]
