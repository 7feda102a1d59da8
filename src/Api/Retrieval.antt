-- ===== src/Api/Retrieval.antt =====
-- The routes of src/actioncloud/api.py that give memories: GET /search and POST /context.
use action_cloud.Prelude.{ℕ, String, string_eq, Option, none, some, List}
use action_cloud.Floats.{Floats}
use action_cloud.Schema.{AgentRole, MemoryTier, role_eq}
use action_cloud.Store.{Vector, Store}
use action_cloud.Store.Search.{Engine, SearchParams, Candidate}
use action_cloud.Auth.{Principal}
use action_cloud.Builder.{MemorySelectionPolicy}
use action_cloud.Service.{Prepared, search_memory, prepare_context}
use action_cloud.Api.{Http, response, ◌>>=◌, resolve_identity, or_status}

-- The fields of a ContextRequest that override the policy.
pub record Overrides (F : Floats) : Type 0 where
  pub candidate_k : Option ℕ
  pub max_context_memories : Option ℕ
  pub similarity_threshold : Option F.Float
  pub context_token_budget : Option ℕ
  pub redundancy_threshold : Option F.Float

abbrev pub or_default {ℓ} : {A : Type ℓ} → Option A → A → A
or_default none a = a
or_default (some b) a = b

module _ (F : Floats) (engine : Engine F) (embed : String → Vector) where
  -- GET /search
  unfoldable pub search_route :
      Store
      → Option Principal
      → String
      → ℕ
      → MemoryTier
      → Option String
      → Option AgentRole
      → List String
      → Option String
      → Http (List (Candidate F))
  unfolding resolve_identity
  search_route s principal q limit min_tier claimed_id claimed_role technologies scope_run_id = do
    (agent_id, role) ← resolve_identity principal claimed_id claimed_role
    let p : SearchParams = record {
      limit = limit;
      min_tier = min_tier;
      requester_id = agent_id;
      requester_role = role;
      scope_run_id = scope_run_id;
    }
    response (search_memory F engine embed s q technologies p)

  module _ (ratio : String → String → F.Float) where
    unfoldable pub overridden : MemorySelectionPolicy F → Overrides F → MemorySelectionPolicy F
    overridden pol req = record pol {
      candidate_k = or_default req.candidate_k pol.candidate_k;
      max_context_memories = or_default req.max_context_memories pol.max_context_memories;
      similarity_threshold = or_default req.similarity_threshold pol.similarity_threshold;
      context_token_budget = or_default req.context_token_budget pol.context_token_budget;
      redundancy_threshold = or_default req.redundancy_threshold pol.redundancy_threshold;
    }

    -- POST /context
    unfoldable pub prepare_context_route :
        Store
        → Option Principal
        → MemorySelectionPolicy F
        → Overrides F
        → String
        → Option String
        → Option AgentRole
        → List String
        → Option String
        → ℕ
        → Http (Store × Prepared F engine ratio embed)
    unfolding resolve_identity
    prepare_context_route s principal from_env req query claimed_id claimed_role technologies
          scope_run_id now =
        do
          (agent_id, role) ← resolve_identity principal claimed_id claimed_role
          or_status 500 (
              prepare_context F engine ratio embed s query agent_id role (overridden from_env req)
                technologies scope_run_id now)
