-- ===== src/Client/Http.antt =====
-- ActionCloudClient of src/actioncloud/client.py over the routes of the API. A request can get lost, and
-- so can the answer to one that the server has acted on; `api_key` is what the X-API-Key header carries.
pub mod Agreement
use action_cloud.Prelude.{
  ℕ, ◌≡◌, ◌≢◌, refl, ◌⊎◌, inl, inr, String, string_eq, Bool, true, false, Option, none, some, List,
  [], ◌∷◌, if◌then◌else◌, arith, Option-cases,
}
use action_cloud.Floats.{Floats}
use action_cloud.Schema.{AgentRole, MemoryTier, ExperienceCreate, truthy}
use action_cloud.Schema.Tags.{validate}
use action_cloud.Judge.{Rounding}
use action_cloud.Store.{Vector, Store}
use action_cloud.Store.Search.{Engine, SearchParams, Candidate}
use action_cloud.Auth.{Principal, Agent}
use action_cloud.Pipeline.{Enrichers}
use action_cloud.Builder.{MemorySelectionPolicy}
use action_cloud.Service.{System, Options, Prepared, ReuseReply}
use action_cloud.Api.{
  Http, response, http_error, ◌>>=◌, Settings, authenticate, report_experience_reuse,
  store_experience_route,
}
use action_cloud.Api.Retrieval.{Overrides, search_route, prepare_context_route}
use action_cloud.Client.{ContextReply, no_context, or_own}

-- What becomes of one request.
pub data Exchange : Type 0 where
  unreachable answered timed_out : Exchange

-- A request that the server would answer with `h`: the state after it, and the answer; `none` is an
-- httpx.HTTPError, of the transport or of raise_for_status.
unfoldable pub send {ℓ} :
    {State : Type 0} {A : Type ℓ} → Exchange → State → Http (State × A) → State × Option A
send unreachable s h = (s, none)
send answered s (response (t, a)) = (t, some a)
send answered s (http_error n) = (s, none)
send timed_out s (response (t, a)) = (t, none)
send timed_out s (http_error n) = (s, none)

-- A client's own identity: the defaults of its calls.
pub record Caller : Type 0 where
  pub agent_id : String
  pub agent_role : AgentRole
  pub api_key : Option String

abbrev pub or_own_role : Option AgentRole → AgentRole → AgentRole
or_own_role none own = own
or_own_role (some role) own = role

module _ (hash : String → String) (bearer : String → Option String) (settings : Settings)
    (agents : List Agent) (me : Caller) where
  abbrev principal : Http (Option Principal)
  principal = authenticate hash bearer settings agents me.api_key none

  -- An `experience_id` that has no experience is a 404, which raises here.
  unfoldable pub http_report_reuse :
      Rounding → Exchange → System → ℕ → Bool → Option String → ℕ → System × Option ReuseReply
  unfolding send authenticate report_experience_reuse
  http_report_reuse r exchange sys id success agent_id now = send exchange sys (do
    p ← principal
    (s, reply) ←
        report_experience_reuse r sys.store p id success (some (or_own agent_id me.agent_id)) now
    response (record sys { store = s }, reply))

  -- store; `none` is the ActionCloudError.
  unfoldable pub http_store :
      Rounding
      → Enrichers
      → Options
      → (String → String)
      → Exchange
      → System
      → ExperienceCreate
      → Option String
      → Option AgentRole
      → ℕ
      → Bool
      → ℕ
      → System × Option ℕ
  unfolding send authenticate store_experience_route validate
  http_store r enrichers options fold exchange sys fields agent_id agent_role id accepted now =
      let name = or_own agent_id me.agent_id in
      let role = or_own_role agent_role me.agent_role in
      send exchange sys
        (elim (validate fold (record fields { agent_id = name; agent_role = role })) [
          | none ↦ http_error 422
          | some payload ↦ (do
            p ← principal
            (t, stored) ←
                store_experience_route r enrichers options sys p payload (some name) (some role) id
                  accepted now
            response (t, stored.id))
        ])

  module _ (F : Floats) (engine : Engine F) (embed : String → Vector) where
    abbrev or_empty {ℓ} : {A : Type ℓ} → Option (List A) → List A
    or_empty none = []
    or_empty (some xs) = xs

    -- Without include_own_private the request names nobody.
    unfoldable pub http_search :
        Exchange
        → Store
        → String
        → ℕ
        → MemoryTier
        → Bool
        → Option String
        → Option AgentRole
        → List (Candidate F)
    unfolding send authenticate search_route
    http_search exchange s query limit min_tier include_own_private agent_id agent_role =
        let name : Option String =
          if include_own_private then some (or_own agent_id me.agent_id) else none in
        let role : Option AgentRole =
          if include_own_private then some (or_own_role agent_role me.agent_role) else none in
        or_empty
          (send exchange s (do
            p ← principal
            found ← search_route F engine embed s p query limit min_tier name role [] none
            response (s, found))).1

    module _ (ratio : String → String → F.Float) where
      -- The body of the request: the fields of the policy that it carries.
      abbrev pub overrides_of : Option (MemorySelectionPolicy F) → Overrides F
      overrides_of none = record {
        candidate_k = none;
        max_context_memories = none;
        similarity_threshold = none;
        context_token_budget = none;
        redundancy_threshold = none;
      }
      overrides_of (some policy) = record {
        candidate_k = some policy.candidate_k;
        max_context_memories = some policy.max_context_memories;
        similarity_threshold = some policy.similarity_threshold;
        context_token_budget = some policy.context_token_budget;
        redundancy_threshold = some policy.redundancy_threshold;
      }

      abbrev pub reply_from : Option (Prepared F engine ratio embed) → ContextReply
      reply_from none = no_context
      reply_from (some p) = record {
        context = p.context.text;
        injected_experience_ids = p.context.injected_ids;
        injected_task_keys = p.injected_task_keys;
        context_tokens = p.context_tokens;
        candidate_count = p.context.candidate_count;
      }

      -- `from_env` is the policy of the server.
      abbrev pub asked :
          System
          → MemorySelectionPolicy F
          → String
          → Option String
          → Option AgentRole
          → List String
          → Option (MemorySelectionPolicy F)
          → Option String
          → ℕ
          → Http (System × Prepared F engine ratio embed)
      unfolding prepare_context_route
      asked sys from_env query agent_id agent_role technologies policy scope_run_id now = do
        p ← principal
        (s, prepared) ←
            prepare_context_route F engine embed ratio sys.store p from_env (overrides_of policy)
              query (some (or_own agent_id me.agent_id))
              (some (or_own_role agent_role me.agent_role)) technologies scope_run_id now
        response (record sys { store = s }, prepared)

      unfoldable pub http_context :
          Exchange
          → System
          → MemorySelectionPolicy F
          → String
          → Option String
          → Option AgentRole
          → List String
          → Option (MemorySelectionPolicy F)
          → Option String
          → ℕ
          → System × ContextReply
      unfolding send authenticate
      http_context exchange sys from_env query agent_id agent_role technologies policy scope_run_id
            now =
          let (t, answer) =
            send exchange sys
              (asked sys from_env query agent_id agent_role technologies policy scope_run_id now) in
          (t, reply_from answer)
