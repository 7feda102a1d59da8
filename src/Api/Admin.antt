-- ===== src/Api/Admin.antt =====
-- The routes of src/actioncloud/api.py for the registry of agents, and those that report on the service.
-- What the probes of the database and of the queue found is an argument.
use action_cloud.Prelude.{
  ℕ, String, string_eq, Bool, true, ◌&&◌, Option, none, some, List, ◌==◌, if◌then◌else◌, ◌≡◌, ◌⊎◌,
  inl, inr, refl, sym, ◌∙◌, arith, Bool-cases, count,
}
use action_cloud.Schema.{AgentRole, role_eq}
use action_cloud.Judge.{Rounding}
use action_cloud.Store.{Store}
use action_cloud.Auth.{Principal, Agent, register_agent, revoke_agent}
use action_cloud.Api.{Http, response, http_error, ◌>>=◌, Settings, authenticate, require_admin}
use action_cloud.Metrics.Stored.{RunMetrics, of_run, or_none}
use action_cloud.Metrics.Stored.Partition.{sum_tasks, calculate_run_metrics_partition}
use action_cloud.Store.Legacy.{count_experiences}
use action_cloud.Service.{get_metrics}

-- POST /agents and DELETE /agents/{agent_id}
unfoldable pub create_agent :
    (String → String)
    → List Agent
    → Option Principal
    → String
    → AgentRole
    → Bool
    → String
    → ℕ
    → Http (List Agent × String)
unfolding require_admin
create_agent hash agents principal agent_id role rotate key now = do
  _ ← require_admin principal
  elim (register_agent hash agents agent_id role rotate key now) [
    | none ↦ http_error 409
    | some after ↦ response (after, key)
  ]

unfoldable pub delete_agent : List Agent → Option Principal → String → ℕ → Http (List Agent)
unfolding require_admin
delete_agent agents principal agent_id now = do
  _ ← require_admin principal
  let (after, changed) = revoke_agent agents agent_id now
  if changed then response after else http_error 404

pub record Health : Type 0 where
  pub healthy : Bool
  pub database : Bool
  -- none: writes are processed in the request
  pub queue : Option Bool
  pub sync_write : Bool
  pub auth_required : Bool
  pub is_local : Bool

-- GET /health; `queue_answers` is whether get_queue_url raises nothing.
unfoldable pub health : Bool → Bool → Bool → Settings → Bool → Health
health db_ok sync_write queue_answers settings is_local =
    let queue_ok : Option Bool = if sync_write then none else some queue_answers in
    record {
      healthy = db_ok && elim queue_ok [ none ↦ true | some up ↦ up ];
      database = db_ok;
      queue = queue_ok;
      sync_write = sync_write;
      auth_required = settings.auth_required;
      is_local = is_local;
    }

-- GET /stats and GET /metrics, for whom `authenticate` lets through.
module _ (r : Rounding) (ordered : List (Option String) → List (Option String))
    (hash : String → String) (bearer : String → Option String) (settings : Settings)
    (agents : List Agent) (x_api_key authorization : Option String) (s : Store)
    (run_id : Option String) where
  unfoldable pub stats : Http (Option String × ℕ)
  unfolding authenticate count_experiences
  stats = do
    _ ← authenticate hash bearer settings agents x_api_key authorization
    response (run_id, count_experiences s run_id)

  unfoldable pub get_metrics_route : Http RunMetrics
  unfolding authenticate get_metrics
  get_metrics_route = do
    _ ← authenticate hash bearer settings agents x_api_key authorization
    response (get_metrics r ordered s run_id)

count_experiences-of_run :
    (s : Store) (run_id : Option String)
    → count_experiences s run_id ≡ count (of_run (or_none run_id)) s.experiences
unfolding count_experiences
count_experiences-of_run s none = refl
count_experiences-of_run s (some run_id) = elim (Bool-cases (run_id == "")) [
  | inl e ↦ rw e refl
  | inr e ↦ rw e refl
]

module _ (r : Rounding) (ordered : List (Option String) → List (Option String))
    (hash : String → String) (bearer : String → Option String) (settings : Settings)
    (agents : List Agent) (x_api_key authorization : Option String) (s : Store)
    (run_id : Option String) where
  -- The two reports agree: for every caller and every run they refuse with the same status, or the
  -- tasks of all the systems of GET /metrics are as many as the experiences of GET /stats.
  pub stats-get_metrics_route :
      ((n : ℕ) × (stats r ordered hash bearer settings agents x_api_key authorization s run_id
          ≡ http_error n)
        × (get_metrics_route r ordered hash bearer settings agents x_api_key authorization s run_id
            ≡ http_error n))
      ⊎ ((n : ℕ) × (m : RunMetrics) × (stats r ordered hash bearer settings agents x_api_key
              authorization s run_id
            ≡ response (run_id, n))
          × (get_metrics_route r ordered hash bearer settings agents x_api_key authorization s
                run_id
              ≡ response m)
          × (sum_tasks m.systems ≡ n))
  unfolding stats get_metrics_route
  stats-get_metrics_route =
      go (authenticate hash bearer settings agents x_api_key authorization) refl
    where
      go :
          (x : Http (Option Principal))
          → authenticate hash bearer settings agents x_api_key authorization ≡ x
          → ((n : ℕ) × (stats r ordered hash bearer settings agents x_api_key authorization s run_id
                ≡ http_error n)
              × (get_metrics_route r ordered hash bearer settings agents x_api_key authorization s
                    run_id
                  ≡ http_error n))
            ⊎ ((n : ℕ) × (m : RunMetrics) × (stats r ordered hash bearer settings agents x_api_key
                    authorization s run_id
                  ≡ response (run_id, n))
                × (get_metrics_route r ordered hash bearer settings agents x_api_key authorization s
                      run_id
                    ≡ response m)
                × (sum_tasks m.systems ≡ n))
      go (http_error n) e = inl (n, ground (arith, e), ground (arith, e))
      go (response p) e = inr (
        count_experiences s run_id,
        get_metrics r ordered s run_id,
        ground (arith, e),
        ground (arith, e),
        (calculate_run_metrics_partition r s ordered run_id).0
            ∙ sym (count_experiences-of_run s run_id),
      )
