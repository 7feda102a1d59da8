-- ===== src/Governance/Program.antt =====
-- The whole program as one system: the routes of the API, the tools of the MCP server and the worker,
-- over one store and one queue. A call that raises leaves both as they were.
pub mod Histories
pub mod Tools
pub mod Whole
use action_cloud.Prelude.{
  ℕ, zero, suc, String, string_eq, Bool, true, false, Option, none, some, List, [], ◌∷◌, ◌++◌,
  if◌then◌else◌,
}
use action_cloud.Floats.{Floats}
use action_cloud.Schema.{AgentRole, ExperienceCreate}
use action_cloud.Judge.{Rounding}
use action_cloud.Store.{Vector, Store}
use action_cloud.Store.Search.{Engine}
use action_cloud.Auth.{Principal}
use action_cloud.Pipeline.{Enrichers}
use action_cloud.Builder.{MemorySelectionPolicy}
use action_cloud.Service.{Body, System, Options}
use action_cloud.Api.{Http, response, http_error, report_experience_reuse, store_experience_route}
use action_cloud.Api.Retrieval.{Overrides, prepare_context_route}
use action_cloud.Mcp.{Value, Tool, answered, refused, Args}
use action_cloud.Mcp.Tools.{call_tool}
use action_cloud.Worker.{dispatch}

-- What reaches the program. Searches and reports write nothing, and are left out.
pub data Event (F : Floats) : Type 0 where
  posts :
      (principal : Option Principal) (payload : ExperienceCreate) (claimed_id : Option String)
      (claimed_role : Option AgentRole) (id : ℕ) (accepted : Bool) (now : ℕ)
      → Event F
  asks :
      (principal : Option Principal) (req : Overrides F) (query : String)
      (claimed_id : Option String) (claimed_role : Option AgentRole) (technologies : List String)
      (scope_run_id : Option String) (now : ℕ)
      → Event F
  judges :
      (principal : Option Principal) (id : ℕ) (success : Bool) (claimed_id : Option String)
      (now : ℕ)
      → Event F
  calls :
      (principal : Option Principal) (name : String) (args : Args) (id : ℕ) (accepted : Bool)
      (now : ℕ)
      → Event F
  -- the worker gets the message at this place of the queue, with its receive count and fault
  delivers : (place receives : ℕ) (fault : Bool) (now : ℕ) → Event F

abbrev pub body_at : ℕ → List Body → Option Body
body_at n [] = none
body_at zero (b ∷ bs) = some b
body_at (suc n) (b ∷ bs) = body_at n bs

abbrev pub remove_at : ℕ → List Body → List Body
remove_at n [] = []
remove_at zero (b ∷ bs) = bs
remove_at (suc n) (b ∷ bs) = b ∷ remove_at n bs

abbrev pub after_route {ℓ} : {A : Type ℓ} → System → Http (System × A) → System
after_route sys (response (t, a)) = t
after_route sys (http_error n) = sys

abbrev pub after_write {ℓ} : {A : Type ℓ} → System → Http (Store × A) → System
after_write sys (response (s, a)) = record sys { store = s }
after_write sys (http_error n) = sys

abbrev pub after_tool {ℓ} : {A : Type ℓ} → System → Tool (System × A) → System
after_tool sys (answered (t, a)) = t
after_tool sys (refused f) = sys

-- The worker's exception leaves the message where it is.
abbrev pub after_delivery : System → ℕ → Option (Store × Bool) → System
after_delivery sys place none = sys
after_delivery sys place (some (s, deleted)) = record {
  store = s;
  queue = if deleted then remove_at place sys.queue else sys.queue;
}

module _ (F : Floats) (engine : Engine F) (ratio : String → String → F.Float)
    (embed : String → Vector) (r : Rounding) (enrichers : Enrichers) (options : Options)
    (fold : String → String) (uuid_of : Value → Option ℕ) (int_of_text : String → Option ℕ)
    (from_env : MemorySelectionPolicy F) (max_receives : ℕ) where
  unfoldable pub handle : System → Event F → System
  unfolding store_experience_route prepare_context_route report_experience_reuse call_tool dispatch
  handle sys (posts principal payload claimed_id claimed_role id accepted now) = after_route sys (
      store_experience_route r enrichers options sys principal payload claimed_id claimed_role id
        accepted now)
  handle sys (asks principal req query claimed_id claimed_role technologies scope_run_id now) =
      after_write sys (
        prepare_context_route F engine embed ratio sys.store principal from_env req query claimed_id
          claimed_role technologies scope_run_id now)
  handle sys (judges principal id success claimed_id now) =
      after_write sys (report_experience_reuse r sys.store principal id success claimed_id now)
  handle sys (calls principal name args id accepted now) = after_tool sys (
      call_tool r enrichers options fold uuid_of int_of_text F engine embed ratio principal from_env
        sys name args id accepted now)
  handle sys (delivers place receives fault now) = elim (body_at place sys.queue) [
    | none ↦ sys
    | some body ↦
        after_delivery sys place
          (dispatch r enrichers options.author_prior max_receives sys.store body receives fault now)
  ]

  unfoldable pub handle_all : System → List (Event F) → System
  unfolding handle
  handle_all sys [] = sys
  handle_all sys (e ∷ es) = handle_all (handle sys e) es
