-- ===== src/Client.antt =====
-- src/actioncloud/client.py: what an agent calls. `Client` is the interface that both clients have; an
-- exception is `none`, and a client that raises leaves the state as it was. `now` is the time of a
-- call, and the id of a stored experience is a fresh one.
pub mod Http
use action_cloud.Prelude.{
  ℕ, String, string_eq, Bool, true, false, Option, none, some, List, [], ◌∷◌, map, if◌then◌else◌,
  ◌==◌,
}
use action_cloud.Floats.{Floats}
use action_cloud.Schema.{AgentRole, ExperienceCreate, truthy}
use action_cloud.Schema.Tags.{validate}
use action_cloud.Judge.{Rounding}
use action_cloud.Store.{Vector, Store}
use action_cloud.Store.Search.{Engine, SearchParams, Candidate}
use action_cloud.Pipeline.{Enrichers}
use action_cloud.Builder.{MemorySelectionPolicy}
use action_cloud.Service.{
  Result, ok, err, System, Options, Prepared, store_experience, record_reuse, search_memory,
  prepare_context,
}

-- The keys of the answer to `context` that an agent reads.
pub record ContextReply : Type 0 where
  pub context : String
  pub injected_experience_ids : List ℕ
  pub injected_task_keys : List (Option String)
  pub context_tokens : ℕ
  pub candidate_count : ℕ

abbrev pub no_context : ContextReply
no_context = record {
  context = "";
  injected_experience_ids = [];
  injected_task_keys = [];
  context_tokens = 0;
  candidate_count = 0;
}

infixl 5 ◌>>=◌
abbrev pub ◌>>=◌ {ℓ κ} : {A : Type ℓ} {B : Type κ} → Option A → (A → Option B) → Option B
none >>= f = none
some a >>= f = f a

abbrev pub raised {ℓ} : {A : Type ℓ} → Result A → Option A
raised (ok a) = some a
raised (err e) = none

pub record Client (F : Floats) (State : Type 0) : Type 0 where
  pub context :
      State
      → String
      → String
      → AgentRole
      → List String
      → MemorySelectionPolicy F
      → Option String
      → ℕ
      → Option (State × ContextReply)
  pub report_reuse : State → ℕ → Bool → String → ℕ → Option State
  pub store : State → ExperienceCreate → ℕ → ℕ → Option (State × ℕ)

-- `agent_id or self.agent_id`
abbrev pub or_own : Option String → String → String
or_own none own = own
or_own (some agent_id) own = if truthy agent_id then agent_id else own

-- InProcessClient: the service itself, with writes through the pipeline. `agent_id` is its own.
module _ (F : Floats) (engine : Engine F) (ratio : String → String → F.Float)
    (embed : String → Vector) (r : Rounding) (enrichers : Enrichers) (options : Options)
    (fold : String → String) (own_id : String) where
  abbrev pub reply_of : Prepared F engine ratio embed → ContextReply
  reply_of p = record {
    context = p.context.text;
    injected_experience_ids = p.context.injected_ids;
    injected_task_keys = p.injected_task_keys;
    context_tokens = p.context_tokens;
    candidate_count = p.context.candidate_count;
  }

  unfoldable pub in_process_context :
      System
      → String
      → String
      → AgentRole
      → List String
      → MemorySelectionPolicy F
      → Option String
      → ℕ
      → Option (System × ContextReply)
  unfolding prepare_context
  in_process_context sys query agent_id agent_role technologies policy scope_run_id now = do
    (s, prepared) ← raised (
        prepare_context F engine ratio embed sys.store query (some (or_own (some agent_id) own_id))
          (some agent_role) policy technologies scope_run_id now)
    some (record sys { store = s }, reply_of prepared)

  unfoldable pub in_process_report : System → ℕ → Bool → String → ℕ → Option System
  unfolding record_reuse
  in_process_report sys id success agent_id now = do
    (s, _) ← raised (record_reuse r sys.store id success (some (or_own (some agent_id) own_id)) now)
    some (record sys { store = s })

  -- ExperienceCreate(…), which may raise, and store_experience; the queue takes every message.
  unfoldable pub in_process_store : System → ExperienceCreate → ℕ → ℕ → Option (System × ℕ)
  unfolding store_experience
  in_process_store sys fields id now = do
    payload ← validate fold (record fields { agent_id = or_own (some (fields.agent_id)) own_id })
    (t, stored) ← raised (store_experience r enrichers options sys payload id true now)
    some (t, stored.id)

  unfoldable pub in_process : Client F System
  unfolding in_process_context in_process_report in_process_store
  in_process = record {
    context = in_process_context;
    report_reuse = in_process_report;
    store = in_process_store;
  }

  unfoldable pub in_process_search :
      System → String → SearchParams → Option String → List (Candidate F)
  unfolding search_memory
  in_process_search sys query p agent_id =
      search_memory F engine embed sys.store query []
        (record p { requester_id = some (or_own agent_id own_id) })
