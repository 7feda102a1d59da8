-- ===== src/Service.antt =====
-- src/actioncloud/service.py: MemoryService over the store, the judge, the search and the builder,
-- and the queue of src/actioncloud/queue.py that it publishes to. What a method raises is an error
-- of `Result`; a method that raises leaves the state as it was.
pub mod Prompt
use action_cloud.Prelude.{
  ℕ, String, string_eq, nat_eq, Bool, true, false, Option, none, some, List, [], ◌∷◌, ◌++◌,
  if◌then◌else◌, map, contains, filter,
}
use action_cloud.Floats.{Floats}
use action_cloud.Schema.{
  AgentRole, MemoryTier, ExperienceCreate, Experience, new_experience, truthy,
}
use action_cloud.Judge.{Rounding, decide, posterior_confidence}
use action_cloud.Store.{Vector, Store, record_injections}
use action_cloud.Store.Reuse.{Why, Outcome, apply_reuse}
use action_cloud.Store.Search.{SearchParams, Engine, Candidate, hybrid_search_experiences}
use action_cloud.Embeddings.{experience_embedding_text}
use action_cloud.Pipeline.{Enrichers, decided_by, process_experience}
use action_cloud.Metrics.Stored.{RunMetrics, calculate_run_metrics}
use action_cloud.Render.{count_tokens}
use action_cloud.Builder.{MemorySelectionPolicy, Scored, Context, build_context}

pub data ServiceError : Type 0 where
  -- ValueError: agent_id of the reporting agent is required
  reporter_required : ServiceError
  -- KeyError
  experience_not_found : ServiceError
  -- RuntimeError: the queue did not take the message
  could_not_queue : ServiceError
  -- TypeError: a workflow does not render
  rendering_failed : ServiceError
  -- process_experience raised on the synchronous path
  processing_failed : ServiceError
  -- an error of the database, such as a foreign key that no row has
  database_error : ServiceError

pub data Result {ℓ} (A : Type ℓ) : Type ℓ where
  ok : A → Result A
  err : ServiceError → Result A

infixl 5 ◌>>=◌
abbrev pub ◌>>=◌ {ℓ κ} : {A : Type ℓ} {B : Type κ} → Result A → (A → Result B) → Result B
ok a >>= f = f a
err e >>= f = err e

abbrev pub or_raise {ℓ} : {A : Type ℓ} → Option A → ServiceError → Result A
or_raise none e = err e
or_raise (some a) e = ok a

-- The payload of a message: the fields of an Experience, an object that Experience refuses with a
-- ValidationError, or JSON that is no object, for which `Experience(**payload)` is a TypeError.
pub data Payload : Type 0 where
  experience : Experience → Payload
  invalid : Payload
  not_an_object : Payload

-- The body of a message. Its type is a text, another JSON value that a dict may have as a key, or a
-- list or an object, which may be no key. A body without a type and a payload is `unparseable`.
pub data Body : Type 0 where
  event : String → Payload → Body
  other_type : Body
  unhashable_type : Body
  unparseable : Body

pub record Message : Type 0 where
  pub body : Body
  pub receipt_handle : ℕ
  -- ApproximateReceiveCount, this delivery included
  pub receives : ℕ

pub record System : Type 0 where
  pub store : Store
  pub queue : List Body

pub record Options : Type 0 where
  pub sync_write : Bool
  pub governance : Bool
  pub author_prior : Bool

pub record Stored : Type 0 where
  pub id : ℕ
  pub queued : Bool

pub record ReuseReply : Type 0 where
  pub counted : Bool
  pub reuse_count : ℕ
  pub reuse_success_count : ℕ
  pub tier : MemoryTier
  pub confidence : ℕ
  pub transition : Option MemoryTier
  pub why : Why

-- The reporter, unless it is missing or the empty text.
abbrev pub reporter_of : Option String → Option String
reporter_of none = none
reporter_of (some agent_id) = if truthy agent_id then some agent_id else none

reply_of : Outcome → ReuseReply
reply_of o = record {
  counted = o.counted;
  reuse_count = o.row.reuse_count;
  reuse_success_count = o.row.reuse_success_count;
  tier = o.row.tier;
  confidence = o.row.confidence;
  transition = elim o.transition [ none ↦ none | some t ↦ some t.to_tier ];
  why = o.why;
}

module _ (r : Rounding) where
  -- `id` is the fresh uuid4 of the new experience. `accepted` is whether SQS takes the message.
  unfoldable pub store_experience :
      Enrichers → Options → System → ExperienceCreate → ℕ → Bool → ℕ → Result (System × Stored)
  unfolding process_experience
  store_experience enrichers options sys payload id accepted now =
      let exp = new_experience payload id in
      let processed =
        process_experience r enrichers sys.store exp options.governance options.author_prior now in
      if options.sync_write
      then (if enrichers.answers exp
          then ok (record sys { store = processed.0 }, record { id = id; queued = false })
          else err processing_failed)
      else if accepted
      then ok (
        record sys { queue = sys.queue ++ event "experience.created" (experience exp) ∷ [] },
        record { id = id; queued = true },
      )
      else err could_not_queue

  unfoldable pub record_reuse : Store → ℕ → Bool → Option String → ℕ → Result (Store × ReuseReply)
  unfolding apply_reuse reply_of
  record_reuse s id success agent_id now = do
    reporter ← or_raise (reporter_of agent_id) reporter_required
    res ←
        or_raise
          (apply_reuse (decide r) decided_by (some (posterior_confidence r)) s id success reporter
            now)
          experience_not_found
    ok (res.0, reply_of res.1)

module _ (F : Floats) (engine : Engine F) (embed : String → Vector) where
  unfoldable pub search_memory : Store → String → List String → SearchParams → List (Candidate F)
  unfolding hybrid_search_experiences experience_embedding_text
  search_memory s query technologies p =
      hybrid_search_experiences F engine s query
        (embed (experience_embedding_text query technologies none)) p 0

module _ (F : Floats) (engine : Engine F) (ratio : String → String → F.Float)
    (embed : String → Vector) where
  -- A row of the answer as the builder reads it.
  unfoldable pub memory_of : Candidate F → Scored F
  memory_of c = record {
    memory = record {
      id = c.id;
      task = c.task;
      task_key = c.task_key;
      problem = c.problem;
      solution = c.solution;
      result = some c.result;
      success = c.success;
      tier = c.tier;
      workflow = c.workflow;
    };
    relevance = some c.relevance;
    confidence = some c.confidence;
  }

  pub record Prepared : Type 0 where
    pub context : Context F ratio
    pub injected_task_keys : List (Option String)
    pub context_tokens : ℕ

  -- Who the search is for: the policy's k, tier floor, and the caller.
  abbrev pub policy_params :
      MemorySelectionPolicy F → Option String → Option AgentRole → Option String → SearchParams
  policy_params policy agent_id role scope_run_id = record {
    limit = policy.candidate_k;
    min_tier = policy.min_tier;
    requester_id = agent_id;
    requester_role = role;
    scope_run_id = scope_run_id;
  }

  unfoldable pub candidates_for :
      Store
      → String
      → Option String
      → Option AgentRole
      → MemorySelectionPolicy F
      → List String
      → Option String
      → List (Candidate F)
  unfolding hybrid_search_experiences experience_embedding_text
  candidates_for s query agent_id role policy technologies scope_run_id =
      hybrid_search_experiences F engine s query
        (embed (experience_embedding_text query technologies none))
        (policy_params policy agent_id role scope_run_id) policy.ann_candidates

  -- `if agent_id and injected_ids: db.record_injections(injected_ids, agent_id)`
  unfoldable pub ledger_entry : Store → List ℕ → Option String → ℕ → Option Store
  unfolding record_injections
  ledger_entry s ids none now = some s
  ledger_entry s ids (some agent_id) now =
      if truthy agent_id then record_injections s ids agent_id now else some s

  unfoldable pub prepare_context :
      Store
      → String
      → Option String
      → Option AgentRole
      → MemorySelectionPolicy F
      → List String
      → Option String
      → ℕ
      → Result (Store × Prepared)
  unfolding candidates_for memory_of build_context ledger_entry
  prepare_context s query agent_id role policy technologies scope_run_id now = do
    let candidates = candidates_for s query agent_id role policy technologies scope_run_id
    context ← or_raise (build_context F ratio (map memory_of candidates) policy) rendering_failed
    s' ← or_raise (ledger_entry s context.injected_ids agent_id now) database_error
    ok (
      s',
      record {
        context = context;
        injected_task_keys =
            map (λ (c : Candidate F). c.task_key)
              (filter (λ c. contains context.injected_ids c.id) candidates);
        context_tokens = count_tokens context.text;
      },
    )

-- get_metrics
module _ (r : Rounding) (ordered : List (Option String) → List (Option String)) where
  unfoldable pub get_metrics : Store → Option String → RunMetrics
  unfolding calculate_run_metrics
  get_metrics s run_id = calculate_run_metrics r s ordered run_id
