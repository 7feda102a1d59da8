-- ===== src/Benchmark/Harness.antt =====
-- src/actioncloud/benchmark/harness.py: the workload, and the run of one arm over it with the
-- in-process client. A float of an arm is one of `Floats`. The parameters are the parts of the service, the
-- model, the grader and the tasks of the data file; `shuffle` is the seeded shuffle of an epoch,
-- `draws` the seeded random number of an instance. What the environment gives to the turn with number n
-- (a fresh id, a time taken, the server's clock) is `env n`.
pub mod Schedule
pub mod Turns
pub mod Runs
pub mod Counters
use action_cloud.Prelude.{
  ℕ, zero, suc, ◌+◌, ◌%◌, String, string_eq, nat_eq, Bool, true, false, not, ◌&&◌, Option, none,
  some, List, [], ◌∷◌, ◌++◌, ◌==◌, if◌then◌else◌, map, filter, take, count, length,
}
use action_cloud.Floats.{Floats}
use action_cloud.Schema.{
  AgentRole, MemoryTier, private, agent, shared, validated, organizational, role_value, rank,
}
use action_cloud.Judge.{Rounding}
use action_cloud.Store.{Vector, Store, Row, Transition, get_experience}
use action_cloud.Store.Search.{Engine}
use action_cloud.Pipeline.{Enrichers}
use action_cloud.Builder.{MemorySelectionPolicy}
use action_cloud.Render.{decimal, ◌⧺◌}
use action_cloud.Service.{System, Options}
use action_cloud.Client.{Client, in_process, ◌>>=◌}
use action_cloud.Benchmark.Verifier.{Procedures}
use action_cloud.Agents.{TaskSpec, Response, TaskOutcome, Agent, run_task}
use action_cloud.Agents.Roles.{AgentOptions, build_agent}
use action_cloud.Metrics.{Metrics, pct, ratio_of, compute_metrics, one_if}
use action_cloud.Metrics.{TaskOutcome as MetricRow}

-- An entry of tasks.json.
pub record Task : Type 0 where
  pub id : ℕ
  pub role : AgentRole
  pub task : String
  pub task_key : String
  pub technologies : List String
  pub expected_tools : List String

-- {**t, "instance_id": …}
pub record Instance : Type 0 where
  pub entry : Task
  pub open entry use *
  pub instance_id : String

pub record Workload : Type 0 where
  pub epochs : ℕ
  pub agents_per_role : ℕ
  pub seed : ℕ
  pub limit : Option ℕ

-- list(load_tasks())[:limit] if limit else list(load_tasks())
abbrev pub limited {ℓ} : {A : Type ℓ} → Option ℕ → List A → List A
limited none tasks = tasks
limited (some n) tasks = if n == 0 then tasks else take n tasks

abbrev pub instance_of : ℕ → Task → Instance
instance_of epoch t = record { entry = t; instance_id = decimal t.id ⧺ ":" ⧺ decimal epoch }

module _ (shuffle : String → List Task → List Task) (tasks : List Task) where
  -- The epochs from `epoch` on, `n` of them.
  unfoldable pub epochs_from : Workload → ℕ → ℕ → List Instance
  epochs_from w zero epoch = []
  epochs_from w (suc n) epoch =
      map (instance_of epoch)
        (shuffle (decimal w.seed ⧺ ":" ⧺ decimal epoch) (limited w.limit tasks))
      ++ epochs_from w n (suc epoch)

  unfoldable pub instances : Workload → List Instance
  unfolding epochs_from
  instances w = epochs_from w w.epochs 0

-- _tier_distribution: the rows of the run by tier, in the order of the ladder, and the demotions to
-- PRIVATE of its memories.
abbrev pub is_of_run : String → Row → Bool
is_of_run run_id row = row.run_id == run_id

abbrev pub at_tier : String → MemoryTier → Row → Bool
at_tier run_id tier row = is_of_run run_id row && rank row.tier == rank tier

abbrev ladder : List MemoryTier
ladder = private ∷ agent ∷ shared ∷ validated ∷ organizational ∷ []

unfoldable pub tier_counts : Store → String → List MemoryTier → List (MemoryTier × ℕ)
tier_counts s run_id [] = []
tier_counts s run_id (tier ∷ tiers) =
    let n = count (at_tier run_id tier) s.experiences in
    let rest = tier_counts s run_id tiers in if n == 0 then rest else (tier, n) ∷ rest

abbrev pub is_quarantine : Store → String → Transition → Bool
is_quarantine s run_id t = elim (get_experience s t.experience_id) [
  | none ↦ false
  | some row ↦
      is_of_run run_id row
      && (elim t.from_tier [ none ↦ false | some _ ↦ true ] && rank t.to_tier == rank private)
]

unfoldable pub tier_distribution : Store → String → List (MemoryTier × ℕ) × ℕ
unfolding tier_counts get_experience
tier_distribution s run_id =
    (tier_counts s run_id ladder, count (is_quarantine s run_id) s.tier_transitions)

-- What the turn of an instance takes from the environment.
pub record Turn : Type 0 where
  pub id : ℕ
  pub retrieval_ms : ℕ
  pub now : ℕ

-- The dict memory_correct, the newest entry first, and `.get(id, True)`.
abbrev pub correct : List (ℕ × Bool) → ℕ → Bool
correct [] id = true
correct ((j, ok) ∷ rest) id = if j == id then ok else correct rest id

-- `for exp_id, key in zip(o.retrieved_ids, o.injected_task_keys)`: how many are relevant, and how
-- many of those are known to be wrong.
unfoldable pub relevant_pairs : List (ℕ × Bool) → String → List ℕ → List (Option String) → ℕ × ℕ
relevant_pairs known key [] keys = (0, 0)
relevant_pairs known key (id ∷ ids) [] = (0, 0)
relevant_pairs known key (id ∷ ids) (k ∷ ks) =
    let (relevant, poisoned) = relevant_pairs known key ids ks in
    let same : Bool = elim k [ none ↦ false | some j ↦ j == key ] in
    if same
    then (suc relevant, poisoned + one_if (not (correct known id)))
    else (relevant, poisoned)

-- The variables of the loop of run_arm, with the service's state.
pub record RunState : Type 0 where
  pub system : System
  pub outcomes : List TaskOutcome
  pub memory_correct : List (ℕ × Bool)
  pub poisoned_injections : ℕ
  pub relevant_injections : ℕ
  pub false_positive_stores : ℕ

unfoldable pub count_outcome : RunState → String → System → TaskOutcome → RunState
unfolding relevant_pairs
count_outcome st key system o =
    let (relevant, poisoned) =
      relevant_pairs st.memory_correct key o.retrieved_ids o.injected_task_keys in
    record {
      system = system;
      outcomes = st.outcomes ++ o ∷ [];
      memory_correct = (o.experience_id, o.success) ∷ st.memory_correct;
      poisoned_injections = st.poisoned_injections + poisoned;
      relevant_injections = st.relevant_injections + relevant;
      false_positive_stores =
          st.false_positive_stores + one_if (o.self_check_success && not o.success);
    }

-- The keys of an outcome that compute_metrics reads.
abbrev pub metric_row : TaskOutcome → MetricRow
metric_row o = record {
  task_key = o.task_key;
  success = o.success;
  tokens_input = o.tokens_input;
  tokens_output = o.tokens_output;
  execution_time_ms = o.execution_time_ms;
  cost_usd = o.cost_usd;
  injected_task_keys = o.injected_task_keys;
}

abbrev pub sum_context : List TaskOutcome → ℕ
sum_context [] = 0
sum_context (o ∷ os) = o.context_tokens + sum_context os

pub record ArmResult : Type 0 where
  pub run_id : String
  pub metrics : Metrics
  pub poisoned_injection_pct : ℕ
  pub false_positive_memories : ℕ
  pub avg_context_tokens : ℕ
  pub tiers : List (MemoryTier × ℕ) × ℕ

abbrev pub fresh_state : System → RunState
fresh_state sys = record {
  system = sys;
  outcomes = [];
  memory_correct = [];
  poisoned_injections = 0;
  relevant_injections = 0;
  false_positive_stores = 0;
}

module _ (r : Rounding) where
  -- `m.update(…)` and the answer; the average of no outcomes divides by 0.
  unfoldable pub result_of : String → RunState → Option ArmResult
  unfolding compute_metrics pct ratio_of tier_distribution
  result_of run_id st = elim st.outcomes [
    | [] ↦ none
    | o ∷ os ↦ some (record {
      run_id = run_id;
      metrics = compute_metrics r (map metric_row st.outcomes);
      poisoned_injection_pct = pct r st.poisoned_injections st.relevant_injections;
      false_positive_memories = st.false_positive_stores;
      avg_context_tokens = ratio_of r 10 (sum_context st.outcomes) (length st.outcomes);
      tiers = tier_distribution st.system.store run_id;
    })
  ]

module _ (F : Floats) where
  pub record ArmConfig : Type 0 where
    pub name : String
    pub use_memory : Bool
    pub governance : Bool
    pub k_inject : ℕ
    pub similarity_threshold : F.Float
    pub candidate_k : ℕ
    pub token_budget : ℕ
    pub feedback_rate : F.Float

  -- MemorySelectionPolicy(…) with its other fields at their defaults.
  unfoldable pub policy : ArmConfig → MemorySelectionPolicy F
  policy arm = record {
    candidate_k = arm.candidate_k;
    max_context_memories = arm.k_inject;
    similarity_threshold = arm.similarity_threshold;
    redundancy_threshold = F.of_ten_thousandths 8500;
    context_token_budget = arm.token_budget;
    trust_weight = F.of_ten_thousandths 1000;
    min_confidence = F.of_ten_thousandths 4500;
    ann_candidates = 0;
    min_tier = private;
  }

  -- ArmConfig(name) with the defaults of the class, and the three arms of the paper.
  abbrev pub arm_named : String → ArmConfig
  arm_named name = record {
    name = name;
    use_memory = true;
    governance = true;
    k_inject = 1;
    similarity_threshold = F.of_ten_thousandths 3000;
    candidate_k = 10;
    token_budget = 1000;
    feedback_rate = F.of_ten_thousandths 7000;
  }

  unfoldable pub baseline_arm : ArmConfig
  baseline_arm = record (arm_named "baseline") { use_memory = false }

  unfoldable pub flat_arm : ArmConfig
  flat_arm = record (arm_named "flat_memory") { governance = false }

  unfoldable pub actioncloud_arm : ArmConfig
  actioncloud_arm = arm_named "actioncloud"

  -- f"{experiment_id}-{arm.name}-s{workload.seed}"
  unfoldable pub run_name : String → ArmConfig → Workload → String
  run_name experiment_id arm w = experiment_id ⧺ "-" ⧺ arm.name ⧺ "-s" ⧺ decimal w.seed

  unfoldable pub options_of : ArmConfig → String → Workload → Instance → ℕ → AgentOptions F
  unfolding policy
  options_of arm run_id w t i = record {
    agent_id = role_value t.role ⧺ "-" ⧺ arm.name ⧺ "-" ⧺ decimal (i % w.agents_per_role);
    run_id = run_id;
    use_memory = arm.use_memory;
    policy = some (policy arm);
    report_reuse = arm.governance;
    feedback_rate = arm.feedback_rate;
    scope_run_id = some run_id;
    memory_limit = none;
  }

  abbrev pub spec_of : Instance → TaskSpec
  spec_of t = record {
    task = t.task;
    task_key = some t.task_key;
    technologies = t.technologies;
    expected_tools = t.expected_tools;
    instance_id = some t.instance_id;
  }

  module _ (engine : Engine F) (ratio : String → String → F.Float) (embed : String → Vector)
      (r : Rounding) (enrichers : Enrichers) (author_prior : Bool) (fold : String → String)
      (complete : Option String → String → String → Option Response) (lower : String → String)
      (procedures : Procedures) (draws : String → F.Float) (env : ℕ → Turn) where
    -- InProcessClient(service=MemoryService(sync_write=True, governance=arm.governance))
    abbrev pub service_of : ArmConfig → Client F System
    service_of arm =
        in_process F engine ratio embed r enrichers
          (record { sync_write = true; governance = arm.governance; author_prior = author_prior })
          fold "inprocess"

    -- One turn of the loop. `i % 0` raises.
    unfoldable pub turn : ArmConfig → String → Workload → RunState → ℕ → Instance → Option RunState
    unfolding build_agent options_of run_task count_outcome in_process
    turn arm run_id w st i t = if w.agents_per_role == 0 then none else (do
      a ← build_agent F (policy arm) t.role (options_of arm run_id w t i)
      let e = env i
      (system, o) ←
          run_task F (service_of arm) complete lower procedures st.system a (spec_of t)
            (draws t.instance_id) e.id e.retrieval_ms e.now
      some (count_outcome st t.task_key system o))

    unfoldable pub turns :
        ArmConfig → String → Workload → RunState → ℕ → List Instance → Option RunState
    unfolding turn
    turns arm run_id w st i [] = some st
    turns arm run_id w st i (t ∷ ts) = elim (turn arm run_id w st i t) [
      | none ↦ none
      | some st' ↦ turns arm run_id w st' (suc i) ts
    ]

    -- The service's state after the run, and the answer; `none` is an exception.
    unfoldable pub run_arm :
        (String → List Task → List Task)
        → List Task
        → System
        → ArmConfig
        → Workload
        → String
        → Option (RunState × ArmResult)
    unfolding instances run_name turns result_of
    run_arm shuffle tasks sys arm w experiment_id = do
      let run_id = run_name experiment_id arm w
      st ← turns arm run_id w (fresh_state sys) 0 (instances shuffle tasks w)
      result ← result_of r run_id st
      some (st, result)
