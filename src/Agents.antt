-- ===== src/Agents.antt =====
-- src/actioncloud/agents: an agent's run of one task against a client, a model and the grader, and the
-- agents of the roles. The model is a function of the instance that seeds it, the prompt and the system
-- prompt; `none` is an exception. `draw` is the seeded random number of a task, `lower` is str.lower.
pub mod Roles
pub mod Steps
pub mod Governed
pub mod Isolation
pub mod Calls
pub mod Totality
use Prim.Native.String.{◌++◌ as str_append}
use action_cloud.Prelude.{
  ℕ, ◌+◌, String, string_eq, Bool, true, false, not, ◌&&◌, Option, none, some, List, [], ◌∷◌,
  if◌then◌else◌, any, contains, length, ◌==◌,
}
use action_cloud.Floats.{Floats}
use action_cloud.Schema.{
  AgentRole, SystemCondition, baseline, actioncloud, ExperienceCreate, truthy, truthy?,
}
use action_cloud.Builder.{MemorySelectionPolicy}
use action_cloud.Text.{first_chars}
use action_cloud.Benchmark.Verifier.{Procedures, Verdict, strict, lenient, verify}
use action_cloud.Client.{ContextReply, no_context, Client, ◌>>=◌}

pub record TaskSpec : Type 0 where
  pub task : String
  pub task_key : Option String
  pub technologies : List String
  pub expected_tools : List String
  pub instance_id : Option String

-- LLMResponse, with the mode that the simulated model leaves in last_mode.
pub record Response : Type 0 where
  pub text : String
  pub tokens_input : ℕ
  pub tokens_output : ℕ
  pub latency_ms : ℕ
  pub cost_usd : ℕ
  pub mode : String

pub record TaskOutcome : Type 0 where
  pub task : String
  pub task_key : Option String
  pub success : Bool
  pub self_check_success : Bool
  pub result : String
  pub tokens_input : ℕ
  pub tokens_output : ℕ
  pub execution_time_ms : ℕ
  pub cost_usd : ℕ
  pub tool_calls : ℕ
  pub retrieved_ids : List ℕ
  pub injected_task_keys : List (Option String)
  pub context_tokens : ℕ
  pub candidate_count : ℕ
  pub mode : String
  pub experience_id : ℕ

unfoldable pub relevant_injection : TaskOutcome → Bool
relevant_injection o = elim o.task_key [
  | none ↦ false
  | some key ↦ any (λ k. elim k [ none ↦ false | some j ↦ j == key ]) o.injected_task_keys
]

abbrev pub answer_format : String
answer_format =
    "Answer with the concrete procedure you would follow, one step per line, each line starting with 'STEP:'."

-- "Completed" if self_check else "Did not complete"
abbrev pub result_of : Bool → String
result_of true = "Completed"
result_of false = "Did not complete"

abbrev pub when {ℓ} : {A : Type ℓ} → Bool → A → Option A
when true a = some a
when false a = none

unfoldable pub build_prompt : String → String → String
build_prompt task context =
    let own = str_append "## Your task\n" task in
    if truthy context then str_append context (str_append "\n\n" own) else own

-- (success, self_check): a task with no procedure counts as done.
unfoldable pub verdict_of : (String → String) → Procedures → Option String → String → Bool × Bool
unfolding verify
verdict_of lower ps none text = (true, true)
verdict_of lower ps (some key) text =
    let verdict : Option Verdict = if truthy key then verify lower ps key text else none in
    elim verdict [ none ↦ (true, true) | some v ↦ (strict v, lenient v) ]

unfoldable pub outcome_of : TaskSpec → ContextReply → Response → Bool → Bool → ℕ → ℕ → TaskOutcome
unfolding first_chars
outcome_of spec ctx response success self_check execution_time_ms experience_id = record {
  task = spec.task;
  task_key = spec.task_key;
  success = success;
  self_check_success = self_check;
  result = first_chars 2000 response.text;
  tokens_input = response.tokens_input;
  tokens_output = response.tokens_output;
  execution_time_ms = execution_time_ms;
  cost_usd = response.cost_usd;
  tool_calls = length spec.expected_tools;
  retrieved_ids = ctx.injected_experience_ids;
  injected_task_keys = ctx.injected_task_keys;
  context_tokens = ctx.context_tokens;
  candidate_count = ctx.candidate_count;
  mode = response.mode;
  experience_id = experience_id;
}

module _ (F : Floats) where
  pub record Agent : Type 0 where
    pub agent_id : String
    pub role : AgentRole
    pub system_prompt : String
    pub run_id : String
    pub use_memory : Bool
    pub policy : MemorySelectionPolicy F
    pub report_reuse : Bool
    pub feedback_rate : F.Float
    pub scope_run_id : Option String

  unfoldable pub condition : Agent → SystemCondition
  condition a = if a.use_memory then actioncloud else baseline

  -- _feedback_observed
  unfoldable pub feedback_observed : Agent → F.Float → Bool
  feedback_observed a draw =
      if F.le (F.of_ten_thousandths 10000) a.feedback_rate
      then true
      else not (F.le a.feedback_rate draw)

  -- The experience that the agent contributes: its own judgement is the lenient one.
  unfoldable pub contribution :
      Agent → TaskSpec → ContextReply → Response → Bool → ℕ → ExperienceCreate
  unfolding condition
  contribution a spec ctx response self_check execution_time_ms = record {
    agent_id = a.agent_id;
    agent_role = a.role;
    task = spec.task;
    problem = none;
    action = response.text;
    solution = when self_check response.text;
    result = result_of self_check;
    tools_used = spec.expected_tools;
    technologies = spec.technologies;
    success = self_check;
    tokens_input = response.tokens_input;
    tokens_output = response.tokens_output;
    tool_calls = length spec.expected_tools;
    execution_time_ms = execution_time_ms;
    cost_usd = response.cost_usd;
    run_id = a.run_id;
    system = condition a;
    task_key = spec.task_key;
    retrieved_experience_ids = ctx.injected_experience_ids;
  }

  -- The answer of the model to the task, seeded by its instance.
  unfoldable pub solve :
      (Option String → String → String → Option Response)
      → Agent
      → TaskSpec
      → ContextReply
      → Option Response
  unfolding build_prompt
  solve complete a spec ctx =
      complete (if truthy? spec.instance_id then spec.instance_id else none)
        (build_prompt spec.task ctx.context)
        (str_append a.system_prompt (str_append "\n" answer_format))

  module _ {State : Type 0} (client : Client F State) where
    -- for exp_id in injected: client.report_reuse(exp_id, success=success, agent_id=self.agent_id)
    unfoldable pub report_all : State → List ℕ → Bool → String → ℕ → Option State
    report_all s [] success agent_id now = some s
    report_all s (id ∷ ids) success agent_id now =
        elim (client.report_reuse s id success agent_id now) [
          | none ↦ none
          | some t ↦ report_all t ids success agent_id now
        ]

    -- The governance feedback on what was injected, and on the agent's own false success.
    unfoldable pub give_feedback :
        State → Agent → Bool → List ℕ → Bool → Bool → ℕ → ℕ → Option State
    unfolding report_all
    give_feedback s a observed injected success self_check experience_id now =
        if a.report_reuse && observed
        then (do
          t ← report_all s injected success a.agent_id now
          if not success && self_check
              then client.report_reuse t experience_id false a.agent_id now
              else some t)
        else some s

    unfoldable pub retrieve : State → Agent → TaskSpec → ℕ → Option (State × ContextReply)
    retrieve s a spec now =
        if a.use_memory
        then client.context s spec.task a.agent_id a.role spec.technologies a.policy a.scope_run_id
            now
        else some (s, no_context)

    module _ (complete : Option String → String → String → Option Response)
        (lower : String → String) (procedures : Procedures) where
      -- Retrieve, solve, verify, store, report. `id` is the fresh id of the new experience, and
      -- `retrieval_ms` the time that the retrieval took.
      unfoldable pub run_task :
          State → Agent → TaskSpec → F.Float → ℕ → ℕ → ℕ → Option (State × TaskOutcome)
      unfolding retrieve solve verdict_of contribution outcome_of feedback_observed give_feedback
      run_task s a spec draw id retrieval_ms now = do
        (t, ctx) ← retrieve s a spec now
        response ← solve complete a spec ctx
        let (success, self_check) = verdict_of lower procedures spec.task_key response.text
        let took = retrieval_ms + response.latency_ms
        (u, experience_id) ←
            client.store t (contribution a spec ctx response self_check took) id now
        v ←
            give_feedback u a (feedback_observed a draw) ctx.injected_experience_ids success
              self_check experience_id now
        some (v, outcome_of spec ctx response success self_check took experience_id)
