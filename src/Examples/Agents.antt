-- ===== src/Examples/Agents.antt =====
-- A coding agent with memory, one without, and a model that always gives the same answer.
use action_cloud.Table.{find}
use action_cloud.Store.{insert_enriched_experience}
use action_cloud.Pipeline.{process_experience}
use action_cloud.Prelude.{
  ◌≡◌, ◌⊎◌, ◌↔◌, ◌≤◌, length, filter, not, refl, String, string_eq, true, false, Option, none, some,
  All, List, [], ◌∷◌,
}
use action_cloud.Render.{Renders}
use action_cloud.Store.{Row}
use action_cloud.Schema.{coding, truthy}
use action_cloud.Service.{System, Options}
use action_cloud.Client.{Client, in_process}
use action_cloud.Governance.{Reach}
use action_cloud.Benchmark.Verifier.{
  Criterion, Procedures, Verdict, procedure, meets, strict, lenient, verify, verify_verdicts,
}
use action_cloud.Agents.{TaskSpec, Response, TaskOutcome, Agent, run_task}
use action_cloud.Agents.Roles.{
  AgentClass, AgentOptions, role_registry, init, build_agent, build_agent_role,
}
use action_cloud.Agents.Governed.{run_task-Reach}
use action_cloud.Agents.Isolation.{alone, IsReadable, run_task-alone, run_task_scoped}
use action_cloud.Agents.Totality.{run_task_total}
use action_cloud.Examples.Rounding.{half_up}
use action_cloud.Examples.Data.{decimals, plain, by_id, ratio, stored}
use action_cloud.Examples.Context.{policy, no_vector}

abbrev pub answer : Response
answer = record {
  text = "step: renew with the new root";
  tokens_input = 5;
  tokens_output = 7;
  latency_ms = 11;
  cost_usd = 2;
  mode = "";
}

abbrev pub model : Option String → String → String → Option Response
model seed prompt system = some answer

pub model_answers :
    (seed : Option String) (prompt system : String)
    → (response : Response) × (model seed prompt system ≡ some response)
      × (truthy response.text ≡ true)
model_answers seed prompt system = (answer, refl, refl)

abbrev criteria : List Criterion
criteria =
    record { step = "renew"; any_of = "renew" ∷ "issue" ∷ [] }
    ∷ record { step = "reload"; any_of = "reload" ∷ [] }
    ∷ []

abbrev pub procedures : Procedures
procedures = ("certs", criteria) ∷ []

abbrev pub same_text : String → String
same_text s = s

procedure_found : procedure procedures "certs" ≡ some criteria
unfolding procedure
procedure_found = refl

verify_verdicts_example :
    (v : Verdict) × (verify same_text procedures "certs" answer.text ≡ some v)
    × ((strict v ≡ true) ↔ ((1 ≤ 2) × All (λ c. meets answer.text c ≡ true) criteria))
    × ((lenient v ≡ true)
        ↔ ((1 ≤ 2) × (length (filter (λ c. not (meets answer.text c)) criteria) ≤ 1)))
    × ((lenient v ≡ true) ⊎ (strict v ≡ false))
verify_verdicts_example =
    verify_verdicts same_text procedures "certs" answer.text criteria procedure_found

abbrev pub sync : Options
sync = record { sync_write = true; governance = true; author_prior = true }

abbrev pub bob : Agent decimals
bob = record {
  agent_id = "bob";
  role = coding;
  system_prompt = "You are a coding agent.";
  run_id = "r1";
  use_memory = true;
  policy = policy;
  report_reuse = true;
  feedback_rate = 7000;
  scope_run_id = some "r1";
}

abbrev pub spec : TaskSpec
spec = record {
  task = "rotate the certificates again";
  task_key = some "certs";
  technologies = "tls" ∷ [];
  expected_tools = [];
  instance_id = some "1:0";
}

abbrev pub system : System
system = record { store = stored; queue = [] }

abbrev client : Client decimals System
client = in_process decimals by_id ratio no_vector half_up plain sync same_text "inprocess"

abbrev TaskOf : Agent decimals → Type 0
TaskOf a =
    (t : System) × (o : TaskOutcome) × (run_task decimals client model same_text procedures system a
        spec 100 9 4 5
      ≡ some (t, o))

all_render : All (λ (row : Row). Renders row.workflow) system.store.experiences
unfolding process_experience insert_enriched_experience find
all_render = (tt, tt)

run_task_total_example : TaskOf bob
run_task_total_example =
    run_task_total decimals by_id ratio no_vector half_up plain sync same_text "inprocess" refl
      (λ exp. refl) model same_text procedures system bob spec 100 9 4 5 refl refl all_render
      model_answers

-- Bob's task with memory, and without.
abbrev baseline_bob : Agent decimals
baseline_bob = record bob { use_memory = false }

abbrev task_of : (a : Agent decimals) → truthy a.agent_id ≡ true → TaskOf a
task_of a named =
    run_task_total decimals by_id ratio no_vector half_up plain sync same_text "inprocess" refl
      (λ exp. refl) model same_text procedures system a spec 100 9 4 5 named refl all_render
      model_answers

run_task-Reach_example : Reach half_up stored (task_of bob refl).0.store
run_task-Reach_example =
    run_task-Reach decimals by_id ratio no_vector half_up plain sync same_text "inprocess" refl refl
      model same_text procedures system (task_of bob refl).0 bob spec 100 9 4 5 (task_of bob refl).1
      (task_of bob refl).2

run_task_scoped_example :
    All
      (IsReadable decimals by_id ratio no_vector half_up plain sync same_text "inprocess" stored bob
        "r1")
      (task_of bob refl).1.retrieved_ids
run_task_scoped_example =
    run_task_scoped decimals by_id ratio no_vector half_up plain sync same_text "inprocess" model
      same_text procedures system (task_of bob refl).0 bob "r1" spec 100 9 4 5 (task_of bob refl).1
      refl (task_of bob refl).2

run_task-alone_example :
    alone decimals model same_text procedures baseline_bob spec 4
      (task_of baseline_bob refl).1.experience_id
    ≡ some ((task_of baseline_bob refl).1)
run_task-alone_example =
    run_task-alone decimals model same_text procedures client system (task_of baseline_bob refl).0
      baseline_bob spec 100 9 4 5 (task_of baseline_bob refl).1 refl (task_of baseline_bob refl).2

abbrev options : AgentOptions decimals
options = record {
  agent_id = "coding-baseline-0";
  run_id = "r1";
  use_memory = false;
  policy = none;
  report_reuse = true;
  feedback_rate = 7000;
  scope_run_id = none;
  memory_limit = some 2;
}

build_agent_role_example :
    (c : AgentClass) × (role_registry coding ≡ some c)
    × (build_agent decimals policy coding options ≡ some (init decimals policy c options))
    × ((init decimals policy c options).role ≡ coding)
build_agent_role_example = build_agent_role decimals policy coding options
