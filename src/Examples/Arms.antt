-- ===== src/Examples/Arms.antt =====
-- A workload of two tasks in two epochs, run by the arms with memory and without.
use action_cloud.Judge.{decide}
use action_cloud.Table.{replace}
use action_cloud.Schema.{new_experience}
use action_cloud.Store.{insert_enriched_experience}
use action_cloud.Table.{find}
use action_cloud.Benchmark.Verifier.{strict}
use action_cloud.Text.{has_text}
use action_cloud.Benchmark.Verifier.{lenient}
use action_cloud.Schema.{role_value}
use action_cloud.Schema.Tags.{validate}
use action_cloud.Prelude.{
  ℕ, ◌≡◌, ◌⊎◌, ◌==◌, string_eq, refl, String, Bool, true, none, some, List, [], ◌∷◌,
}
use action_cloud.Schema.{coding, testing}
use action_cloud.Store.{empty}
use action_cloud.Service.{System}
use action_cloud.Metrics.{compute_metrics}
use action_cloud.Prelude.{Option}
use action_cloud.Benchmark.Harness.{
  fresh_state, Task, Workload, Turn, RunState, ArmResult, baseline_arm, run_arm,
}
use action_cloud.Benchmark.Harness.Runs.{run_arm_baseline}
use action_cloud.Examples.Rounding.{half_up}
use action_cloud.Examples.Data.{decimals, plain, by_id, ratio}
use action_cloud.Examples.Context.{no_vector}
use action_cloud.Examples.Agents.{model, procedures, same_text}

abbrev certs : Task
certs = record {
  id = 1;
  role = coding;
  task = "rotate the certificates";
  task_key = "certs";
  technologies = "tls" ∷ [];
  expected_tools = [];
}

abbrev probes : Task
probes = record {
  id = 2;
  role = testing;
  task = "probe the certificates";
  task_key = "certs";
  technologies = "tls" ∷ [];
  expected_tools = [];
}

abbrev pub tasks : List Task
tasks = certs ∷ probes ∷ []

abbrev pub in_order : String → List Task → List Task
in_order seed ts = ts

abbrev workload : Workload
workload = record { epochs = 2; agents_per_role = 3; seed = 7; limit = none }

abbrev turn_at : ℕ → Turn
turn_at i = record { id = i; retrieval_ms = 1; now = i }

abbrev pub draws : String → ℕ
draws seed = 500

abbrev pub nothing : System
nothing = record { store = empty; queue = [] }

abbrev is_certs : Task → Bool
is_certs t = t.task_key == "certs"

abbrev ended : Option (RunState × ArmResult)
ended =
    run_arm decimals by_id ratio no_vector half_up plain true same_text model same_text procedures
      draws turn_at in_order tasks nothing (baseline_arm decimals) workload "exp"

abbrev or_start : Option (RunState × ArmResult) → RunState × Option ArmResult
or_start none = (fresh_state nothing, none)
or_start (some (st, result)) = (st, some result)

abbrev no_result : ArmResult
no_result = record {
  run_id = "";
  metrics = compute_metrics half_up [];
  poisoned_injection_pct = 0;
  false_positive_memories = 0;
  avg_context_tokens = 0;
  tiers = ([], 0);
}

abbrev result_or : Option ArmResult → ArmResult
result_or none = no_result
result_or (some result) = result

abbrev final : RunState
final = (or_start ended).0

abbrev result : ArmResult
result = result_or (or_start ended).1

it_ends : ended ≡ some (final, result)
unfolding run_arm baseline_arm validate role_value lenient has_text strict find
    insert_enriched_experience new_experience replace decide
it_ends = refl

run_arm_baseline_example :
    (result.poisoned_injection_pct ≡ 0)
    × (result.avg_context_tokens ≡ 0)
    × ((result.metrics.repeat_tasks ≡ 0) ⊎ (result.metrics.redundancy_index ≡ 10000))
unfolding baseline_arm
run_arm_baseline_example =
    run_arm_baseline decimals by_id ratio no_vector half_up plain true same_text model same_text
      procedures draws turn_at in_order tasks nothing (baseline_arm decimals) workload "exp" final
      result refl it_ends
