-- ===== src/Examples/Experiment.antt =====
-- An experiment of two arms and two seeds on one task.
use mathlib.Core.List.{Memᴰ}
use action_cloud.Prelude.{
  ℕ, ◌≡◌, refl, String, string_eq, true, Option, none, some, List, [], ◌∷◌, map, Distinct, All,
}
use action_cloud.Table.{find, replace}
use action_cloud.Schema.{role_value, new_experience}
use action_cloud.Schema.Tags.{validate}
use action_cloud.Judge.{decide}
use action_cloud.Render.{decimal}
use action_cloud.Text.{has_text}
use action_cloud.Benchmark.Verifier.{lenient, strict}
use action_cloud.Store.Search.{common_filters}
use action_cloud.Store.{empty, insert_enriched_experience}
use action_cloud.Agents.{Response}
use action_cloud.Governance.{Reach}
use action_cloud.Metrics.Stored.{Comparison}
use action_cloud.Benchmark.Harness.{
  Workload, Turn, ArmConfig, ArmResult, baseline_arm, actioncloud_arm, run_name,
}
use action_cloud.Benchmark.Experiment.{Progress, runs_of, run_experiment}
use action_cloud.Benchmark.Experiment.Pairing.{run_experiment_balanced}
use action_cloud.Benchmark.Experiment.Histories.{run_experiment-Reach}
use action_cloud.Examples.Rounding.{half_up}
use action_cloud.Examples.Data.{decimals, plain, by_id, ratio}
use action_cloud.Examples.Context.{no_vector}
use action_cloud.Examples.Agents.{model, procedures, same_text}
use action_cloud.Examples.Arms.{tasks, in_order, draws, nothing}

abbrev arms : List (ArmConfig decimals)
arms = baseline_arm decimals ∷ actioncloud_arm decimals ∷ []

abbrev small : Workload
small = record { epochs = 1; agents_per_role = 1; seed = 0; limit = some 1 }

abbrev factory : ℕ → Option String → String → String → Option Response
factory seed = model

abbrev turn_of : ℕ → ℕ → Turn
turn_of n i = record { id = n; retrieval_ms = 1; now = n }

abbrev ended : Option (Progress × List (String × List Comparison))
ended =
    run_experiment decimals by_id ratio no_vector half_up plain true same_text factory same_text
      procedures draws turn_of in_order tasks small "exp" nothing arms (7 ∷ 8 ∷ [])

abbrev or_start :
    Option (Progress × List (String × List Comparison)) → Progress × List (String × List Comparison)
or_start none = (record { system = nothing; per_arm = []; runs = 0 }, [])
or_start (some answer) = answer

abbrev answer : Progress × List (String × List Comparison)
answer = or_start ended

it_ends : ended ≡ some answer
unfolding run_experiment baseline_arm actioncloud_arm validate role_value decimal lenient strict
    has_text find replace insert_enriched_experience new_experience common_filters decide
it_ends = refl

abbrev name_of : ArmConfig decimals → String
name_of arm = arm.name

names_apart : Distinct (map name_of arms)
unfolding baseline_arm actioncloud_arm
names_apart = (refl, (refl, tt))

all_governed : All (λ (arm : ArmConfig decimals). arm.governance ≡ true) arms
unfolding baseline_arm actioncloud_arm
all_governed = (refl, (refl, tt))

run_experiment_balanced_example :
    (xs : List ArmResult) × (runs_of (actioncloud_arm decimals).name answer.0.per_arm ≡ some xs)
    × (map (λ (x : ArmResult). x.run_id) xs
        ≡ map
            (λ (seed : ℕ).
              run_name decimals "exp" (actioncloud_arm decimals) (record small { seed = seed }))
            (7 ∷ 8 ∷ []))
run_experiment_balanced_example =
    run_experiment_balanced decimals by_id ratio no_vector half_up plain true same_text factory
      same_text procedures draws turn_of in_order tasks small "exp" nothing arms (7 ∷ 8 ∷ [])
      answer.0 answer.1 (actioncloud_arm decimals) it_ends names_apart (Memᴰ.tail (Memᴰ.head refl))

run_experiment-Reach_example : Reach half_up empty answer.0.system.store
run_experiment-Reach_example =
    run_experiment-Reach decimals by_id ratio no_vector half_up plain true same_text factory
      same_text procedures draws turn_of in_order tasks small "exp" nothing arms (7 ∷ 8 ∷ [])
      answer.0 answer.1 all_governed it_ends
