-- ===== src/Benchmark/Experiment.antt =====
-- src/actioncloud/benchmark/harness.py: run_experiment, which runs every arm once for every seed and
-- compares the arms with the baseline, seed by seed. `complete` is the model that the factory makes for
-- a seed, `env n` what the environment gives to the run with number n.
pub mod Records
pub mod Runs
pub mod Pairing
pub mod Histories
use action_cloud.Prelude.{
  ℕ, suc, String, string_eq, Bool, not, Option, none, some, List, [], ◌∷◌, ◌++◌, ◌==◌,
  if◌then◌else◌, map, filter,
}
use action_cloud.Floats.{Floats}
use action_cloud.Judge.{Rounding}
use action_cloud.Store.{Vector}
use action_cloud.Store.Search.{Engine}
use action_cloud.Pipeline.{Enrichers}
use action_cloud.Service.{System}
use action_cloud.Client.{◌>>=◌}
use action_cloud.Benchmark.Verifier.{Procedures}
use action_cloud.Agents.{Response}
use action_cloud.Metrics.Stored.{Comparison, compare}
use action_cloud.Benchmark.Harness.{Task, Workload, Turn, RunState, ArmConfig, ArmResult, run_arm}

-- The dict per_arm, in the order of its keys.
abbrev pub PerArm : Type 0
PerArm = List (String × List ArmResult)

-- {a.name: [] for a in arms}
unfoldable pub open_arms : List String → PerArm
open_arms [] = []
open_arms (name ∷ names) =
    (name, []) ∷ filter (λ ((m, _) : String × List ArmResult). not (m == name)) (open_arms names)

-- per_arm[name]; `none` is a KeyError.
unfoldable pub runs_of : String → PerArm → Option (List ArmResult)
runs_of name [] = none
runs_of name ((m, runs) ∷ rest) =
    let later = runs_of name rest in if m == name then some runs else later

-- per_arm[name].append(result)
unfoldable pub record_run : String → ArmResult → PerArm → Option PerArm
record_run name result [] = none
record_run name result ((m, runs) ∷ rest) =
    let later = record_run name result rest in
    if m == name
    then some ((m, runs ++ result ∷ []) ∷ rest)
    else (elim later [ none ↦ none | some p ↦ some ((m, runs) ∷ p) ])

-- compare(b["metrics"], r["metrics"]) over zip(per_arm["baseline"], runs)
unfoldable pub deltas : Rounding → List ArmResult → List ArmResult → List Comparison
unfolding compare
deltas r [] runs = []
deltas r (b ∷ bs) [] = []
deltas r (b ∷ bs) (x ∷ xs) = compare r b.metrics x.metrics ∷ deltas r bs xs

-- The comparisons of the arms; `deltas[0]` of no run raises.
unfoldable pub arm_comparisons :
    Rounding → List ArmResult → PerArm → Option (List (String × List Comparison))
unfolding deltas
arm_comparisons r base [] = some []
arm_comparisons r base ((name, runs) ∷ rest) =
    let later = arm_comparisons r base rest in
    if name == "baseline" then later else (elim (deltas r base runs) [
      | [] ↦ none
      | d ∷ ds ↦ elim later [ none ↦ none | some cs ↦ some ((name, d ∷ ds) ∷ cs) ]
    ])

unfoldable pub comparisons : Rounding → PerArm → Option (List (String × List Comparison))
unfolding runs_of arm_comparisons
comparisons r per_arm = elim (runs_of "baseline" per_arm) [
  | none ↦ some []
  | some base ↦ arm_comparisons r base per_arm
]

-- The variables of the loops, with the service's state and the number of the runs so far.
pub record Progress : Type 0 where
  pub system : System
  pub per_arm : PerArm
  pub runs : ℕ

-- Workload(workload.epochs, workload.agents_per_role, seed, workload.limit)
abbrev pub seeded : Workload → ℕ → Workload
seeded w seed = record w { seed = seed }

unfoldable pub started : (F : Floats) → System → List (ArmConfig F) → Progress
unfolding open_arms
started F sys arms = record {
  system = sys;
  per_arm = open_arms (map (λ (arm : ArmConfig F). arm.name) arms);
  runs = 0;
}

module _ (F : Floats) (engine : Engine F) (ratio : String → String → F.Float)
    (embed : String → Vector) (r : Rounding) (enrichers : Enrichers) (author_prior : Bool)
    (fold : String → String) (complete : ℕ → Option String → String → String → Option Response)
    (lower : String → String) (procedures : Procedures) (draws : String → F.Float)
    (env : ℕ → ℕ → Turn) (shuffle : String → List Task → List Task) (tasks : List Task)
    (w : Workload) (experiment_id : String) where
  abbrev pub run_at : System → ℕ → ℕ → ArmConfig F → Option (RunState × ArmResult)
  unfolding run_arm
  run_at sys n seed arm =
      run_arm F engine ratio embed r enrichers author_prior fold (complete seed) lower procedures
        draws (env n) shuffle tasks sys arm (seeded w seed) experiment_id

  -- per_arm[arm.name].append(run_arm(arm, wl, llm_factory, experiment_id, progress))
  unfoldable pub run_one : Progress → ℕ → ArmConfig F → Option Progress
  unfolding run_at record_run
  run_one p seed arm = do
    (st, result) ← run_at p.system p.runs seed arm
    per_arm ← record_run arm.name result p.per_arm
    some (record { system = st.system; per_arm = per_arm; runs = suc (p.runs) })

  unfoldable pub run_arms : Progress → ℕ → List (ArmConfig F) → Option Progress
  unfolding run_one
  run_arms p seed [] = some p
  run_arms p seed (arm ∷ arms) = elim (run_one p seed arm) [
    | none ↦ none
    | some q ↦ run_arms q seed arms
  ]

  unfoldable pub run_seeds : Progress → List (ArmConfig F) → List ℕ → Option Progress
  unfolding run_arms
  run_seeds p arms [] = some p
  run_seeds p arms (seed ∷ seeds) = elim (run_arms p seed arms) [
    | none ↦ none
    | some q ↦ run_seeds q arms seeds
  ]

  -- The runs of the arms and the comparisons with the baseline.
  unfoldable pub run_experiment :
      System → List (ArmConfig F) → List ℕ → Option (Progress × List (String × List Comparison))
  unfolding started run_seeds comparisons
  run_experiment sys arms seeds = do
    p ← run_seeds (started F sys arms) arms seeds
    vs_baseline ← comparisons r p.per_arm
    some (p, vs_baseline)
