-- ===== src/Benchmark/Experiment/Histories.antt =====
-- What an experiment does to the memory.
use action_cloud.Prelude.{
  ℕ, subst, sym, ◌≡◌, String, string_eq, Bool, true, Option, some, List, [], ◌∷◌, arith, All,
}
use action_cloud.Floats.{Floats}
use action_cloud.Judge.{Rounding}
use action_cloud.Store.{Vector}
use action_cloud.Store.Search.{Engine}
use action_cloud.Pipeline.{Enrichers}
use action_cloud.Service.{System}
use action_cloud.Benchmark.Verifier.{Procedures}
use action_cloud.Agents.{Response}
use action_cloud.Benchmark.Harness.{Task, Workload, Turn, RunState, ArmConfig, ArmResult}
use action_cloud.Benchmark.Experiment.{
  Progress, seeded, run_at, run_one, run_arms, run_seeds, started, run_experiment,
}
use action_cloud.Metrics.Stored.{Comparison}
use action_cloud.Governance.{Reach, here}
use action_cloud.Governance.Histories.{Reach-trans}
use action_cloud.Benchmark.Harness.Runs.{run_arm-Reach}
use action_cloud.Benchmark.Experiment.Runs.{
  run_one_inv, run_arms_inv, run_seeds_inv, run_experiment_inv,
}

module _ (F : Floats) (engine : Engine F) (ratio : String → String → F.Float)
    (embed : String → Vector) (r : Rounding) (enrichers : Enrichers) (author_prior : Bool)
    (fold : String → String) (complete : ℕ → Option String → String → String → Option Response)
    (lower : String → String) (procedures : Procedures) (draws : String → F.Float)
    (env : ℕ → ℕ → Turn) (shuffle : String → List Task → List Task) (tasks : List Task)
    (w : Workload) (experiment_id : String) where
  abbrev one : Progress → ℕ → ArmConfig F → Option Progress
  one =
      run_one F engine ratio embed r enrichers author_prior fold complete lower procedures draws env
        shuffle tasks w experiment_id

  abbrev at : System → ℕ → ℕ → ArmConfig F → Option (RunState × ArmResult)
  at =
      run_at F engine ratio embed r enrichers author_prior fold complete lower procedures draws env
        shuffle tasks w experiment_id

  abbrev all_arms : Progress → ℕ → List (ArmConfig F) → Option Progress
  all_arms =
      run_arms F engine ratio embed r enrichers author_prior fold complete lower procedures draws
        env shuffle tasks w experiment_id

  abbrev all_seeds : Progress → List (ArmConfig F) → List ℕ → Option Progress
  all_seeds =
      run_seeds F engine ratio embed r enrichers author_prior fold complete lower procedures draws
        env shuffle tasks w experiment_id

  abbrev AllGoverned : List (ArmConfig F) → Type 0
  AllGoverned arms = All (λ (arm : ArmConfig F). arm.governance ≡ true) arms

  run_one-Reach :
      (p : Progress) (seed : ℕ) (arm : ArmConfig F) (q : Progress)
      → arm.governance ≡ true
      → one p seed arm ≡ some q
      → Reach r p.system.store q.system.store
  unfolding run_at
  run_one-Reach p seed arm q on h =
      let (st, result, ran, _, same) =
        run_one_inv F engine ratio embed r enrichers author_prior fold complete lower procedures
          draws env shuffle tasks w experiment_id p seed arm q h in
      subst (λ (sys : System). Reach r p.system.store sys.store) (sym same)
        (run_arm-Reach F engine ratio embed r enrichers author_prior fold (complete seed) lower
          procedures draws (env p.runs) shuffle tasks p.system arm (seeded w seed) experiment_id st
          result on ran)

  run_arms-Reach :
      (p : Progress) (seed : ℕ) (arms : List (ArmConfig F)) (q : Progress)
      → AllGoverned arms
      → all_arms p seed arms ≡ some q
      → Reach r p.system.store q.system.store
  unfolding run_arms
  run_arms-Reach p seed [] q on h =
      let same : p ≡ q = ground (arith, h) in
      subst (λ (u : Progress). Reach r p.system.store u.system.store) same here
  run_arms-Reach p seed (arm ∷ arms) q (on, rest) h =
      let (p', first, later) =
        run_arms_inv F engine ratio embed r enrichers author_prior fold complete lower procedures
          draws env shuffle tasks w experiment_id p seed arm arms q h in
      Reach-trans (run_one-Reach p seed arm p' on first) (run_arms-Reach p' seed arms q rest later)

  run_seeds-Reach :
      (p : Progress) (arms : List (ArmConfig F)) (seeds : List ℕ) (q : Progress)
      → AllGoverned arms
      → all_seeds p arms seeds ≡ some q
      → Reach r p.system.store q.system.store
  unfolding run_seeds
  run_seeds-Reach p arms [] q on h =
      let same : p ≡ q = ground (arith, h) in
      subst (λ (u : Progress). Reach r p.system.store u.system.store) same here
  run_seeds-Reach p arms (seed ∷ seeds) q on h =
      let (p', first, later) =
        run_seeds_inv F engine ratio embed r enrichers author_prior fold complete lower procedures
          draws env shuffle tasks w experiment_id p arms seed seeds q h in
      Reach-trans (run_arms-Reach p seed arms p' on first)
        (run_seeds-Reach p' arms seeds q on later)

  -- Everything that an experiment of governed arms does to the memory, over all its seeds, is a history
  -- of stores, injections and judged reports: no agent of any run, whatever its model answers, gets past
  -- the judge.
  pub run_experiment-Reach :
      (sys : System) (arms : List (ArmConfig F)) (seeds : List ℕ) (p : Progress)
      (vs_baseline : List (String × List Comparison))
      → All (λ (arm : ArmConfig F). arm.governance ≡ true) arms
      → run_experiment F engine ratio embed r enrichers author_prior fold complete lower procedures
          draws env shuffle tasks w experiment_id sys arms seeds
        ≡ some (p, vs_baseline)
      → Reach r sys.store p.system.store
  unfolding started
  run_experiment-Reach sys arms seeds p vs_baseline on h =
      run_seeds-Reach (started F sys arms) arms seeds p on (
        run_experiment_inv F engine ratio embed r enrichers author_prior fold complete lower
          procedures draws env shuffle tasks w experiment_id sys arms seeds p vs_baseline h)
