-- ===== src/Benchmark/Experiment/Pairing.antt =====
-- Which runs an experiment makes.
use mathlib.Core.List.{Memᴰ}
use action_cloud.Prelude.{
  ℕ, ap, subst, ◌∙◌, ◌≡◌, refl, String, string_eq, Bool, true, false, Option, some, List, [], ◌∷◌,
  ◌++◌, ◌==◌, map, contains, Distinct, arith, append-nil, append_assoc, inl, inr,
}
use action_cloud.Floats.{Floats}
use action_cloud.Judge.{Rounding}
use action_cloud.Store.{Vector}
use action_cloud.Store.Search.{Engine}
use action_cloud.Pipeline.{Enrichers}
use action_cloud.Service.{System}
use action_cloud.Benchmark.Verifier.{Procedures}
use action_cloud.Agents.{Response}
use action_cloud.Benchmark.Harness.{
  Task, Workload, Turn, RunState, ArmConfig, ArmResult, run_name, result_of,
}
use action_cloud.Benchmark.Harness.Counters.{list_cases}
use action_cloud.Benchmark.Harness.Turns.{run_arm-turns}
use action_cloud.Benchmark.Experiment.{
  PerArm, runs_of, Progress, seeded, run_at, run_one, run_arms, run_seeds, started, run_experiment,
}
use action_cloud.Metrics.Stored.{Comparison}
use action_cloud.Benchmark.Experiment.Records.{
  map-snoc, record_run_own, record_run_other, runs_of-open_arms,
}
use action_cloud.Benchmark.Experiment.Runs.{
  run_one_inv, run_arms_inv, run_seeds_inv, run_experiment_inv,
}

result_of_named :
    (r : Rounding) (run_id : String) (st : RunState) (result : ArmResult)
    → result_of r run_id st ≡ some result
    → result.run_id ≡ run_id
unfolding result_of
result_of_named r run_id st result h = elim (list_cases st.outcomes) [
  | inl e ↦ absurd (ground (arith, e))
  | inr (o, os, e) ↦ ground (arith, e, h)
]

names_apart :
    (F : Floats) (arms : List (ArmConfig F)) (name : String) (arm : ArmConfig F)
    → contains (map (λ (a : ArmConfig F). a.name) arms) name ≡ false
    → Memᴰ arm arms
    → (name == arm.name) ≡ false
names_apart F [] name arm h there = elim there [ ]
names_apart F (a ∷ arms) name arm h (Memᴰ.head same) =
    let there = ap (λ (b : ArmConfig F). b.name) same in
    ground (arith, h, there, string_eq.same_iff name arm.name, string_eq.same_iff a.name name)
names_apart F (a ∷ arms) name arm h (Memᴰ.tail there) =
    names_apart F arms name arm (ground (arith, h)) there

names-Memᴰ :
    (F : Floats) (arms : List (ArmConfig F)) (arm : ArmConfig F)
    → Memᴰ arm arms
    → contains (map (λ (a : ArmConfig F). a.name) arms) arm.name ≡ true
names-Memᴰ F [] arm there = elim there [ ]
names-Memᴰ F (a ∷ arms) arm (Memᴰ.head same) =
    let there = ap (λ (b : ArmConfig F). b.name) same in
    ground (arith, there, string_eq.same_iff a.name arm.name)
names-Memᴰ F (a ∷ arms) arm (Memᴰ.tail there) = ground (arith, names-Memᴰ F arms arm there)

module _ (F : Floats) (engine : Engine F) (ratio : String → String → F.Float)
    (embed : String → Vector) (r : Rounding) (enrichers : Enrichers) (author_prior : Bool)
    (fold : String → String) (complete : ℕ → Option String → String → String → Option Response)
    (lower : String → String) (procedures : Procedures) (draws : String → F.Float)
    (env : ℕ → ℕ → Turn) (shuffle : String → List Task → List Task) (tasks : List Task)
    (w : Workload) (experiment_id : String) where
  abbrev name_of : ArmConfig F → String
  name_of arm = arm.name

  -- The run of an arm for a seed.
  abbrev pub run_for : ArmConfig F → ℕ → String
  run_for arm seed = run_name F experiment_id arm (record w { seed = seed })

  -- The runs that are on record for an arm.
  abbrev pub HasRuns : String → PerArm → List String → Type 0
  HasRuns name p ids =
      (xs : List ArmResult) × (runs_of name p ≡ some xs)
      × (map (λ (x : ArmResult). x.run_id) xs ≡ ids)

  abbrev one : Progress → ℕ → ArmConfig F → Option Progress
  one =
      run_one F engine ratio embed r enrichers author_prior fold complete lower procedures draws env
        shuffle tasks w experiment_id

  abbrev at : System → ℕ → ℕ → ArmConfig F → Option (RunState × ArmResult)
  at =
      run_at F engine ratio embed r enrichers author_prior fold complete lower procedures draws env
        shuffle tasks w experiment_id

  abbrev all_arms : Progress → ℕ → List (ArmConfig F) → Option Progress
  all_arms =
      run_arms F engine ratio embed r enrichers author_prior fold complete lower procedures draws
        env shuffle tasks w experiment_id

  abbrev all_seeds : Progress → List (ArmConfig F) → List ℕ → Option Progress
  all_seeds =
      run_seeds F engine ratio embed r enrichers author_prior fold complete lower procedures draws
        env shuffle tasks w experiment_id

  run_at_named :
      (sys : System) (n seed : ℕ) (arm : ArmConfig F) (st : RunState) (result : ArmResult)
      → at sys n seed arm ≡ some (st, result)
      → result.run_id ≡ run_for arm seed
  unfolding run_at
  run_at_named sys n seed arm st result h =
      result_of_named r (run_for arm seed) st result
        (run_arm-turns F engine ratio embed r enrichers author_prior fold (complete seed) lower
          procedures draws (env n) shuffle tasks sys arm (seeded w seed) experiment_id st result
          h).1

  run_one_own :
      (p : Progress) (seed : ℕ) (arm : ArmConfig F) (q : Progress) (ids : List String)
      → one p seed arm ≡ some q
      → HasRuns arm.name p.per_arm ids
      → HasRuns arm.name q.per_arm (ids ++ run_for arm seed ∷ [])
  run_one_own p seed arm q ids h (xs, found, same) =
      let (st, result, ran, recorded, _) =
        run_one_inv F engine ratio embed r enrichers author_prior fold complete lower procedures
          draws env shuffle tasks w experiment_id p seed arm q h in
      let named = run_at_named p.system p.runs seed arm st result ran in
      (
        xs ++ result ∷ [],
        record_run_own arm.name result p.per_arm q.per_arm xs recorded found,
        map-snoc (λ (x : ArmResult). x.run_id) xs result ∙ rw (same, named) refl,
      )

  run_one_other :
      (p : Progress) (seed : ℕ) (arm : ArmConfig F) (q : Progress) (name : String)
      (ids : List String)
      → one p seed arm ≡ some q
      → (arm.name == name) ≡ false
      → HasRuns name p.per_arm ids
      → HasRuns name q.per_arm ids
  run_one_other p seed arm q name ids h apart (xs, found, same) =
      let (st, result, ran, recorded, _) =
        run_one_inv F engine ratio embed r enrichers author_prior fold complete lower procedures
          draws env shuffle tasks w experiment_id p seed arm q h in
      (xs, record_run_other arm.name name result p.per_arm q.per_arm recorded apart ∙ found, same)

  run_arms_other :
      (p : Progress) (seed : ℕ) (arms : List (ArmConfig F)) (q : Progress) (name : String)
      (ids : List String)
      → all_arms p seed arms ≡ some q
      → contains (map name_of arms) name ≡ false
      → HasRuns name p.per_arm ids
      → HasRuns name q.per_arm ids
  unfolding run_arms
  run_arms_other p seed [] q name ids h apart runs =
      let same : p ≡ q = ground (arith, h) in
      subst (λ (u : Progress). HasRuns name u.per_arm ids) same runs
  run_arms_other p seed (arm ∷ arms) q name ids h apart runs =
      let (p', first, rest) =
        run_arms_inv F engine ratio embed r enrichers author_prior fold complete lower procedures
          draws env shuffle tasks w experiment_id p seed arm arms q h in
      run_arms_other p' seed arms q name ids rest (ground (arith, apart))
        (run_one_other p seed arm p' name ids first (ground (arith, apart)) runs)

  run_arms_own :
      (p : Progress) (seed : ℕ) (arms : List (ArmConfig F)) (q : Progress) (arm : ArmConfig F)
      (ids : List String)
      → all_arms p seed arms ≡ some q
      → Distinct (map name_of arms)
      → Memᴰ arm arms
      → HasRuns arm.name p.per_arm ids
      → HasRuns arm.name q.per_arm (ids ++ run_for arm seed ∷ [])
  run_arms_own p seed [] q arm ids h apart there runs = elim there [ ]
  run_arms_own p seed (a ∷ arms) q arm ids h (apart, rest) (Memᴰ.head same) runs =
      let (p', first, later) =
        run_arms_inv F engine ratio embed r enrichers author_prior fold complete lower procedures
          draws env shuffle tasks w experiment_id p seed a arms q h in
      run_arms_other p' seed arms q arm.name (ids ++ run_for arm seed ∷ []) later
        (ap (λ (b : ArmConfig F). contains (map name_of arms) b.name) same ∙ apart)
        (run_one_own p seed arm p' ids (ap (one p seed) same ∙ first) runs)
  run_arms_own p seed (a ∷ arms) q arm ids h (apart, rest) (Memᴰ.tail there) runs =
      let (p', first, later) =
        run_arms_inv F engine ratio embed r enrichers author_prior fold complete lower procedures
          draws env shuffle tasks w experiment_id p seed a arms q h in
      run_arms_own p' seed arms q arm ids later rest there (
        run_one_other p seed a p' arm.name ids first (names_apart F arms a.name arm apart there)
          runs)

  run_seeds_own :
      (p : Progress) (arms : List (ArmConfig F)) (seeds : List ℕ) (q : Progress) (arm : ArmConfig F)
      (ids : List String)
      → all_seeds p arms seeds ≡ some q
      → Distinct (map name_of arms)
      → Memᴰ arm arms
      → HasRuns arm.name p.per_arm ids
      → HasRuns arm.name q.per_arm (ids ++ map (run_for arm) seeds)
  unfolding run_seeds
  run_seeds_own p arms [] q arm ids h apart there runs =
      let same : p ≡ q = ground (arith, h) in
      subst (λ (u : Progress). HasRuns arm.name u.per_arm (ids ++ [])) same (rw append-nil runs)
  run_seeds_own p arms (seed ∷ seeds) q arm ids h apart there runs =
      let (p', first, later) =
        run_seeds_inv F engine ratio embed r enrichers author_prior fold complete lower procedures
          draws env shuffle tasks w experiment_id p arms seed seeds q h in
      subst (HasRuns arm.name q.per_arm)
        (append_assoc ids (run_for arm seed ∷ []) (map (run_for arm) seeds))
        (run_seeds_own p' arms seeds q arm (ids ++ run_for arm seed ∷ []) later apart there
          (run_arms_own p seed arms p' arm ids first apart there runs))

  -- An experiment is balanced, so that its comparisons are of runs with the same seed: in an experiment
  -- that ends, with arms of different names, each arm has one run for each seed, in the order of the
  -- seeds, and no other.
  pub run_experiment_balanced :
      (sys : System) (arms : List (ArmConfig F)) (seeds : List ℕ) (p : Progress)
      (vs_baseline : List (String × List Comparison)) (arm : ArmConfig F)
      → run_experiment F engine ratio embed r enrichers author_prior fold complete lower procedures
          draws env shuffle tasks w experiment_id sys arms seeds
        ≡ some (p, vs_baseline)
      → Distinct (map name_of arms)
      → Memᴰ arm arms
      → (xs : List ArmResult) × (runs_of arm.name p.per_arm ≡ some xs)
        × (map (λ (x : ArmResult). x.run_id) xs ≡ map (run_for arm) seeds)
  unfolding started
  run_experiment_balanced sys arms seeds p vs_baseline arm h apart there =
      run_seeds_own (started F sys arms) arms seeds p arm []
        (run_experiment_inv F engine ratio embed r enrichers author_prior fold complete lower
          procedures draws env shuffle tasks w experiment_id sys arms seeds p vs_baseline h)
        apart there
        ([], runs_of-open_arms arm.name (map name_of arms) (names-Memᴰ F arms arm there), refl)
