-- ===== src/Benchmark/Experiment/Runs.antt =====
-- The loops of an experiment taken apart: each run, each round of the arms, each seed.
use action_cloud.Prelude.{
  ℕ, suc, ap, sym, ◌∙◌, ◌≡◌, String, string_eq, Bool, Option, some, List, ◌∷◌, arith, Option-cases,
  inl, inr,
}
use action_cloud.Floats.{Floats}
use action_cloud.Judge.{Rounding}
use action_cloud.Store.{Vector}
use action_cloud.Store.Search.{Engine}
use action_cloud.Pipeline.{Enrichers}
use action_cloud.Service.{System}
use action_cloud.Benchmark.Verifier.{Procedures}
use action_cloud.Agents.{Response}
use action_cloud.Benchmark.Harness.{Task, Workload, Turn, RunState, ArmConfig, ArmResult}
use action_cloud.Benchmark.Experiment.{
  record_run, Progress, run_at, run_one, run_arms, run_seeds, started, run_experiment, comparisons,
}
use action_cloud.Metrics.Stored.{Comparison}

module _ (F : Floats) (engine : Engine F) (ratio : String → String → F.Float)
    (embed : String → Vector) (r : Rounding) (enrichers : Enrichers) (author_prior : Bool)
    (fold : String → String) (complete : ℕ → Option String → String → String → Option Response)
    (lower : String → String) (procedures : Procedures) (draws : String → F.Float)
    (env : ℕ → ℕ → Turn) (shuffle : String → List Task → List Task) (tasks : List Task)
    (w : Workload) (experiment_id : String) where
  abbrev pub one : Progress → ℕ → ArmConfig F → Option Progress
  one =
      run_one F engine ratio embed r enrichers author_prior fold complete lower procedures draws env
        shuffle tasks w experiment_id

  abbrev pub at : System → ℕ → ℕ → ArmConfig F → Option (RunState × ArmResult)
  at =
      run_at F engine ratio embed r enrichers author_prior fold complete lower procedures draws env
        shuffle tasks w experiment_id

  -- What a run does: `run_arm` answers, and its answer is put on record.
  pub run_one_inv :
      (p : Progress) (seed : ℕ) (arm : ArmConfig F) (q : Progress)
      → one p seed arm ≡ some q
      → (st : RunState) × (result : ArmResult) × (at p.system p.runs seed arm ≡ some (st, result))
        × (record_run arm.name result p.per_arm ≡ some (q.per_arm))
        × (q.system ≡ st.system)
  unfolding run_one
  run_one_inv p seed arm q h = elim (Option-cases (at p.system p.runs seed arm)) [
    | inl e ↦ absurd (ground (arith, e, h))
    | inr ((st, result), e) ↦ elim (Option-cases (record_run arm.name result p.per_arm)) [
      | inl g ↦ absurd (ground (arith, e, g, h))
      | inr (per_arm, g) ↦
          let same : record { system = st.system; per_arm = per_arm; runs = suc (p.runs) } ≡ q =
            ground (arith, e, g, h) in
          (
            st,
            result,
            e,
            g ∙ ap (λ (u : Progress). some (u.per_arm)) same,
            ap (λ (u : Progress). u.system) (sym same),
          )
    ]
  ]

  abbrev pub all_arms : Progress → ℕ → List (ArmConfig F) → Option Progress
  all_arms =
      run_arms F engine ratio embed r enrichers author_prior fold complete lower procedures draws
        env shuffle tasks w experiment_id

  abbrev pub all_seeds : Progress → List (ArmConfig F) → List ℕ → Option Progress
  all_seeds =
      run_seeds F engine ratio embed r enrichers author_prior fold complete lower procedures draws
        env shuffle tasks w experiment_id

  -- The first arm of a list ran, and then the others.
  pub run_arms_inv :
      (p : Progress) (seed : ℕ) (arm : ArmConfig F) (arms : List (ArmConfig F)) (q : Progress)
      → all_arms p seed (arm ∷ arms) ≡ some q
      → (p' : Progress) × (one p seed arm ≡ some p') × (all_arms p' seed arms ≡ some q)
  unfolding run_arms
  run_arms_inv p seed arm arms q h = elim (Option-cases (one p seed arm)) [
    | inl e ↦ absurd (ground (arith, e, h))
    | inr (p', e) ↦ (p', e, ground (arith, e, h))
  ]

  pub run_seeds_inv :
      (p : Progress) (arms : List (ArmConfig F)) (seed : ℕ) (seeds : List ℕ) (q : Progress)
      → all_seeds p arms (seed ∷ seeds) ≡ some q
      → (p' : Progress) × (all_arms p seed arms ≡ some p') × (all_seeds p' arms seeds ≡ some q)
  unfolding run_seeds
  run_seeds_inv p arms seed seeds q h = elim (Option-cases (all_arms p seed arms)) [
    | inl e ↦ absurd (ground (arith, e, h))
    | inr (p', e) ↦ (p', e, ground (arith, e, h))
  ]

  pub run_experiment_inv :
      (sys : System) (arms : List (ArmConfig F)) (seeds : List ℕ) (p : Progress)
      (vs_baseline : List (String × List Comparison))
      → run_experiment F engine ratio embed r enrichers author_prior fold complete lower procedures
          draws env shuffle tasks w experiment_id sys arms seeds
        ≡ some (p, vs_baseline)
      → all_seeds (started F sys arms) arms seeds ≡ some p
  unfolding run_experiment
  run_experiment_inv sys arms seeds p vs_baseline h =
      elim (Option-cases (all_seeds (started F sys arms) arms seeds)) [
        | inl e ↦ absurd (ground (arith, e, h))
        | inr (q, e) ↦ elim (Option-cases (comparisons r q.per_arm)) [
          | inl g ↦ absurd (ground (arith, e, g, h))
          | inr (cs, g) ↦ let same : q ≡ p = ground (arith, e, g, h) in ground (arith, e, same)
        ]
      ]
