-- ===== src/Benchmark/Harness/Runs.antt =====
-- What the run of an arm does to the memory, and what the memory can do to it.
use action_cloud.Prelude.{
  ℕ, suc, ◌≡◌, subst, refl, String, string_eq, nat_eq, Bool, true, false, Option, some, List, [],
  ◌∷◌, ◌==◌, map, arith, Bool-cases, inl, inr, length, All, All-append, ◌∙◌, ◌⊎◌,
}
use action_cloud.Floats.{Floats}
use action_cloud.Judge.{Rounding}
use action_cloud.Store.{Vector}
use action_cloud.Store.Search.{Engine}
use action_cloud.Pipeline.{Enrichers}
use action_cloud.Service.{System}
use action_cloud.Benchmark.Verifier.{Procedures}
use action_cloud.Governance.{Reach, here}
use action_cloud.Agents.{TaskOutcome, Response}
use action_cloud.Governance.Histories.{Reach-trans}
use action_cloud.Agents.Governed.{run_task-Reach}
use action_cloud.Agents.Isolation.{run_task_nothing}
use action_cloud.Metrics.{TaskOutcome as MetricRow, ratio_of, pct, compute_metrics}
use action_cloud.Metrics.Bounds.{is_stateless, stateless_redundancy, ratio_of_nothing}
use action_cloud.Benchmark.Harness.{
  Task, Instance, Workload, Turn, RunState, count_outcome, relevant_pairs, metric_row, sum_context,
  ArmConfig, ArmResult, run_arm, run_name, instances, fresh_state, spec_of,
}
use action_cloud.Benchmark.Harness.Turns.{IsTurn, turns-induction, run_arm-turns}
use action_cloud.Benchmark.Harness.Counters.{result_of_figures}

-- An outcome without an injected memory.
abbrev pub IsUnaided : TaskOutcome → Type 0
IsUnaided o = (o.retrieved_ids ≡ []) × (o.injected_task_keys ≡ []) × (o.context_tokens ≡ 0)

-- A run so far in which nothing was injected.
abbrev IsStateless : ℕ → RunState → Type 0
IsStateless n st =
    All IsUnaided st.outcomes × (st.poisoned_injections ≡ 0) × (st.relevant_injections ≡ 0)

sum_context_unaided : (os : List TaskOutcome) → All IsUnaided os → sum_context os ≡ 0
sum_context_unaided [] h = refl
sum_context_unaided (o ∷ os) (h, k) = ground (arith, h, sum_context_unaided os k)

stateless_rows :
    (os : List TaskOutcome)
    → All IsUnaided os
    → All (λ r. is_stateless r ≡ true) (map metric_row os)
stateless_rows [] h = tt
stateless_rows (o ∷ os) (h, k) = (rw (h.1) refl, stateless_rows os k)

stateless_index :
    (r : Rounding) (rows : List MetricRow)
    → All (λ (o : MetricRow). is_stateless o ≡ true) rows
    → ((compute_metrics r rows).repeat_tasks ≡ 0)
      ⊎ ((compute_metrics r rows).redundancy_index ≡ 10000)
stateless_index r rows h = elim (Bool-cases ((compute_metrics r rows).repeat_tasks == 0)) [
  | inl e ↦ inl (ground arith)
  | inr e ↦ inr (stateless_redundancy r rows h (ground arith))
]

module _ (F : Floats) (engine : Engine F) (ratio : String → String → F.Float)
    (embed : String → Vector) (r : Rounding) (enrichers : Enrichers) (author_prior : Bool)
    (fold : String → String) (complete : Option String → String → String → Option Response)
    (lower : String → String) (procedures : Procedures) (draws : String → F.Float)
    (env : ℕ → Turn) where
  module _ (shuffle : String → List Task → List Task) (tasks : List Task) (sys : System)
      (arm : ArmConfig F) (w : Workload) (experiment_id : String) (st : RunState)
      (result : ArmResult) where
    abbrev run_id : String
    run_id = run_name F experiment_id arm w

    abbrev HasRun : Type 0
    HasRun =
        run_arm F engine ratio embed r enrichers author_prior fold complete lower procedures draws
          env shuffle tasks sys arm w experiment_id
        ≡ some (st, result)

    abbrev IsStep : RunState → RunState → ℕ → Instance → Type 0
    IsStep =
        IsTurn F engine ratio embed r enrichers author_prior fold complete lower procedures draws
          env arm run_id w

    abbrev Governed : ℕ → RunState → Type 0
    Governed n s = Reach r sys.store s.system.store

    turn-Governed :
        arm.governance ≡ true
        → (s t : RunState) (i : ℕ) (x : Instance) → IsStep s t i x
        → Governed i s
        → Governed (suc i) t
    unfolding count_outcome
    turn-Governed on s t i x h p = Reach-trans p (
        subst (λ (u : RunState). Reach r s.system.store u.system.store) h.counts
          (run_task-Reach F engine ratio embed r enrichers _ fold "inprocess" refl on complete lower
            procedures s.system h.system h.a (spec_of F x) (draws x.instance_id) (env i).id
            (env i).retrieval_ms (env i).now h.o h.runs))

    -- Everything that the run of a governed arm does to the memory is a history of stores, injections
    -- and judged reports: no agent of the run, whatever its model answers, gets past the judge.
    pub run_arm-Reach : arm.governance ≡ true → HasRun → Reach r sys.store st.system.store
    run_arm-Reach on h =
        let (ran, _) =
          run_arm-turns F engine ratio embed r enrichers author_prior fold complete lower procedures
            draws env shuffle tasks sys arm w experiment_id st result h in
        turns-induction F engine ratio embed r enrichers author_prior fold complete lower procedures
          draws env arm run_id w Governed (turn-Governed on) (fresh_state sys) st 0
          (instances shuffle tasks w) ran here

    turn-IsStateless :
        arm.use_memory ≡ false
        → (s t : RunState) (i : ℕ) (x : Instance) → IsStep s t i x
        → IsStateless i s
        → IsStateless (suc i) t
    unfolding count_outcome relevant_pairs
    turn-IsStateless off s t i x h (outcomes, poisoned, relevant) =
        let (ids, keys, tokens) =
          run_task_nothing F complete lower procedures _ s.system h.system h.a (spec_of F x)
            (draws x.instance_id) (env i).id (env i).retrieval_ms (env i).now h.o (h.memory ∙ off)
            h.runs in
        subst (IsStateless (suc i)) h.counts (
          All-append IsUnaided s.outcomes (h.o ∷ []) outcomes ((ids, keys, tokens), tt),
          ground (arith, ids, poisoned),
          ground (arith, ids, relevant),
        )

    -- The baseline arm is stateless, as its figures show: a run without memory injects no poisoned
    -- memory and no tokens of context, and where a task of the run repeats one that was solved before,
    -- its redundancy index is 1.
    pub run_arm_baseline :
        arm.use_memory ≡ false
        → HasRun
        → (result.poisoned_injection_pct ≡ 0)
          × (result.avg_context_tokens ≡ 0)
          × ((result.metrics.repeat_tasks ≡ 0) ⊎ (result.metrics.redundancy_index ≡ 10000))
    unfolding pct ratio_of
    run_arm_baseline off h =
        let (ran, answered) =
          run_arm-turns F engine ratio embed r enrichers author_prior fold complete lower procedures
            draws env shuffle tasks sys arm w experiment_id st result h in
        let (outcomes, poisoned, relevant) =
          turns-induction F engine ratio embed r enrichers author_prior fold complete lower
            procedures draws env arm run_id w IsStateless (turn-IsStateless off) (fresh_state sys)
            st 0 (instances shuffle tasks w) ran (tt, refl, refl) in
        let (metrics, pct_, false_positives, avg) = result_of_figures r run_id st result answered in
        let tokens = sum_context_unaided st.outcomes outcomes in
        (
          ground (arith, pct_, poisoned, ratio_of_nothing r 10000 st.relevant_injections),
          ground (arith, avg, tokens, ratio_of_nothing r 10 (length st.outcomes)),
          rw metrics (
              stateless_index r (map metric_row st.outcomes) (stateless_rows st.outcomes outcomes)),
        )
