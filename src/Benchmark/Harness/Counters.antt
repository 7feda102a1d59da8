-- ===== src/Benchmark/Harness/Counters.antt =====
-- What the counters of an arm have to do with its outcomes.
use action_cloud.Prelude.{
  ℕ, suc, ◌+◌, ◌≤◌, ◌≡◌, ap, subst, refl, ◌⊎◌, String, string_eq, nat_eq, Bool, not, ◌&&◌, Option,
  some, List, [], ◌∷◌, ◌++◌, map, arith, inl, inr, length, count, length-append, count-append,
}
use action_cloud.Floats.{Floats}
use action_cloud.Judge.{Rounding}
use action_cloud.Store.{Vector}
use action_cloud.Store.Search.{Engine}
use action_cloud.Pipeline.{Enrichers}
use action_cloud.Service.{System}
use action_cloud.Benchmark.Verifier.{Procedures}
use action_cloud.Agents.{TaskOutcome, Response}
use action_cloud.Metrics.{pct, ratio_of, compute_metrics, Tally, tally, add_outcome, no_tally}
use action_cloud.Metrics.Bounds.{pct_le}
use action_cloud.Benchmark.Harness.Turns.{IsTurn, turns-induction, run_arm-turns}
use action_cloud.Benchmark.Harness.{
  Task, ArmResult, run_arm, run_name, instances, result_of, metric_row, sum_context, Instance,
  Workload, Turn, relevant_pairs, RunState, count_outcome, ArmConfig, turns, fresh_state,
}

-- A kept experience that its agent took for a success and the grader did not.
abbrev pub is_false_positive : TaskOutcome → Bool
is_false_positive o = o.self_check_success && not o.success

-- The counters after the outcomes, in the order of execution.
pub record IsCounted (st : RunState) : Type 0 where
  pub poisoned_lte : st.poisoned_injections ≤ st.relevant_injections
  pub false_positives : st.false_positive_stores ≡ count is_false_positive st.outcomes

pub list_cases :
    {A : Type 0} (xs : List A) → (xs ≡ []) ⊎ ((x : A) × (rest : List A) × (xs ≡ x ∷ rest))
list_cases [] = inl refl
list_cases (x ∷ xs) = inr (x, xs, refl)

relevant_pairs_le :
    (known : List (ℕ × Bool)) (key : String) (ids : List ℕ) (keys : List (Option String))
    → (relevant_pairs known key ids keys).1 ≤ (relevant_pairs known key ids keys).0
unfolding relevant_pairs
relevant_pairs_le known key [] keys = omega arith
relevant_pairs_le known key (id ∷ ids) [] = omega arith
relevant_pairs_le known key (id ∷ ids) (k ∷ ks) = ground (arith, relevant_pairs_le known key ids ks)

count_outcome-IsCounted :
    (st : RunState) (key : String) (system : System) (o : TaskOutcome)
    → IsCounted st
    → IsCounted (count_outcome st key system o)
unfolding count_outcome
count_outcome-IsCounted st key system o h =
    let pairs = relevant_pairs_le st.memory_correct key o.retrieved_ids o.injected_task_keys in
    record {
      poisoned_lte = omega (arith, pairs, h.poisoned_lte);
      false_positives =
          ground (arith, h.false_positives, count-append is_false_positive st.outcomes (o ∷ []));
    }

-- Where the figures of an answer come from.
pub result_of_figures :
    (r : Rounding) (run_id : String) (st : RunState) (result : ArmResult)
    → result_of r run_id st ≡ some result
    → (result.metrics ≡ compute_metrics r (map metric_row st.outcomes))
      × (result.poisoned_injection_pct ≡ pct r st.poisoned_injections st.relevant_injections)
      × (result.false_positive_memories ≡ st.false_positive_stores)
      × (result.avg_context_tokens ≡ ratio_of r 10 (sum_context st.outcomes) (length st.outcomes))
unfolding result_of
result_of_figures r run_id st result h = elim (list_cases st.outcomes) [
  | inl e ↦ absurd (ground (arith, e))
  | inr (o, os, e) ↦
      (ground (arith, e, h), ground (arith, e, h), ground (arith, e, h), ground (arith, e, h))
]

tally_successes :
    (t : Tally) (os : List TaskOutcome)
    → (tally t (map metric_row os)).successes
      ≡ t.successes + count (λ (o : TaskOutcome). o.success) os
unfolding tally add_outcome
tally_successes t [] = omega arith
tally_successes t (o ∷ os) = ground (arith, tally_successes (add_outcome t (metric_row o)) os)

length-map : (os : List TaskOutcome) → length (map metric_row os) ≡ length os
length-map [] = refl
length-map (o ∷ os) = ap suc (length-map os)

run_totals :
    (r : Rounding) (os : List TaskOutcome)
    → ((compute_metrics r (map metric_row os)).total_tasks ≡ length os)
      × ((compute_metrics r (map metric_row os)).successful_tasks
          ≡ count (λ (o : TaskOutcome). o.success) os)
unfolding compute_metrics
run_totals r os = (length-map os, omega (arith, tally_successes no_tally os))

module _ (F : Floats) (engine : Engine F) (ratio : String → String → F.Float)
    (embed : String → Vector) (r : Rounding) (enrichers : Enrichers) (author_prior : Bool)
    (fold : String → String) (complete : Option String → String → String → Option Response)
    (lower : String → String) (procedures : Procedures) (draws : String → F.Float)
    (env : ℕ → Turn) where
  abbrev Counted : ℕ → RunState → Type 0
  Counted n st = IsCounted st × (length st.outcomes ≡ n)

  turn-Counted :
      (arm : ArmConfig F) (run_id : String) (w : Workload) (st st' : RunState) (i : ℕ)
      (t : Instance)
      → IsTurn F engine ratio embed r enrichers author_prior fold complete lower procedures draws
          env arm run_id w st st' i t
      → Counted i st
      → Counted (suc i) st'
  unfolding count_outcome
  turn-Counted arm run_id w st st' i t h (c, n) =
      let m : length (st.outcomes ++ h.o ∷ []) ≡ suc i =
        omega (arith, length-append st.outcomes (h.o ∷ []), n) in
      subst (Counted (suc i)) h.counts (count_outcome-IsCounted st t.task_key h.system h.o c, m)

  pub turns-length :
      (arm : ArmConfig F) (run_id : String) (w : Workload) (st : RunState) (ts : List Instance)
      (sys : System)
      → turns F engine ratio embed r enrichers author_prior fold complete lower procedures draws env
          arm run_id w
          (fresh_state sys)
          0
          ts
        ≡ some st
      → length st.outcomes ≡ length ts
  turns-length arm run_id w st ts sys ran =
      let (_, n) =
        turns-induction F engine ratio embed r enrichers author_prior fold complete lower procedures
          draws env arm run_id w Counted (turn-Counted arm run_id w) (fresh_state sys) st 0 ts ran
          (record { poisoned_lte = omega arith; false_positives = refl }, refl) in
      omega (arith, n)

  false_positives_le :
      (os : List TaskOutcome)
      → count is_false_positive os + count (λ (o : TaskOutcome). o.success) os ≤ length os
  false_positives_le [] = omega arith
  false_positives_le (o ∷ os) = ground (arith, false_positives_le os)

  -- The figures of every finished run, in any arm: as many tasks as the workload has instances, at most
  -- 100 % poisoned injections, and no task counted both as a success and as a false positive.
  pub run_arm_figures :
      (shuffle : String → List Task → List Task) (tasks : List Task) (sys : System)
      (arm : ArmConfig F) (w : Workload) (experiment_id : String) (st : RunState)
      (result : ArmResult)
      → run_arm F engine ratio embed r enrichers author_prior fold complete lower procedures draws
          env shuffle tasks sys arm w experiment_id
        ≡ some (st, result)
      → (result.metrics.total_tasks ≡ length (instances shuffle tasks w))
        × (result.poisoned_injection_pct ≤ 10000)
        × (result.false_positive_memories + result.metrics.successful_tasks
            ≤ result.metrics.total_tasks)
  unfolding result_of
  run_arm_figures shuffle tasks sys arm w experiment_id st result h =
      let (ran, answered) =
        run_arm-turns F engine ratio embed r enrichers author_prior fold complete lower procedures
          draws env shuffle tasks sys arm w experiment_id st result h in
      let (c, n) =
        turns-induction F engine ratio embed r enrichers author_prior fold complete lower procedures
          draws env arm (run_name F experiment_id arm w) w Counted
          (turn-Counted arm (run_name F experiment_id arm w) w) (fresh_state sys) st 0
          (instances shuffle tasks w) ran
          (record { poisoned_lte = omega arith; false_positives = refl }, refl) in
      let (metrics, poisoned, false_positives, _) =
        result_of_figures r (run_name F experiment_id arm w) st result answered in
      let (total, successes) = run_totals r st.outcomes in
      let bound = false_positives_le st.outcomes in
      (
        ground (arith, metrics, total, n),
        ground (
          arith,
          poisoned,
          pct_le r st.poisoned_injections st.relevant_injections c.poisoned_lte,
        ),
        rw metrics (omega (arith, false_positives, c.false_positives, total, successes, bound)),
      )
