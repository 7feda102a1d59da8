-- ===== src/Metrics/Stored.antt =====
-- src/actioncloud/metrics.py: compare, and MetricCalculator over the stored experiences with the two
-- queries of the file. `ordered` is the order of the database's collation on the keys of one row.
pub mod Partition
use action_cloud.Prelude.{
  ℕ, zero, suc, ◌+◌, ◌-◌, ◌*◌, String, string_eq, nat_eq, Bool, true, false, not, ◌&&◌, ◌||◌,
  Option, none, some, List, [], ◌∷◌, ◌++◌, ◌==◌, if◌then◌else◌, leb, ltb, map, filter, contains,
  count, sort,
}
use action_cloud.Prelude.Int.{ℤ, pos, negsuc}
use action_cloud.Schema.{
  SystemCondition, baseline, actioncloud, MemoryTier, private, agent, shared, validated,
  organizational, rank, truthy,
}
use action_cloud.Judge.{Rounding}
use action_cloud.Store.{Row, Store}
use action_cloud.Metrics.{TaskOutcome, Metrics, compute_metrics}

abbrev pub negated : ℕ → ℤ
negated zero = pos 0
negated (suc n) = negsuc n

-- In hundredths of a percent, and of a percentage point.
pub record Comparison : Type 0 where
  pub token_savings_pct : ℤ
  pub cost_savings_pct : ℤ
  pub latency_reduction_pct : ℤ
  pub success_rate_delta_pp : ℤ

abbrev pub difference : ℕ → ℕ → ℤ
difference a b = if leb b a then pos (a - b) else negated (b - a)

module _ (r : Rounding) where
  -- round(100.0 * (b - t) / b, 2), which rounds a negative number as its absolute value
  unfoldable pub saving : ℕ → ℕ → ℤ
  saving b t =
      if b == 0
      then pos 0
      else if leb t b
      then pos (r.round (10000 * (b - t)) b)
      else negated (r.round (10000 * (t - b)) b)

  unfoldable pub compare : Metrics → Metrics → Comparison
  unfolding saving
  compare b t = record {
    token_savings_pct = saving b.total_tokens t.total_tokens;
    cost_savings_pct = saving b.total_cost_usd t.total_cost_usd;
    latency_reduction_pct = saving b.avg_latency_ms t.avg_latency_ms;
    success_rate_delta_pp = difference t.success_rate_pct b.success_rate_pct;
  }

-- WHERE run_id IS NULL OR e.run_id = run_id
abbrev pub of_run : Option String → Row → Bool
of_run none e = true
of_run (some run_id) e = e.run_id == run_id

-- `run_id or None`
abbrev pub or_none : Option String → Option String
or_none none = none
or_none (some run_id) = if truthy run_id then some run_id else none

-- ORDER BY e.created_at, e.id
abbrev pub earlier : Row → Row → Bool
earlier x y = ltb x.created_at y.created_at || (x.created_at == y.created_at && leb x.id y.id)

abbrev pub same_system : SystemCondition → SystemCondition → Bool
same_system baseline baseline = true
same_system actioncloud actioncloud = true
same_system _ _ = false

-- by_system, in the order of the first rows.
abbrev pub Groups : Type 0
Groups = List (SystemCondition × List TaskOutcome)

-- by_system.setdefault(name, []).append(row)
unfoldable pub add_row : SystemCondition → TaskOutcome → Groups → Groups
add_row name row [] = (name, row ∷ []) ∷ []
add_row name row ((other, rows) ∷ groups) =
    if same_system other name
    then (other, rows ++ row ∷ []) ∷ groups
    else (other, rows) ∷ add_row name row groups

unfoldable pub group : List (SystemCondition × TaskOutcome) → Groups → Groups
unfolding add_row
group [] groups = groups
group ((name, row) ∷ rows) groups = group rows (add_row name row groups)

abbrev pub system_metrics : SystemCondition → List (SystemCondition × Metrics) → Option Metrics
system_metrics name [] = none
system_metrics name ((other, m) ∷ rest) =
    if same_system other name then some m else system_metrics name rest

pub record TierRow : Type 0 where
  pub tier : MemoryTier
  pub tier_count : ℕ
  pub total_reuses : ℕ
  pub total_successful_reuses : ℕ
  -- in ten-thousandths
  pub observed_success_rate : Option ℕ

abbrev pub in_tier : Option String → MemoryTier → Row → Bool
in_tier run_id tier e = of_run run_id e && rank e.tier == rank tier

abbrev pub sum_reuses : List Row → ℕ
sum_reuses [] = 0
sum_reuses (e ∷ es) = e.reuse_count + sum_reuses es

abbrev pub sum_successes : List Row → ℕ
sum_successes [] = 0
sum_successes (e ∷ es) = e.reuse_success_count + sum_successes es

pub record RunMetrics : Type 0 where
  pub run_id : Option String
  pub systems : List (SystemCondition × Metrics)
  pub comparative_metrics : Option Comparison
  pub governance_tier_distribution : List TierRow

-- The rows of _ROWS_SQL, each with its system.
module _ (ordered : List (Option String) → List (Option String)) (s : Store) where
  unfoldable pub injected_keys : Row → List (Option String)
  injected_keys e = ordered (
      map (λ (m : Row). m.task_key)
        (filter (λ (m : Row). contains e.retrieved_experience_ids m.id) s.experiences))

  unfoldable pub row_of : Row → SystemCondition × TaskOutcome
  unfolding injected_keys
  row_of e = (
    e.system,
    record {
      task_key = e.task_key;
      success = e.success;
      tokens_input = e.tokens_input;
      tokens_output = e.tokens_output;
      execution_time_ms = e.execution_time_ms;
      cost_usd = e.cost_usd;
      injected_task_keys = injected_keys e;
    },
  )

  unfoldable pub run_rows : Option String → List (SystemCondition × TaskOutcome)
  unfolding row_of sort
  run_rows run_id = map row_of (sort earlier (filter (of_run run_id) s.experiences))

module _ (r : Rounding) (s : Store) where
  -- The row of a tier, with the rate that the code computes.
  abbrev pub tier_row : Option String → MemoryTier → TierRow
  tier_row run_id tier =
      let es = filter (in_tier run_id tier) s.experiences in
      record {
        tier = tier;
        tier_count = count (in_tier run_id tier) s.experiences;
        total_reuses = sum_reuses es;
        total_successful_reuses = sum_successes es;
        observed_success_rate =
            if sum_reuses es == 0
            then none
            else some (r.round (10000 * sum_successes es) (sum_reuses es));
      }

  -- The groups of _TIERS_SQL: none for a tier without a row.
  unfoldable pub tier_rows : Option String → List MemoryTier → List TierRow
  tier_rows run_id [] = []
  tier_rows run_id (tier ∷ tiers) =
      let rest = tier_rows run_id tiers in
      if count (in_tier run_id tier) s.experiences == 0 then rest else tier_row run_id tier ∷ rest

  abbrev pub ladder : List MemoryTier
  ladder = private ∷ agent ∷ shared ∷ validated ∷ organizational ∷ []

  abbrev pub compared : Option Metrics → Option Metrics → Option Comparison
  unfolding compare
  compared (some b) (some t) = some (compare r b t)
  compared _ _ = none

  unfoldable pub calculate_run_metrics :
      (List (Option String) → List (Option String)) → Option String → RunMetrics
  unfolding run_rows group compute_metrics compare tier_rows
  calculate_run_metrics ordered asked =
      let run_id = or_none asked in
      let systems =
        map (λ ((name, rows) : SystemCondition × List TaskOutcome). (name, compute_metrics r rows))
          (group (run_rows ordered s run_id) []) in
      record {
        run_id = run_id;
        systems = systems;
        comparative_metrics =
            compared (system_metrics baseline systems) (system_metrics actioncloud systems);
        governance_tier_distribution = tier_rows run_id ladder;
      }
