-- ===== src/Metrics.antt =====
-- src/actioncloud/metrics.py: compute_metrics over the outcomes of a run, in the order of execution.
-- Costs are counted in millionths of a dollar, as their column is, and added exactly. A percentage is
-- counted in hundredths of a percent, an index in ten-thousandths, an average in tenths.
pub mod Bounds
pub mod Stored
use action_cloud.Prelude.{
  ℕ, ◌+◌, ◌-◌, ◌*◌, String, string_eq, nat_eq, Bool, true, false, not, ◌&&◌, ◌||◌, Option, none,
  some, List, [], ◌∷◌, ◌==◌, if◌then◌else◌, any, count, contains, length,
}
use action_cloud.Judge.{Rounding}

-- A row: task_key, success, the numbers, and the task keys of what was injected.
pub record TaskOutcome : Type 0 where
  pub task_key : Option String
  pub success : Bool
  pub tokens_input : ℕ
  pub tokens_output : ℕ
  pub execution_time_ms : ℕ
  pub cost_usd : ℕ
  pub injected_task_keys : List (Option String)

abbrev pub is_key : Option String → Option String → Bool
is_key (some key) (some k) = k == key
is_key _ _ = false

-- The variables of the loop.
pub record Tally : Type 0 where
  pub solved_keys : List String
  pub repeats : ℕ
  pub redundant : ℕ
  pub tasks_injected : ℕ
  pub injected_total : ℕ
  pub injected_relevant : ℕ
  pub tasks_relevant : ℕ
  pub relevant_success : ℕ
  pub successes : ℕ
  pub tok_in : ℕ
  pub tok_out : ℕ
  pub latency : ℕ
  pub cost : ℕ

abbrev pub no_tally : Tally
no_tally = record {
  solved_keys = [];
  repeats = 0;
  redundant = 0;
  tasks_injected = 0;
  injected_total = 0;
  injected_relevant = 0;
  tasks_relevant = 0;
  relevant_success = 0;
  successes = 0;
  tok_in = 0;
  tok_out = 0;
  latency = 0;
  cost = 0;
}

-- A Boolean in a sum.
abbrev pub one_if : Bool → ℕ
one_if true = 1
one_if false = 0

abbrev pub is_repeat : List String → Option String → Bool
is_repeat solved none = false
is_repeat solved (some key) = contains solved key

abbrev pub solved_after : List String → Option String → Bool → List String
solved_after solved none ok = solved
solved_after solved (some key) ok = if ok && not (contains solved key) then key ∷ solved else solved

abbrev pub is_injected : List (Option String) → Bool
is_injected [] = false
is_injected (k ∷ ks) = true

-- One turn of the loop.
unfoldable pub add_outcome : Tally → TaskOutcome → Tally
add_outcome t r =
    let inj = r.injected_task_keys in
    let relevant = any (is_key r.task_key) inj in
    let again = is_repeat t.solved_keys r.task_key in
    record {
      solved_keys = solved_after t.solved_keys r.task_key r.success;
      repeats = t.repeats + one_if again;
      redundant = t.redundant + one_if (again && not relevant);
      tasks_injected = t.tasks_injected + one_if (is_injected inj);
      injected_total = t.injected_total + length inj;
      injected_relevant = t.injected_relevant + count (is_key r.task_key) inj;
      tasks_relevant = t.tasks_relevant + one_if relevant;
      relevant_success = t.relevant_success + one_if (relevant && r.success);
      successes = t.successes + one_if r.success;
      tok_in = t.tok_in + r.tokens_input;
      tok_out = t.tok_out + r.tokens_output;
      latency = t.latency + r.execution_time_ms;
      cost = t.cost + r.cost_usd;
    }

unfoldable pub tally : Tally → List TaskOutcome → Tally
unfolding add_outcome
tally t [] = t
tally t (r ∷ rows) = tally (add_outcome t r) rows

pub record Metrics : Type 0 where
  pub total_tasks : ℕ
  pub successful_tasks : ℕ
  pub success_rate_pct : ℕ
  pub injection_rate_pct : ℕ
  pub retrieval_precision_pct : ℕ
  pub effective_reuse_rate_pct : ℕ
  pub misled_rate_pct : ℕ
  pub redundancy_index : ℕ
  pub repeat_tasks : ℕ
  pub total_tokens_input : ℕ
  pub total_tokens_output : ℕ
  pub total_tokens : ℕ
  pub avg_tokens_per_task : ℕ
  pub avg_latency_ms : ℕ
  pub total_cost_usd : ℕ
  pub cost_per_success_usd : Option ℕ

module _ (r : Rounding) where
  -- A rounded quotient, and 0 where there is nothing to divide by; `scale` is 1 in the unit.
  unfoldable pub ratio_of : ℕ → ℕ → ℕ → ℕ
  ratio_of scale num den = if den == 0 then 0 else r.round (scale * num) den

  -- _pct
  unfoldable pub pct : ℕ → ℕ → ℕ
  unfolding ratio_of
  pct num den = ratio_of 10000 num den

  unfoldable pub metrics_of : ℕ → Tally → Metrics
  unfolding pct
  metrics_of n t = record {
    total_tasks = n;
    successful_tasks = t.successes;
    success_rate_pct = pct t.successes n;
    injection_rate_pct = pct t.tasks_injected n;
    retrieval_precision_pct = pct t.injected_relevant t.injected_total;
    effective_reuse_rate_pct = pct t.relevant_success n;
    misled_rate_pct = pct (t.tasks_relevant - t.relevant_success) t.tasks_relevant;
    redundancy_index = ratio_of 10000 t.redundant t.repeats;
    repeat_tasks = t.repeats;
    total_tokens_input = t.tok_in;
    total_tokens_output = t.tok_out;
    total_tokens = t.tok_in + t.tok_out;
    avg_tokens_per_task = ratio_of 10 (t.tok_in + t.tok_out) n;
    avg_latency_ms = ratio_of 10 t.latency n;
    total_cost_usd = t.cost;
    cost_per_success_usd = if t.successes == 0 then none else some (r.round t.cost t.successes);
  }

  unfoldable pub compute_metrics : List TaskOutcome → Metrics
  unfolding metrics_of tally
  compute_metrics rows = metrics_of (length rows) (tally no_tally rows)
