-- ===== src/Examples/Reports.antt =====
-- The reports on a store of one memory, a stem, and an answer of the simulated model.
use action_cloud.Prelude.{
  ℕ, ◌≡◌, ◌⊎◌, ◌∷◌, refl, count, String, string_eq, Bool, true, false, none, some, List, [], Option,
}
use action_cloud.Prelude.Int.{pos}
use action_cloud.Api.{Http, Settings, http_error, response}
use action_cloud.Api.Admin.{stats, get_metrics_route, stats-get_metrics_route}
use action_cloud.Metrics.Stored.{RunMetrics, of_run, calculate_run_metrics}
use action_cloud.Metrics.Stored.Partition.{sum_tasks, sum_tiers, calculate_run_metrics_partition}
use action_cloud.Embeddings.Hashing.{Arithmetic, suffixes, stem}
use action_cloud.Embeddings.Hashing.Stemming.{Stemmed, stem-Stemmed}
use action_cloud.Render.{join}
use action_cloud.Llm.{Pricing}
use action_cloud.Agents.{Response}
use action_cloud.Benchmark.Verifier.{steps}
use action_cloud.Benchmark.Simulator.{ParsedMemory, SimParams, Luck, key_for, answer_text, answer}
use action_cloud.Benchmark.Simulator.Honesty.{AreOf, IsUsable, answer_honest}
use action_cloud.Examples.Rounding.{half_up}
use action_cloud.Examples.Data.{decimals, stored, reported_once}
use action_cloud.Examples.Agents.{procedures, same_text}

abbrev unordered : List (Option String) → List (Option String)
unordered ks = ks

calculate_run_metrics_partition_example :
    (sum_tasks (calculate_run_metrics half_up reported_once unordered (some "r1")).systems
      ≡ count (of_run (some "r1")) reported_once.experiences)
    × (sum_tiers
          (calculate_run_metrics half_up reported_once unordered
            (some "r1")).governance_tier_distribution
        ≡ count (of_run (some "r1")) reported_once.experiences)
unfolding calculate_run_metrics
calculate_run_metrics_partition_example =
    calculate_run_metrics_partition half_up reported_once unordered (some "r1")

abbrev closed : Settings
closed = record { auth_required = true; admin_key = some "root" }

abbrev no_bearer : String → Option String
no_bearer s = none

abbrev stats_of : Option String → Http (Option String × ℕ)
stats_of key = stats half_up unordered same_text no_bearer closed [] key none stored none

abbrev metrics_of : Option String → Http RunMetrics
metrics_of key =
    get_metrics_route half_up unordered same_text no_bearer closed [] key none stored none

stats-get_metrics_route_example :
    ((n : ℕ) × (stats_of (some "root") ≡ http_error n) × (metrics_of (some "root") ≡ http_error n))
    ⊎ ((n : ℕ) × (m : RunMetrics) × (stats_of (some "root") ≡ response (none, n))
        × (metrics_of (some "root") ≡ response m)
        × (sum_tasks m.systems ≡ n))
stats-get_metrics_route_example =
    stats-get_metrics_route half_up unordered same_text no_bearer closed [] (some "root") none
      stored none

stem_test : stem "pooling" ≡ "pool"
unfolding stem
stem_test = refl

stem-Stemmed_example : Stemmed suffixes "pooling" (stem "pooling")
stem-Stemmed_example = stem-Stemmed "pooling"

abbrev whole : Arithmetic decimals
whole = record { neg = λ x. x; div = λ x y. x; log = λ x. x; sqrt = λ x. x; round6 = pos }

abbrev digest : String → ℕ × Bool
digest key = (5, true)

abbrev params : SimParams decimals
params = record {
  p_scratch_success = 6500;
  p_distracted_success = 6000;
  p_miss_one = 6000;
  p_follow_slip = 300;
  p_misled = 8500;
  scratch_out_base = 450;
  scratch_out_per_step = 60;
  scratch_out_jitter = 300;
  follow_out_base = 150;
  follow_out_per_step = 25;
  follow_out_jitter = 60;
  latency_base_ms = 300;
  latency_per_out_token_ms = 8;
}

abbrev luck : Luck decimals
luck = record { outcome = 5000; second = 9000; miss = 100; drop = λ k n. 0; jitter = λ n. 0 }

abbrev task_keys : List (String × String)
task_keys = ("rotate the certificates", "certs") ∷ []

abbrev remembered : List ParsedMemory
remembered =
    record { task = "rotate the certificates"; failed = false; steps = "renew" ∷ [] }
    ∷ record { task = "rotate the certificates"; failed = true; steps = "reload" ∷ [] }
    ∷ []

abbrev pricing : Pricing
pricing = record { input_per_mtok = 3000; output_per_mtok = 15000 }

abbrev given : Response
given = record {
  text = "Procedure applied:\nSTEP: renew";
  tokens_input = 1;
  tokens_output = 200;
  latency_ms = 1900;
  cost_usd = 3003;
  mode = "misled";
}

answered_ok :
    answer decimals params luck half_up pricing task_keys procedures same_text remembered
      "rotate the certificates" "prompt" none
    ≡ some given
unfolding answer join
answered_ok = refl

answer_honest_example :
    (key : String) × (truth : List String) × (kept : List String) × (key_for decimals params luck
        half_up pricing task_keys procedures same_text "rotate the certificates"
      ≡ some key)
    × (steps procedures key ≡ some truth)
    × (given.text ≡ answer_text kept)
    × AreOf truth kept
    × ((given.mode ≡ "scratch")
        ⊎ ((m : ParsedMemory) × IsUsable decimals params luck half_up pricing task_keys procedures
              same_text remembered key m))
answer_honest_example =
    answer_honest decimals params luck half_up pricing task_keys procedures same_text remembered
      "rotate the certificates" "prompt" none given answered_ok
