-- ===== src/Examples/Tools.antt =====
-- Tool calls, metrics, extraction and the single-statement updates at concrete inputs.
use action_cloud.Prelude.{
  ℕ, ◌+◌, ◌≤◌, ◌≡◌, ◌⊎◌, refl, string_eq, nat_eq, Bool, true, false, Option, none, some, List, [],
  ◌∷◌, arith, String,
}
use action_cloud.Table.{find}
use action_cloud.Schema.{testing, new_experience}
use action_cloud.Store.{get_experience, insert_enriched_experience}
use action_cloud.Pipeline.{process_experience}
use action_cloud.Service.{Options, record_reuse}
use action_cloud.Auth.{Principal}
use action_cloud.Mcp.{
  Value, text, number, boolean, Args, Tool, answered, refused, invalid_arguments,
}
use action_cloud.Mcp.Tools.{or_failure}
use action_cloud.Mcp.Identity.{call_tool_reuse_bound}
use action_cloud.Mcp.Tools.{call_tool, reused}
use action_cloud.Mcp.{◌>>=◌}
use action_cloud.Service.{System}
use action_cloud.Examples.Context.{policy, no_vector}
use action_cloud.Examples.Data.{decimals, by_id, ratio}
use action_cloud.Prelude.{inr}
use action_cloud.Mcp.Protocol.{Request}
use action_cloud.Metrics.{TaskOutcome, compute_metrics}
use action_cloud.Examples.Rounding.{half_up}
use action_cloud.Examples.Data.{stored, row_or, plain}

abbrev solved : TaskOutcome
solved = record {
  task_key = some "certs";
  success = true;
  tokens_input = 100;
  tokens_output = 50;
  execution_time_ms = 700;
  cost_usd = 12;
  injected_task_keys = [];
}

abbrev helped : TaskOutcome
helped = record solved { injected_task_keys = some "certs" ∷ some "dns" ∷ [] }

repeated : 1 ≤ (compute_metrics half_up (solved ∷ solved ∷ [])).repeat_tasks
unfolding compute_metrics
repeated = omega arith

stored_row_hit : get_experience stored 7 ≡ some (row_or (get_experience stored 7))
unfolding process_experience find insert_enriched_experience new_experience get_experience
stored_row_hit = refl

abbrev no_step : String → Option String
no_step line = none

abbrev one_line : String → List String
one_line t = t ∷ []

abbrev keep : String → String
keep t = t

abbrev bob : Principal
bob = record { agent_id = "bob"; role = testing; is_admin = false }

abbrev report_args : Args
report_args =
    ("experience_id", number 7) ∷ ("success", boolean true) ∷ ("role", text "testing") ∷ []

abbrev number_of : Value → Option ℕ
number_of (number n) = some n
number_of _ = none

abbrev no_number : String → Option ℕ
no_number t = none

abbrev options : Options
options = record { sync_write = true; governance = true; author_prior = true }

abbrev idle : System
idle = record { store = stored; queue = [] }

call_tool_reuse_bound_example :
    ((memory : ℕ) × (success : Bool) × (call_tool half_up plain options keep number_of no_number
          decimals by_id no_vector ratio
          (some bob)
          policy
          idle
          "report_memory_reuse"
          report_args
          8
          true
          5
        ≡ (or_failure (record_reuse half_up stored memory success (some "bob") 5) >>= λ res.
            answered (record idle { store = res.0 }, reused res.1))))
    ⊎ (call_tool half_up plain options keep number_of no_number decimals by_id no_vector ratio
          (some bob)
          policy
          idle
          "report_memory_reuse"
          report_args
          8
          true
          5
        ≡ refused invalid_arguments)
call_tool_reuse_bound_example =
    call_tool_reuse_bound half_up plain options keep number_of no_number decimals by_id no_vector
      ratio policy bob idle "report_memory_reuse" report_args 8 true 5 (inr refl)

-- A server with one tool, which counts its calls.
abbrev counting : ℕ → String → Args → Tool (ℕ × Bool)
counting n name args = answered (n + 1, true)

abbrev call : Request
call = record {
  id = some (number 1);
  method = "tools/call";
  name = "reuse_memory";
  arguments = report_args;
}
