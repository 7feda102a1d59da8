-- ===== src/Mcp/Tools.antt =====
-- src/actioncloud/mcp_server.py: call_tool and handle_message over the service. The texts that a tool
-- makes of an answer are left out: a call answers with the value that it prints. An argument of
-- another JSON type than the tool's schema gives it is an internal error. `uuid_of` is the parsing of
-- a UUID, `int_of_text` that of a decimal numeral, and `fold` the folding of tags.
use action_cloud.Prelude.{
  ℕ, String, string_eq, Bool, true, false, Option, none, some, List, [], ◌==◌, if◌then◌else◌,
}
use action_cloud.Floats.{Floats}
use action_cloud.Schema.{
  coding, MemoryTier, private, agent, shared, validated, organizational, ExperienceCreate,
  actioncloud,
}
use action_cloud.Text.{chars}
use action_cloud.Schema.Tags.{validate}
use action_cloud.Judge.{Rounding}
use action_cloud.Store.{Vector, Store}
use action_cloud.Store.Search.{Engine, Candidate}
use action_cloud.Auth.{Principal}
use action_cloud.Pipeline.{Enrichers}
use action_cloud.Builder.{MemorySelectionPolicy}
use action_cloud.Service.{
  ServiceError, reporter_required, experience_not_found, could_not_queue, processing_failed,
  rendering_failed, database_error, Result, ok, err, System, Options, Stored, ReuseReply, Prepared,
  store_experience, record_reuse, search_memory, prepare_context,
}
use action_cloud.Mcp.{
  Value, null, text, number, boolean, texts, Args, Failure, invalid_arguments, not_found,
  internal_error, unknown_tool, Tool, answered, refused, ◌>>=◌, lookup, arg, required, role_arg,
  is_truthy, bind,
}

-- TOOL_ALIASES
unfoldable pub tool_alias : String → String
tool_alias name =
    if name == "search_fleet_memory"
    then "search_memory"
    else if name == "store_experience"
    then "remember_experience"
    else if name == "report_memory_reuse"
    then "reuse_memory"
    else if name == "get_fleet_metrics"
    then "get_memory_metrics"
    else name

abbrev pub text_value : Value → Tool String
text_value (text t) = answered t
text_value _ = refused internal_error

-- An optional text, by args.get.
abbrev pub text_or_none : Option Value → Tool (Option String)
text_or_none none = answered none
text_or_none (some v) = elim v [
  | null ↦ answered none
  | text t ↦ answered (some t)
  | _ ↦ refused internal_error
]

-- args.get("technologies") or [], joined later, a text by its characters.
abbrev pub texts_or_empty : Option Value → Tool (List String)
texts_or_empty none = answered []
texts_or_empty (some v) = elim v [
  | texts ts ↦ answered ts
  | text t ↦ answered (chars t)
  | w ↦ if is_truthy w then refused internal_error else answered []
]

-- The fields of ExperienceCreate: a ValidationError is a ValueError.
abbrev pub text_field : Value → Tool String
text_field (text t) = answered t
text_field _ = refused invalid_arguments

abbrev pub optional_text_field : Option Value → Tool (Option String)
optional_text_field none = answered none
optional_text_field (some v) = elim v [
  | null ↦ answered none
  | text t ↦ answered (some t)
  | _ ↦ refused invalid_arguments
]

abbrev pub texts_field : Option Value → Tool (List String)
texts_field none = answered []
texts_field (some v) = elim v [
  | texts ts ↦ answered ts
  | w ↦ if is_truthy w then refused invalid_arguments else answered []
]

abbrev pub or_value : Option Value → Value → Value
or_value none v = v
or_value (some w) v = w

abbrev pub tier_named : Value → Tool MemoryTier
tier_named (text t) =
    if t == "private"
    then answered private
    else if t == "agent"
    then answered agent
    else if t == "shared"
    then answered shared
    else if t == "validated"
    then answered validated
    else if t == "organizational"
    then answered organizational
    else refused invalid_arguments
tier_named _ = refused invalid_arguments

abbrev pub failure_of : ServiceError → Failure
failure_of reporter_required = invalid_arguments
failure_of experience_not_found = not_found
failure_of could_not_queue = internal_error
failure_of processing_failed = internal_error
failure_of rendering_failed = internal_error
failure_of database_error = internal_error

abbrev pub or_failure {ℓ} : {A : Type ℓ} → Result A → Tool A
or_failure (ok a) = answered a
or_failure (err e) = refused (failure_of e)

abbrev pub or_invalid {ℓ} : {A : Type ℓ} → Option A → Tool A
or_invalid none = refused invalid_arguments
or_invalid (some a) = answered a

module _ (r : Rounding) (enrichers : Enrichers) (options : Options) (fold : String → String)
    (uuid_of : Value → Option ℕ) (int_of_text : String → Option ℕ) where
  -- int(v)
  abbrev pub int_value : Value → Tool ℕ
  int_value (number n) = answered n
  int_value (boolean true) = answered 1
  int_value (boolean false) = answered 0
  int_value (text t) = or_invalid (int_of_text t)
  int_value _ = refused internal_error

  -- remember_experience
  unfoldable pub remember_payload : Args → Tool ExperienceCreate
  unfolding arg lookup role_arg
  remember_payload args = do
    id_value ← required (arg args "agent_id")
    agent_id ← text_field id_value
    role ← role_arg args (some coding)
    agent_role ← or_invalid role
    task_value ← required (arg args "task")
    task ← text_field task_value
    action_value ← required (arg args "action")
    action ← text_field action_value
    result_value ← required (arg args "result")
    result ← text_field result_value
    success ← required (arg args "success")
    problem ← optional_text_field (lookup args "problem")
    solution ← optional_text_field (lookup args "solution")
    technologies ← texts_field (lookup args "technologies")
    or_invalid (
        validate fold (record {
          agent_id = agent_id;
          agent_role = agent_role;
          task = task;
          problem = problem;
          action = action;
          solution = solution;
          result = result;
          tools_used = [];
          technologies = technologies;
          success = is_truthy success;
          tokens_input = 0;
          tokens_output = 0;
          tool_calls = 0;
          execution_time_ms = 0;
          cost_usd = 0;
          run_id = "mcp-session";
          system = actioncloud;
          task_key = none;
          retrieved_experience_ids = [];
        }))

  unfoldable pub remember_experience : System → Args → ℕ → Bool → ℕ → Tool (System × Stored)
  unfolding remember_payload
  remember_experience sys args id accepted now = do
    payload ← remember_payload args
    or_failure (store_experience r enrichers options sys payload id accepted now)

  -- reuse_memory
  unfoldable pub reuse_memory : Store → Args → ℕ → Tool (Store × ReuseReply)
  unfolding arg
  reuse_memory s args now = do
    id_value ← required (arg args "experience_id")
    id ← or_invalid (uuid_of id_value)
    success ← required (arg args "success")
    reporter_value ← required (arg args "agent_id")
    reporter ← text_value reporter_value
    or_failure (record_reuse r s id (is_truthy success) (some reporter) now)

  module _ (F : Floats) (engine : Engine F) (embed : String → Vector) where
    -- search_memory
    unfoldable pub search_tool : Store → Args → Tool (List (Candidate F))
    unfolding arg lookup role_arg
    search_tool s args = do
      min_tier ← tier_named (or_value (lookup args "min_tier") (text "private"))
      query_value ← required (arg args "task")
      query ← text_value query_value
      limit ← int_value (or_value (lookup args "limit") (number 5))
      agent_id ← text_or_none (lookup args "agent_id")
      role ← role_arg args none
      answered (
          search_memory F engine embed s query [] (record {
            limit = limit;
            min_tier = min_tier;
            requester_id = agent_id;
            requester_role = role;
            scope_run_id = none;
          }))

    module _ (ratio : String → String → F.Float) where
      -- get_memory_context
      unfoldable pub context_tool :
          MemorySelectionPolicy F → Store → Args → ℕ → Tool (Store × Prepared F engine ratio embed)
      unfolding arg lookup role_arg
      context_tool from_env s args now = do
        k_inject ← int_value (or_value (arg args "k_inject") (number from_env.max_context_memories))
        token_budget ←
            int_value (or_value (lookup args "token_budget") (number from_env.context_token_budget))
        query_value ← required (arg args "task")
        query ← text_value query_value
        agent_id ← text_or_none (lookup args "agent_id")
        role ← role_arg args none
        technologies ← texts_or_empty (lookup args "technologies")
        or_failure (
            prepare_context F engine ratio embed s query agent_id role
              (record from_env {
                max_context_memories = k_inject;
                context_token_budget = token_budget;
              })
              technologies none now)

      pub data Answer : Type 0 where
        context : Prepared F engine ratio embed → Answer
        found : List (Candidate F) → Answer
        remembered : Stored → Answer
        reused : ReuseReply → Answer
        metrics : Option Value → Answer

      -- The dispatch on the tool's name, after the binding.
      abbrev pub run_tool :
          MemorySelectionPolicy F → System → String → Args → ℕ → Bool → ℕ → Tool (System × Answer)
      run_tool from_env sys name args id accepted now =
          if name == "get_memory_context"
          then (context_tool from_env sys.store args now >>= λ res.
              answered (record sys { store = res.0 }, context res.1))
          else if name == "search_memory"
          then (search_tool sys.store args >>= λ cs. answered (sys, found cs))
          else if name == "remember_experience"
          then (remember_experience sys args id accepted now >>= λ res.
              answered (res.0, remembered res.1))
          else if name == "reuse_memory"
          then (reuse_memory sys.store args now >>= λ res.
              answered (record sys { store = res.0 }, reused res.1))
          else if name == "get_memory_metrics"
          then answered (sys, metrics (lookup args "run_id"))
          else refused unknown_tool

      unfoldable pub call_tool :
          Option Principal
          → MemorySelectionPolicy F
          → System
          → String
          → Args
          → ℕ
          → Bool
          → ℕ
          → Tool (System × Answer)
      unfolding tool_alias bind context_tool search_tool remember_experience reuse_memory
      call_tool principal from_env sys name args id accepted now = do
        bound ← bind principal args
        run_tool from_env sys (tool_alias name) bound id accepted now
