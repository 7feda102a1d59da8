-- ===== src/Governance/Program/Tools.antt =====
-- A tool of the MCP server writes what the service writes.
use action_cloud.Prelude.{
  ℕ, ◌≡◌, String, string_eq, Bool, true, Option, none, some, ◌==◌, All, if_either,
}
use action_cloud.Floats.{Floats}
use action_cloud.Judge.{Rounding}
use action_cloud.Store.{Vector, Store}
use action_cloud.Store.Search.{Engine}
use action_cloud.Auth.{Principal}
use action_cloud.Pipeline.{Enrichers}
use action_cloud.Builder.{MemorySelectionPolicy}
use action_cloud.Service.{System, Options, Stored, ReuseReply, Prepared}
use action_cloud.Mcp.{
  Value, Tool, answered, refused, Args, is_truthy, bind, ◌>>=◌, required, arg, lookup, role_arg,
  number,
}
use action_cloud.Mcp.Tools.{
  text_value, text_or_none, texts_or_empty, or_value, or_invalid, int_value, context, found,
  remembered, reused, tool_alias, call_tool, run_tool, remember_payload, remember_experience,
  reuse_memory, search_tool, context_tool, Answer,
}
use action_cloud.Governance.{Reach, here}
use action_cloud.Governance.Program.Histories.{
  IsPublished, Gives, Lawful, Yields-failure, record_reuse-Reach, prepare_context-Reach,
  store_experience-Lawful,
}

Gives-bind {ℓ κ} :
    {A : Type ℓ} {B : Type κ} (P : B → Type 0) (m : Tool A) (f : A → Tool B)
    → ((a : A) → Gives P (f a))
    → Gives P (m >>= f)
Gives-bind P (answered a) f h = h a
Gives-bind P (refused n) f h = tt

Gives-then {ℓ κ} :
    {A : Type ℓ} {B : Type κ} (Q : A → Type 0) (P : B → Type 0) (m : Tool A) (f : A → Tool B)
    → Gives Q m
    → ((a : A) → Q a → Gives P (f a))
    → Gives P (m >>= f)
Gives-then Q P (answered a) f k h = h a k
Gives-then Q P (refused n) f k h = tt

module _ (F : Floats) (engine : Engine F) (ratio : String → String → F.Float)
    (embed : String → Vector) (r : Rounding) (enrichers : Enrichers) (options : Options)
    (governed : options.governance ≡ true) (fold : String → String) (uuid_of : Value → Option ℕ)
    (int_of_text : String → Option ℕ) (from_env : MemorySelectionPolicy F) where
  remember-Lawful :
      (sys : System) (args : Args) (id : ℕ) (accepted : Bool) (now : ℕ)
      → All IsPublished sys.queue
      → Gives
          (λ ((t, stored) : System × Stored).
            Lawful F engine ratio embed r enrichers options governed sys t)
          (remember_experience r enrichers options fold uuid_of int_of_text sys args id accepted
            now)
  unfolding remember_experience
  remember-Lawful sys args id accepted now h =
      let P : System × Stored → Type 0 = λ ((t, stored) : System × Stored).
        Lawful F engine ratio embed r enrichers options governed sys t in
      Gives-bind P (remember_payload r enrichers options fold uuid_of int_of_text args) _ λ payload.
        Yields-failure P _ (
          store_experience-Lawful F engine ratio embed r enrichers options governed sys payload id
            accepted now h)

  reuse-Reach :
      (s : Store) (args : Args) (now : ℕ)
      → Gives
          (λ ((t, reply) : Store × ReuseReply). Reach r s t)
          (reuse_memory r enrichers options fold uuid_of int_of_text s args now)
  unfolding reuse_memory
  reuse-Reach s args now =
      let P : Store × ReuseReply → Type 0 = λ ((t, reply) : Store × ReuseReply). Reach r s t in
      Gives-bind P (required (arg args "experience_id")) _ λ id_value.
        Gives-bind P (or_invalid (uuid_of id_value)) _ λ id.
          Gives-bind P (required (arg args "success")) _ λ success.
            Gives-bind P (required (arg args "agent_id")) _ λ reporter_value.
              Gives-bind P (text_value reporter_value) _ λ reporter. Yields-failure P _ (
                record_reuse-Reach F engine ratio embed r enrichers options governed s id
                  (is_truthy success) (some reporter) now)

  context-Reach :
      (s : Store) (args : Args) (now : ℕ)
      → Gives
          (λ ((t, p) : Store × Prepared F engine ratio embed). Reach r s t)
          (context_tool r enrichers options fold uuid_of int_of_text F engine embed ratio from_env s
            args now)
  unfolding context_tool
  context-Reach s args now =
      let P : Store × Prepared F engine ratio embed → Type 0 =
        λ ((t, p) : Store × Prepared F engine ratio embed). Reach r s t in
      let int_of = int_value r enrichers options fold uuid_of int_of_text in
      Gives-bind P (int_of (or_value (arg args "k_inject") (number from_env.max_context_memories)))
        _
        λ k_inject.
          Gives-bind P
            (int_of (or_value (lookup args "token_budget") (number from_env.context_token_budget)))
            _
            λ token_budget. Gives-bind P (required (arg args "task")) _ λ query_value.
              Gives-bind P (text_value query_value) _ λ query.
                Gives-bind P (text_or_none (lookup args "agent_id")) _ λ agent_id.
                  Gives-bind P (role_arg args none) _ λ role.
                    Gives-bind P (texts_or_empty (lookup args "technologies")) _ λ technologies.
                      Yields-failure P _ (
                        prepare_context-Reach F engine ratio embed r enrichers options governed s
                          query agent_id role
                          (record from_env {
                            max_context_memories = k_inject;
                            context_token_budget = token_budget;
                          })
                          technologies none now)

  module _ (sys : System) (published : All IsPublished sys.queue) where
    abbrev WrittenBy :
        System × Answer r enrichers options fold uuid_of int_of_text F engine embed ratio → Type 0
    WrittenBy (t, a) = Lawful F engine ratio embed r enrichers options governed sys t

    run_tool-Lawful :
        (name : String) (args : Args) (id : ℕ) (accepted : Bool) (now : ℕ)
        → Gives WrittenBy (
            run_tool r enrichers options fold uuid_of int_of_text F engine embed ratio from_env sys
              name args id accepted now)
    run_tool-Lawful name args id accepted now =
        let context_case =
          Gives-then (λ ((t, p) : Store × Prepared F engine ratio embed). Reach r sys.store t)
            WrittenBy
            (context_tool r enrichers options fold uuid_of int_of_text F engine embed ratio from_env
              sys.store args now)
            (λ res. answered (record sys { store = res.0 }, context res.1))
            (context-Reach sys.store args now) (λ res history. (history, published)) in
        let search_case =
          Gives-bind WrittenBy
            (search_tool r enrichers options fold uuid_of int_of_text F engine embed sys.store args)
            (λ cs. answered (sys, found cs)) (λ cs. (here, published)) in
        let remember_case =
          Gives-then
            (λ ((t, stored) : System × Stored).
              Lawful F engine ratio embed r enrichers options governed sys t)
            WrittenBy
            (remember_experience r enrichers options fold uuid_of int_of_text sys args id accepted
              now)
            (λ res. answered (res.0, remembered res.1))
            (remember-Lawful sys args id accepted now published) (λ res lawful. lawful) in
        let reuse_case =
          Gives-then (λ ((t, reply) : Store × ReuseReply). Reach r sys.store t) WrittenBy
            (reuse_memory r enrichers options fold uuid_of int_of_text sys.store args now)
            (λ res. answered (record sys { store = res.0 }, reused res.1))
            (reuse-Reach sys.store args now) (λ res history. (history, published)) in
        if_either (Gives WrittenBy) (name == "get_memory_context") context_case (
          if_either (Gives WrittenBy) (name == "search_memory") search_case (
            if_either (Gives WrittenBy) (name == "remember_experience") remember_case (
              if_either (Gives WrittenBy) (name == "reuse_memory") reuse_case
                (if_either (Gives WrittenBy) (name == "get_memory_metrics") (here, published) tt))))

    pub call_tool-Lawful :
        (principal : Option Principal) (name : String) (args : Args) (id : ℕ) (accepted : Bool)
        (now : ℕ)
        → Gives WrittenBy (
            call_tool r enrichers options fold uuid_of int_of_text F engine embed ratio principal
              from_env sys name args id accepted now)
    unfolding call_tool
    call_tool-Lawful principal name args id accepted now =
        Gives-bind WrittenBy (bind principal args) _
          λ bound. run_tool-Lawful (tool_alias name) bound id accepted now
