-- ===== src/Agents/Isolation.antt =====
-- What an agent's task may depend on: a baseline agent never reads the memory, and the others read the
-- memories of their own scope.
use action_cloud.Prelude.{
  ℕ, ◌+◌, ◌≡◌, sym, String, string_eq, true, false, Option, none, some, List, [], arith,
  Option-cases, Bool-cases, inl, inr, All, All-imp, subst,
}
use mathlib.Core.List.{Memᴰ}
use action_cloud.Floats.{Floats}
use action_cloud.Schema.{is_visible_to}
use action_cloud.Judge.{Rounding}
use action_cloud.Store.{Vector, Row, Store}
use action_cloud.Store.Search.{Engine}
use action_cloud.Pipeline.{Enrichers}
use action_cloud.Service.{System, Options, prepare_context, policy_params}
use action_cloud.Service.Prompt.{Allowed, prepare_context_governed}
use action_cloud.Client.{
  ContextReply, no_context, Client, or_own, raised, in_process, in_process_context,
}
use action_cloud.Benchmark.Verifier.{Procedures}
use action_cloud.Agents.{
  TaskSpec, Response, TaskOutcome, Agent, retrieve, run_task, solve, outcome_of, verdict_of,
}
use action_cloud.Agents.Steps.{run_task-Steps}
use action_cloud.Agents.Governed.{raised-some}

module _ (F : Floats) (complete : Option String → String → String → Option Response)
    (lower : String → String) (procedures : Procedures) where
  -- The outcome of a task that the model answers without memory, its experience stored as `stored`.
  unfoldable pub alone : Agent F → TaskSpec → ℕ → ℕ → Option TaskOutcome
  unfolding solve verdict_of outcome_of
  alone a spec retrieval_ms stored = elim (solve F complete a spec no_context) [
    | none ↦ none
    | some response ↦
        let (success, self_check) = verdict_of lower procedures spec.task_key response.text in
        some (
          outcome_of spec no_context response success self_check
            (retrieval_ms + response.latency_ms) stored)
  ]

  retrieves_nothing :
      {State : Type 0} (client : Client F State) (s t : State) (a : Agent F) (spec : TaskSpec)
      (now : ℕ) (ctx : ContextReply)
      → a.use_memory ≡ false
      → retrieve F client s a spec now ≡ some (t, ctx)
      → no_context ≡ ctx
  unfolding retrieve
  retrieves_nothing client s t a spec now ctx off h = ground (arith, off, h)

  -- The memory does not reach a baseline agent: whatever the client is and whatever its state holds, a
  -- task that ends without an exception has the outcome that the model, the grader and the task alone
  -- give, but for the id of the new experience.
  pub run_task-alone :
      {State : Type 0} (client : Client F State) (s t : State) (a : Agent F) (spec : TaskSpec)
      (draw : F.Float) (id retrieval_ms now : ℕ) (o : TaskOutcome)
      → a.use_memory ≡ false
      → run_task F client complete lower procedures s a spec draw id retrieval_ms now ≡ some (t, o)
      → alone a spec retrieval_ms o.experience_id ≡ some o
  unfolding alone outcome_of
  run_task-alone client s t a spec draw id retrieval_ms now o off h =
      let p =
        run_task-Steps F client complete lower procedures s t a spec draw id retrieval_ms now o h in
      let nothing = retrieves_nothing client s p.retrieved a spec now p.ctx off p.retrieves in
      let solved : solve F complete a spec no_context ≡ some p.response =
        subst (λ ctx. solve F complete a spec ctx ≡ some p.response) (sym nothing) p.solves in
      ground (arith, solved, nothing, p.answers)

  -- Nothing is injected into a baseline agent's prompt.
  pub run_task_nothing :
      {State : Type 0} (client : Client F State) (s t : State) (a : Agent F) (spec : TaskSpec)
      (draw : F.Float) (id retrieval_ms now : ℕ) (o : TaskOutcome)
      → a.use_memory ≡ false
      → run_task F client complete lower procedures s a spec draw id retrieval_ms now ≡ some (t, o)
      → (o.retrieved_ids ≡ []) × (o.injected_task_keys ≡ []) × (o.context_tokens ≡ 0)
  unfolding outcome_of
  run_task_nothing client s t a spec draw id retrieval_ms now o off h =
      let p =
        run_task-Steps F client complete lower procedures s t a spec draw id retrieval_ms now o h in
      let nothing = retrieves_nothing client s p.retrieved a spec now p.ctx off p.retrieves in
      (
        ground (arith, nothing, p.answers),
        ground (arith, nothing, p.answers),
        ground (arith, nothing, p.answers),
      )

module _ (F : Floats) (engine : Engine F) (ratio : String → String → F.Float)
    (embed : String → Vector) (r : Rounding) (enrichers : Enrichers) (options : Options)
    (fold : String → String) (own_id : String) where
  -- The id of a memory of the store that the agent may read: current, of run `scope`, and visible to it.
  abbrev pub IsReadable : Store → Agent F → String → ℕ → Type 0
  IsReadable s a scope id =
      (row : Row) × Memᴰ row s.experiences
      × (row.id ≡ id)
      × (row.superseded_by ≡ none)
      × (row.run_id ≡ scope)
      × (is_visible_to row.tier row.agent_id row.agent_role (some (or_own (some a.agent_id) own_id))
            (some a.role)
          ≡ true)

  readable :
      (s : Store) (a : Agent F) (scope : String) (ids : List ℕ)
      → All
          (Allowed F engine ratio embed s (
            policy_params F engine ratio embed a.policy
              (some (or_own (some a.agent_id) own_id))
              (some a.role)
              (some scope)))
          ids
      → All (IsReadable s a scope) ids
  readable s a scope ids h =
      All-imp ids
        (λ id (row, there, same, e).
          (row, there, same, e.current, ground (arith, e.scoped), e.visible))
        h

  context_scoped :
      (s t : System) (a : Agent F) (scope : String) (spec : TaskSpec) (now : ℕ) (ctx : ContextReply)
      → in_process_context F engine ratio embed r enrichers options fold own_id s spec.task
          a.agent_id a.role spec.technologies a.policy
          (some scope)
          now
        ≡ some (t, ctx)
      → All (IsReadable s.store a scope) ctx.injected_experience_ids
  unfolding in_process_context
  context_scoped s t a scope spec now ctx h =
      let caller = some (or_own (some a.agent_id) own_id) in
      let answer =
        prepare_context F engine ratio embed s.store spec.task caller (some a.role) a.policy
          spec.technologies (some scope) now in
      elim (Option-cases (raised answer)) [
        | inl e ↦ absurd (ground (arith, e))
        | inr ((u, prepared), e) ↦
            let same : prepared.context.injected_ids ≡ ctx.injected_experience_ids =
              ground (arith, e, h) in
            let (allowed, _) =
              prepare_context_governed F engine ratio embed s.store spec.task caller (some a.role)
                a.policy spec.technologies (some scope) now u prepared (raised-some answer e) in
            subst (All (IsReadable s.store a scope)) same (readable s.store a scope _ allowed)
      ]

  retrieved_scoped :
      (s t : System) (a : Agent F) (scope : String) (spec : TaskSpec) (now : ℕ) (ctx : ContextReply)
      → a.scope_run_id ≡ some scope
      → retrieve F (in_process F engine ratio embed r enrichers options fold own_id) s a spec now
        ≡ some (t, ctx)
      → All (IsReadable s.store a scope) ctx.injected_experience_ids
  unfolding retrieve in_process
  retrieved_scoped s t a scope spec now ctx scoped h = elim (Bool-cases a.use_memory) [
    | inl e ↦ context_scoped s t a scope spec now ctx (ground (arith, e, h, scoped))
    | inr e ↦
        let nothing : no_context ≡ ctx = ground (arith, e, h) in
        subst (λ (c : ContextReply). All (IsReadable s.store a scope) c.injected_experience_ids)
          nothing tt
  ]

  -- Arms and runs do not see each other: what a task of an agent with a scope is given are, id for id,
  -- memories of the store as the task found it, which are current, of the scope's run, and visible to
  -- that agent.
  pub run_task_scoped :
      (complete : Option String → String → String → Option Response) (lower : String → String)
      (procedures : Procedures) (s t : System) (a : Agent F) (scope : String) (spec : TaskSpec)
      (draw : F.Float) (id retrieval_ms now : ℕ) (o : TaskOutcome)
      → a.scope_run_id ≡ some scope
      → run_task F
          (in_process F engine ratio embed r enrichers options fold own_id)
          complete
          lower
          procedures
          s
          a
          spec
          draw
          id
          retrieval_ms
          now
        ≡ some (t, o)
      → All (IsReadable s.store a scope) o.retrieved_ids
  unfolding outcome_of
  run_task_scoped complete lower procedures s t a scope spec draw id retrieval_ms now o scoped h =
      let p =
        run_task-Steps F _ complete lower procedures s t a spec draw id retrieval_ms now o h in
      let given = retrieved_scoped s p.retrieved a scope spec now p.ctx scoped p.retrieves in
      subst (λ (o' : TaskOutcome). All (IsReadable s.store a scope) o'.retrieved_ids) p.answers
        given
