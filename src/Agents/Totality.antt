-- ===== src/Agents/Totality.antt =====
-- src/actioncloud/agents/base.py: when a task ends with an outcome.
use action_cloud.Prelude.{
  ℕ, ◌+◌, ◌≡◌, refl, String, string_eq, nat_eq, Bool, true, false, not, ◌&&◌, Option, some, List,
  [], ◌∷◌, arith, Bool-cases, inl, inr, All, All-imp,
}
use action_cloud.Floats.{Floats}
use action_cloud.Schema.{truthy}
use action_cloud.Schema.{Experience}
use action_cloud.Render.{Renders}
use action_cloud.Store.{Row}
use action_cloud.Judge.{Rounding}
use action_cloud.Store.{Vector}
use action_cloud.Store.Search.{Engine}
use action_cloud.Pipeline.{Enrichers}
use action_cloud.Service.{System, Options}
use action_cloud.Client.{Client, ContextReply, in_process}
use action_cloud.Benchmark.Verifier.{Procedures}
use action_cloud.Agents.{
  TaskSpec, Response, TaskOutcome, Agent, report_all, give_feedback, run_task, solve, contribution,
  result_of, verdict_of, outcome_of, feedback_observed,
}
use action_cloud.Governance.Persistence.{IsKnown, Keeps}
use action_cloud.Agents.Calls.{context_total, report_total, store_total}

result_named : (self_check : Bool) → truthy (result_of self_check) ≡ true
result_named true = refl
result_named false = refl

module _ (F : Floats) (engine : Engine F) (ratio : String → String → F.Float)
    (embed : String → Vector) (r : Rounding) (enrichers : Enrichers) (options : Options)
    (fold : String → String) (own_id : String) (synchronous : options.sync_write ≡ true)
    (answering : (exp : Experience) → enrichers.answers exp ≡ true) where
  abbrev service : Client F System
  service = in_process F engine ratio embed r enrichers options fold own_id

  reports_total :
      (sys : System) (ids : List ℕ) (success : Bool) (agent_id : String) (now : ℕ)
      → All (IsKnown sys.store) ids
      → truthy agent_id ≡ true
      → (t : System) × (report_all F service sys ids success agent_id now ≡ some t)
        × Keeps sys.store t.store
  unfolding report_all
  reports_total sys [] success agent_id now h named = (sys, refl, λ id known. known)
  reports_total sys (id ∷ ids) success agent_id now (known, rest) named =
      let (t, e, keeps) =
        report_total F engine ratio embed r enrichers options fold own_id synchronous answering sys
          id success agent_id now known named in
      let (u, g, keeps') =
        reports_total t ids success agent_id now (All-imp ids keeps rest) named in
      (u, ground (arith, e, g), λ j k. keeps' j (keeps j k))

  feedback_total :
      (sys : System) (a : Agent F) (observed : Bool) (injected : List ℕ) (success self_check : Bool)
      (id now : ℕ)
      → All (IsKnown sys.store) injected
      → IsKnown sys.store id
      → truthy a.agent_id ≡ true
      → (t : System) × (give_feedback F service sys a observed injected success self_check id now
          ≡ some t)
  unfolding give_feedback
  feedback_total sys a observed injected success self_check id now all known named =
      let (t, e, keeps) = reports_total sys injected success a.agent_id now all named in
      let (u, g, _) =
        report_total F engine ratio embed r enrichers options fold own_id synchronous answering t id
          false a.agent_id now (keeps id known) named in
      elim (Bool-cases (a.report_reuse && observed)) [
        | inr off ↦ (sys, ground (arith, off))
        | inl on ↦ elim (Bool-cases (not success && self_check)) [
          | inr fine ↦ (t, ground (arith, on, fine, e))
          | inl wrong ↦ (u, ground (arith, on, wrong, e, g))
        ]
      ]

  solve_total :
      (complete : Option String → String → String → Option Response) (a : Agent F) (spec : TaskSpec)
      (ctx : ContextReply)
      → ((seed : Option String) (prompt system : String)
          → (response : Response) × (complete seed prompt system ≡ some response)
            × (truthy response.text ≡ true))
      → (response : Response) × (solve F complete a spec ctx ≡ some response)
        × (truthy response.text ≡ true)
  unfolding solve
  solve_total complete a spec ctx answers = answers _ _ _

  -- An agent's task ends on every branch, with an outcome and without an exception, with the synchronous
  -- client: a task with a text, of an agent with a name, to which the model gives an answer that is not
  -- empty, where the extractor, the embedding provider and the database answer, and where the workflow of
  -- every stored memory renders, its prerequisites and pitfalls being texts and its steps a list.
  pub run_task_total :
      (complete : Option String → String → String → Option Response) (lower : String → String)
      (procedures : Procedures) (sys : System) (a : Agent F) (spec : TaskSpec) (draw : F.Float)
      (id retrieval_ms now : ℕ)
      → truthy a.agent_id ≡ true
      → truthy spec.task ≡ true
      → All (λ (row : Row). Renders row.workflow) sys.store.experiences
      → ((seed : Option String) (prompt system : String)
          → (response : Response) × (complete seed prompt system ≡ some response)
            × (truthy response.text ≡ true))
      → (t : System) × (o : TaskOutcome) × (run_task F service complete lower procedures sys a spec
            draw id retrieval_ms now
          ≡ some (t, o))
  unfolding run_task contribution
  run_task_total complete lower procedures sys a spec draw id retrieval_ms now named text renders
        answers =
      let (t, ctx, e, keeps, injected) =
        context_total F engine ratio embed r enrichers options fold own_id synchronous answering sys
          a spec now renders in
      let (response, g, nonempty) = solve_total complete a spec ctx answers in
      let (success, self_check) = verdict_of lower procedures spec.task_key response.text in
      let took = retrieval_ms + response.latency_ms in
      let (u, k, keeps', known) =
        store_total F engine ratio embed r enrichers options fold own_id synchronous answering t
          (contribution F a spec ctx response self_check took) id now named text nonempty
          (result_named self_check) in
      let (v, l) =
        feedback_total u a (feedback_observed F a draw) ctx.injected_experience_ids success
          self_check id now (All-imp ctx.injected_experience_ids keeps' injected) known named in
      (v, outcome_of spec ctx response success self_check took id, ground (arith, e, g, k, l))
