-- ===== src/Agents/Governed.antt =====
-- src/actioncloud/agents/base.py over InProcessClient: what a task does to the store.
use action_cloud.Prelude.{
  ℕ, ◌≡◌, String, Bool, true, false, Option, some, List, [], ◌∷◌, arith, Option-cases, not, ◌&&◌,
  Bool-cases, sym, inl, inr,
}
use action_cloud.Floats.{Floats}
use action_cloud.Schema.{AgentRole, ExperienceCreate, new_experience}
use action_cloud.Schema.Tags.{validate}
use action_cloud.Judge.{Rounding}
use action_cloud.Store.{Vector}
use action_cloud.Store.Search.{Engine}
use action_cloud.Pipeline.{Enrichers, process_experience}
use action_cloud.Builder.{MemorySelectionPolicy}
use action_cloud.Service.{
  Result, ok, err, System, Options, prepare_context, record_reuse, store_experience,
}
use action_cloud.Client.{
  ContextReply, Client, raised, in_process, in_process_context, in_process_report, in_process_store,
  or_own,
}
use action_cloud.Governance.Histories.{Reach-trans, prepare-Reach}
use action_cloud.Governance.{stores, reports, Reach, here, next}
use action_cloud.Agents.{
  TaskSpec, Response, TaskOutcome, Agent, report_all, give_feedback, retrieve, run_task,
}
use action_cloud.Agents.Steps.{run_task-Steps}
use action_cloud.Benchmark.Verifier.{Procedures}

pub raised-some : {A : Type 0} {a : A} (m : Result A) → raised m ≡ some a → m ≡ ok a
raised-some (ok a) h = ground (arith, h)
raised-some (err e) h = absurd (ground (arith, h))

module _ (F : Floats) (engine : Engine F) (ratio : String → String → F.Float)
    (embed : String → Vector) (r : Rounding) (enrichers : Enrichers) (options : Options)
    (fold : String → String) (own_id : String) (synchronous : options.sync_write ≡ true)
    (judged : options.governance ≡ true) where
  abbrev service : Client F System
  service = in_process F engine ratio embed r enrichers options fold own_id

  context-Reach :
      (s t : System) (query agent_id : String) (role : AgentRole) (technologies : List String)
      (policy : MemorySelectionPolicy F) (scope_run_id : Option String) (now : ℕ)
      (ctx : ContextReply)
      → service.context s query agent_id role technologies policy scope_run_id now ≡ some (t, ctx)
      → Reach r s.store t.store
  unfolding in_process in_process_context
  context-Reach s t query agent_id role technologies policy scope_run_id now ctx h =
      let caller = or_own (some agent_id) own_id in
      let answer =
        prepare_context F engine ratio embed s.store query (some caller) (some role) policy
          technologies scope_run_id now in
      elim (Option-cases (raised answer)) [
        | inl e ↦ absurd (ground (arith, e))
        | inr ((u, prepared), e) ↦
            let same : u ≡ t.store = ground (arith, e) in
            let written = raised-some answer e in
            rw (sym same) (
              prepare-Reach F engine ratio embed r s.store u query (some caller) (some role) policy
                technologies scope_run_id now prepared written)
      ]

  report-Reach :
      (s t : System) (id : ℕ) (success : Bool) (agent_id : String) (now : ℕ)
      → service.report_reuse s id success agent_id now ≡ some t
      → Reach r s.store t.store
  unfolding in_process in_process_report
  report-Reach s t id success agent_id now h =
      let caller = or_own (some agent_id) own_id in
      let answer = record_reuse r s.store id success (some caller) now in
      elim (Option-cases (raised answer)) [
        | inl e ↦ absurd (ground (arith, e))
        | inr ((u, reply), e) ↦
            let same : u ≡ t.store = ground (arith, e) in
            rw (sym same) (next here (reports id success (some caller) now (raised-some answer e)))
      ]

  store-Reach :
      (s t : System) (fields : ExperienceCreate) (id now stored : ℕ)
      → service.store s fields id now ≡ some (t, stored)
      → Reach r s.store t.store
  unfolding in_process in_process_store store_experience
  store-Reach s t fields id now stored h =
      elim (Option-cases
        (validate fold (record fields { agent_id = or_own (some (fields.agent_id)) own_id }))) [
          | inl e ↦ absurd (ground (arith, e))
          | inr (payload, e) ↦
              let same : (process_experience r enrichers s.store (new_experience payload id)
                    options.governance options.author_prior now).0
                  ≡ t.store =
                ground (arith, e, synchronous) in
              rw (sym same)
                (rw judged (next here (stores enrichers payload id options.author_prior now)))
        ]

  reports-Reach :
      (s t : System) (ids : List ℕ) (success : Bool) (agent_id : String) (now : ℕ)
      → report_all F service s ids success agent_id now ≡ some t
      → Reach r s.store t.store
  unfolding report_all
  reports-Reach s t [] success agent_id now h =
      let same : s ≡ t = ground (arith, h) in rw (sym same) here
  reports-Reach s t (id ∷ ids) success agent_id now h =
      elim (Option-cases (service.report_reuse s id success agent_id now)) [
        | inl e ↦ absurd (ground (arith, e))
        | inr (u, e) ↦
            Reach-trans (report-Reach s u id success agent_id now e)
              (reports-Reach u t ids success agent_id now (ground (arith, e, h)))
      ]

  feedback-Reach :
      (s t : System) (a : Agent F) (observed : Bool) (injected : List ℕ) (success self_check : Bool)
      (experience_id now : ℕ)
      → give_feedback F service s a observed injected success self_check experience_id now ≡ some t
      → Reach r s.store t.store
  unfolding give_feedback
  feedback-Reach s t a observed injected success self_check experience_id now h =
      elim (Bool-cases (a.report_reuse && observed)) [
        | inr e ↦ let same : s ≡ t = ground (arith, e, h) in rw (sym same) here
        | inl e ↦ elim (Option-cases (report_all F service s injected success a.agent_id now)) [
          | inl g ↦ absurd (ground (arith, e, g))
          | inr (u, g) ↦
              Reach-trans (reports-Reach s u injected success a.agent_id now g)
                (elim (Bool-cases (not success && self_check)) [
                  | inr k ↦ let same : u ≡ t = ground (arith, e, g, k) in rw (sym same) here
                  | inl k ↦
                      report-Reach u t experience_id false a.agent_id now
                        (ground (arith, e, g, k, h))
                ])
        ]
      ]

  retrieve-Reach :
      (s t : System) (a : Agent F) (spec : TaskSpec) (now : ℕ) (ctx : ContextReply)
      → retrieve F service s a spec now ≡ some (t, ctx)
      → Reach r s.store t.store
  unfolding retrieve
  retrieve-Reach s t a spec now ctx h = elim (Bool-cases a.use_memory) [
    | inr e ↦ let same : s ≡ t = ground (arith, e, h) in rw (sym same) here
    | inl e ↦
        context-Reach s t spec.task a.agent_id a.role spec.technologies a.policy a.scope_run_id now
          ctx (ground (arith, e, h))
  ]

  -- Whatever an agent does in a task, the memory sees a history of the pipeline's stores, recorded
  -- injections and judged reports: with the synchronous and governed client, a task that ends without
  -- an exception leads from its store along such a history.
  pub run_task-Reach :
      (complete : Option String → String → String → Option Response) (lower : String → String)
      (procedures : Procedures) (s t : System) (a : Agent F) (spec : TaskSpec) (draw : F.Float)
      (id retrieval_ms now : ℕ) (o : TaskOutcome)
      → run_task F service complete lower procedures s a spec draw id retrieval_ms now ≡ some (t, o)
      → Reach r s.store t.store
  run_task-Reach complete lower procedures s t a spec draw id retrieval_ms now o h =
      let p =
        run_task-Steps F service complete lower procedures s t a spec draw id retrieval_ms now o
          h in
      Reach-trans (retrieve-Reach s p.retrieved a spec now p.ctx p.retrieves) (
        Reach-trans (store-Reach p.retrieved p.stored _ id now p.experience_id p.stores) (
          feedback-Reach p.stored t a _ p.ctx.injected_experience_ids _ _ p.experience_id now
            p.reports))
