-- ===== src/Agents/Steps.antt =====
-- The parts of a task that an agent ends without an exception.
use action_cloud.Prelude.{ℕ, ◌+◌, ◌≡◌, String, Option, some, arith, Option-cases, inl, inr}
use action_cloud.Floats.{Floats}
use action_cloud.Client.{ContextReply, Client}
use action_cloud.Benchmark.Verifier.{Procedures}
use action_cloud.Agents.{
  TaskSpec, Response, TaskOutcome, Agent, give_feedback, retrieve, run_task, solve, contribution,
  outcome_of, verdict_of, feedback_observed,
}

module _ (F : Floats) {State : Type 0} (client : Client F State)
    (complete : Option String → String → String → Option Response) (lower : String → String)
    (procedures : Procedures) (s t : State) (a : Agent F) (spec : TaskSpec) (draw : F.Float)
    (id retrieval_ms now : ℕ) (o : TaskOutcome) where
  pub record Steps : Type 0 where
    pub retrieved : State
    pub ctx : ContextReply
    pub response : Response
    pub stored : State
    pub experience_id : ℕ
    pub retrieves : retrieve F client s a spec now ≡ some (retrieved, ctx)
    pub solves : solve F complete a spec ctx ≡ some response
    pub stores :
        let (success, self_check) = verdict_of lower procedures spec.task_key response.text in
        client.store retrieved
          (contribution F a spec ctx response self_check (retrieval_ms + response.latency_ms))
          id
          now
        ≡ some (stored, experience_id)
    pub reports :
        let (success, self_check) = verdict_of lower procedures spec.task_key response.text in
        give_feedback F client stored a
          (feedback_observed F a draw)
          ctx.injected_experience_ids
          success
          self_check
          experience_id
          now
        ≡ some t
    pub answers :
        let (success, self_check) = verdict_of lower procedures spec.task_key response.text in
        outcome_of spec ctx response success self_check
          (retrieval_ms + response.latency_ms)
          experience_id
        ≡ o

  pub run_task-Steps :
      run_task F client complete lower procedures s a spec draw id retrieval_ms now ≡ some (t, o)
      → Steps
  unfolding run_task
  run_task-Steps h = elim (Option-cases (retrieve F client s a spec now)) [
    | inl e ↦ absurd (ground (arith, e))
    | inr ((u, ctx), e) ↦ elim (Option-cases (solve F complete a spec ctx)) [
      | inl g ↦ absurd (ground (arith, e, g))
      | inr (response, g) ↦
          let (success, self_check) = verdict_of lower procedures spec.task_key response.text in
          elim (Option-cases (
            client.store u
              (contribution F a spec ctx response self_check (retrieval_ms + response.latency_ms))
              id now)) [
                | inl k ↦ absurd (ground (arith, e, g, k))
                | inr ((v, eid), k) ↦
                    elim (Option-cases (
                      give_feedback F client v a (feedback_observed F a draw)
                        ctx.injected_experience_ids success self_check eid now)) [
                          | inl l ↦ absurd (ground (arith, e, g, k, l))
                          | inr (w, l) ↦ record {
                            retrieved = u;
                            ctx = ctx;
                            response = response;
                            stored = v;
                            experience_id = eid;
                            retrieves = e;
                            solves = g;
                            stores = k;
                            reports = ground (arith, e, g, k, l, h);
                            answers = ground (arith, e, g, k, l, h);
                          }
                        ]
              ]
    ]
  ]
