-- ===== src/Benchmark/Harness/Turns.antt =====
-- The turns of an arm's loop: what one does, and the induction over them.
use action_cloud.Prelude.{
  ℕ, suc, ◌+◌, ◌≡◌, refl, subst, subst₂, String, string_eq, nat_eq, Bool, Option, some, List, [],
  ◌∷◌, ◌==◌, arith, Option-cases, Bool-cases, inl, inr, length,
}
use action_cloud.Floats.{Floats}
use action_cloud.Judge.{Rounding}
use action_cloud.Store.{Vector}
use action_cloud.Store.Search.{Engine}
use action_cloud.Pipeline.{Enrichers}
use action_cloud.Service.{System}
use action_cloud.Benchmark.Verifier.{Procedures}
use action_cloud.Agents.{TaskOutcome, Response, Agent, run_task}
use action_cloud.Agents.Roles.{init, build_agent_role}
use action_cloud.Benchmark.Harness.{
  Instance, Workload, Turn, RunState, count_outcome, ArmConfig, policy, options_of, spec_of,
  service_of, turn, turns, Task, ArmResult, run_arm, run_name, instances, fresh_state, result_of,
}

module _ (F : Floats) (engine : Engine F) (ratio : String → String → F.Float)
    (embed : String → Vector) (r : Rounding) (enrichers : Enrichers) (author_prior : Bool)
    (fold : String → String) (complete : Option String → String → String → Option Response)
    (lower : String → String) (procedures : Procedures) (draws : String → F.Float) (env : ℕ → Turn)
    (arm : ArmConfig F) (run_id : String) (w : Workload) where
  -- The task that a turn runs, and the agent that runs it.
  pub record IsTurn (st st' : RunState) (i : ℕ) (t : Instance) : Type 0 where
    pub a : Agent F
    pub system : System
    pub o : TaskOutcome
    pub memory : a.use_memory ≡ arm.use_memory
    pub scope : a.scope_run_id ≡ some run_id
    pub runs :
        run_task F
          (service_of F engine ratio embed r enrichers author_prior fold complete lower procedures
            draws env arm)
          complete
          lower
          procedures
          st.system
          a
          (spec_of F t)
          (draws t.instance_id)
          (env i).id
          (env i).retrieval_ms
          (env i).now
        ≡ some (system, o)
    pub counts : count_outcome st t.task_key system o ≡ st'

  pub turn-IsTurn :
      (st st' : RunState) (i : ℕ) (t : Instance)
      → turn F engine ratio embed r enrichers author_prior fold complete lower procedures draws env
          arm run_id w st i t
        ≡ some st'
      → IsTurn st st' i t
  unfolding turn options_of init
  turn-IsTurn st st' i t h = elim (Bool-cases (w.agents_per_role == 0)) [
    | inl e ↦ absurd (ground (arith, e))
    | inr e ↦
        let o = options_of F arm run_id w t i in
        let (c, _, built, _) = build_agent_role F (policy F arm) t.role o in
        let a = init F (policy F arm) c o in
        elim (Option-cases (
          run_task F
            (service_of F engine ratio embed r enrichers author_prior fold complete lower procedures
              draws env arm)
            complete lower procedures st.system a (spec_of F t) (draws t.instance_id) (env i).id
            (env i).retrieval_ms (env i).now)) [
              | inl g ↦ absurd (ground (arith, e, built, g))
              | inr ((system, o), g) ↦ record {
                a = a;
                system = system;
                o = o;
                memory = refl;
                scope = refl;
                runs = g;
                counts = ground (arith, e, built, g, h);
              }
            ]
  ]

  -- What every turn keeps, the run keeps; `P n st` after n turns.
  pub turns-induction {ℓ} :
      (P : ℕ → RunState → Type ℓ)
      → ((st st' : RunState) (i : ℕ) (t : Instance) → IsTurn st st' i t → P i st → P (suc i) st')
      → (st st' : RunState) (i : ℕ) (ts : List Instance)
      → turns F engine ratio embed r enrichers author_prior fold complete lower procedures draws env
          arm run_id w st i ts
        ≡ some st'
      → P i st
      → P (i + length ts) st'
  unfolding turns
  turns-induction P keeps st st' i [] h p =
      let e : i ≡ i + 0 = omega arith in
      let same : st ≡ st' = ground (arith, h) in subst₂ P e same p
  turns-induction P keeps st st' i (t ∷ ts) h p =
      elim (Option-cases (
        turn F engine ratio embed r enrichers author_prior fold complete lower procedures draws env
          arm run_id w st i t)) [
            | inl e ↦ absurd (ground (arith, e))
            | inr (after, e) ↦
                let n : suc i + length ts ≡ i + length (t ∷ ts) = omega arith in
                subst (λ k. P k st') n
                  (turns-induction P keeps after st' (suc i) ts (ground (arith, e, h))
                    (keeps st after i t (turn-IsTurn st after i t e) p))
          ]

module _ (F : Floats) (engine : Engine F) (ratio : String → String → F.Float)
    (embed : String → Vector) (r : Rounding) (enrichers : Enrichers) (author_prior : Bool)
    (fold : String → String) (complete : Option String → String → String → Option Response)
    (lower : String → String) (procedures : Procedures) (draws : String → F.Float)
    (env : ℕ → Turn) where
  -- The state and the answer of a run, from its turns.
  pub run_arm-turns :
      (shuffle : String → List Task → List Task) (tasks : List Task) (sys : System)
      (arm : ArmConfig F) (w : Workload) (experiment_id : String) (st : RunState)
      (result : ArmResult)
      → run_arm F engine ratio embed r enrichers author_prior fold complete lower procedures draws
          env shuffle tasks sys arm w experiment_id
        ≡ some (st, result)
      → (turns F engine ratio embed r enrichers author_prior fold complete lower procedures draws
            env arm
            (run_name F experiment_id arm w)
            w
            (fresh_state sys)
            0
            (instances shuffle tasks w)
          ≡ some st)
        × (result_of r (run_name F experiment_id arm w) st ≡ some result)
  unfolding run_arm
  run_arm-turns shuffle tasks sys arm w experiment_id st result h =
      let run_id = run_name F experiment_id arm w in
      elim (Option-cases (
        turns F engine ratio embed r enrichers author_prior fold complete lower procedures draws env
          arm run_id w (fresh_state sys) 0 (instances shuffle tasks w))) [
            | inl e ↦ absurd (ground (arith, e))
            | inr (st', e) ↦ elim (Option-cases (result_of r run_id st')) [
              | inl g ↦ absurd (ground (arith, e, g))
              | inr (res, g) ↦
                  let same : st' ≡ st = ground (arith, e, g, h) in
                  let same' : res ≡ result = ground (arith, e, g, h) in
                  (ground (arith, e, same), ground (arith, g, same, same'))
            ]
          ]
