-- ===== src/Agents/Calls.antt =====
-- src/actioncloud/agents/base.py: when the calls of InProcessClient that a task makes answer.
use action_cloud.Prelude.{
  ℕ, ◌≡◌, ap, sym, refl, String, string_eq, nat_eq, Bool, true, Option, some, List, [], ◌∷◌, ◌++◌,
  ◌==◌, arith, Option-cases, Bool-cases, inl, inr, All, All-imp, map, filter, contains,
}
use mathlib.Core.List.{Memᴰ}
use action_cloud.Table.{find}
use action_cloud.Floats.{Floats}
use action_cloud.Schema.{AgentRole, truthy, ExperienceCreate, new_experience}
use action_cloud.Schema.Tags.{validate}
use action_cloud.Judge.{Rounding}
use action_cloud.Schema.{Experience}
use action_cloud.Render.{Renders}
use action_cloud.Builder.{Scored}
use action_cloud.Builder.Budget.{build_context_total}
use action_cloud.Prelude.{none, All-at, All-map}
use action_cloud.Service.{policy_params}
use action_cloud.Store.Search.Answers.{hybrid_search_experiences-IsAnswer}
use action_cloud.Embeddings.{experience_embedding_text}
use action_cloud.Store.{
  Vector, Row, Store, row_id, record_injections, all_exist, injections_of, get_experience,
}
use action_cloud.Store.Reuse.{apply_reuse}
use action_cloud.Store.Search.{Engine, SearchParams, Candidate}
use action_cloud.Store.Consistency.Insert.{at_id-insert_enriched_experience, stored_row}
use action_cloud.Pipeline.{Enrichers, process_experience, governed}
use action_cloud.Render.{count_tokens}
use action_cloud.Builder.{MemorySelectionPolicy}
use action_cloud.Service.{
  Result, System, Options, ReuseReply, ok, err, record_reuse, candidates_for, memory_of,
  ledger_entry, prepare_context, Prepared, store_experience,
}
use action_cloud.Service.Prompt.{Allowed, injected-Allowed}
use action_cloud.Client.{
  Client, reply_of, ContextReply, no_context, or_own, in_process, in_process_context,
  in_process_report, in_process_store,
}
use action_cloud.Governance.Persistence.{IsKnown, Keeps, record_reuse-Keeps}
use action_cloud.Agents.{TaskSpec, Agent, retrieve}

find-Memᴰ :
    (row : Row) (rows : List Row) → Memᴰ row rows → (r : Row) × (find row_id row.id rows ≡ some r)
unfolding find
find-Memᴰ row [] m = elim m [ ]
find-Memᴰ row (x ∷ rows) m = elim (Bool-cases (row_id x == row.id)) [
  | inl e ↦ (x, ground (arith, e))
  | inr e ↦ elim m [
    | Memᴰ.head same ↦ let same_id = ap row_id same in absurd (ground (arith, e, same_id))
    | Memᴰ.tail there ↦ let (r, hit) = find-Memᴰ row rows there in (r, ground (arith, e, hit))
  ]
]

all_known : (s : Store) (ids : List ℕ) → All (IsKnown s) ids → all_exist s ids ≡ true
unfolding all_exist
all_known s [] h = refl
all_known s (id ∷ ids) ((row, hit), rest) = ground (arith, hit, all_known s ids rest)

record_injections_total :
    (s : Store) (ids : List ℕ) (agent : String) (now : ℕ)
    → All (IsKnown s) ids
    → (t : Store) × (record_injections s ids agent now ≡ some t) × (t.experiences ≡ s.experiences)
unfolding record_injections
record_injections_total s [] agent now h = (s, refl, refl)
record_injections_total s (id ∷ ids) agent now h =
    let known = all_known s (id ∷ ids) h in
    (
      record s { injections = s.injections ++ injections_of (id ∷ ids) agent now },
      ground (arith, known),
      refl,
    )

module _ (r : Rounding) where
  module _ (s : Store) (id : ℕ) (success : Bool) (agent : String) (now : ℕ) where
    record_reuse_total :
        IsKnown s id
        → truthy agent ≡ true
        → (t : Store) × (reply : ReuseReply) × (record_reuse r s id success (some agent) now
            ≡ ok (t, reply))
          × Keeps s t
    unfolding record_reuse apply_reuse get_experience
    record_reuse_total (row, hit) named = go (record_reuse r s id success (some agent) now) refl
      where
        go :
            (x : Result (Store × ReuseReply))
            → record_reuse r s id success (some agent) now ≡ x
            → (t : Store) × (reply : ReuseReply) × (record_reuse r s id success (some agent) now
                ≡ ok (t, reply))
              × Keeps s t
        go (ok (t, reply)) e =
            (t, reply, e, record_reuse-Keeps r s id success (some agent) now t reply e)
        go (err e') e = absurd (ground (arith, hit, named, e))

module _ (F : Floats) (engine : Engine F) (ratio : String → String → F.Float)
    (embed : String → Vector) (r : Rounding) (enrichers : Enrichers) (options : Options)
    (fold : String → String) (own_id : String) (synchronous : options.sync_write ≡ true)
    (answering : (exp : Experience) → enrichers.answers exp ≡ true) where
  abbrev service : Client F System
  service = in_process F engine ratio embed r enrichers options fold own_id

  Allowed-IsKnown :
      (s : Store) (p : SearchParams) (ids : List ℕ)
      → All (Allowed F engine ratio embed s p) ids
      → All (IsKnown s) ids
  Allowed-IsKnown s p ids h =
      All-imp ids
        (λ id (row, there, same, _).
          let (x, hit) = find-Memᴰ row s.experiences there in (x, rw (sym same) hit))
        h

  -- Every stored workflow renders.
  abbrev pub AllRender : Store → Type 0
  AllRender s = All (λ (row : Row). Renders row.workflow) s.experiences

  candidates_render :
      (s : Store) (query agent_id : String) (role : AgentRole) (policy : MemorySelectionPolicy F)
      (technologies : List String) (scope : Option String)
      → AllRender s
      → All
          (λ (c : Scored F). Renders c.workflow)
          (map (memory_of F engine ratio embed) (
            candidates_for F engine ratio embed s query
              (some agent_id)
              (some role)
              policy
              technologies
              scope))
  unfolding candidates_for memory_of
  candidates_render s query agent_id role policy technologies scope h =
      All-map (λ (c : Scored F). Renders c.workflow) (memory_of F engine ratio embed) _
        (All-imp _
          (λ (c : Candidate F) there.
            All-at (λ (row : Row). Renders row.workflow) c.row s.experiences h there)
          (hybrid_search_experiences-IsAnswer F engine s query
            (policy_params F engine ratio embed policy (some agent_id) (some role) scope)
            (embed (experience_embedding_text query technologies none))
            policy.ann_candidates).stored)

  -- The call of prepare_context that a task makes answers, with memories that are there.
  prepare_total :
      (s : Store) (query agent_id : String) (role : AgentRole) (policy : MemorySelectionPolicy F)
      (technologies : List String) (scope : Option String) (now : ℕ)
      → AllRender s
      → (t : Store) × (p : Prepared F engine ratio embed) × (prepare_context F engine ratio embed s
            query
            (some agent_id)
            (some role)
            policy
            technologies
            scope
            now
          ≡ ok (t, p))
        × (t.experiences ≡ s.experiences)
        × All (IsKnown s) p.context.injected_ids
  unfolding prepare_context ledger_entry
  prepare_total s query agent_id role policy technologies scope now renders =
      let candidates =
        candidates_for F engine ratio embed s query (some agent_id) (some role) policy technologies
          scope in
      let (context, built) =
        build_context_total F ratio policy (map (memory_of F engine ratio embed) candidates)
          (candidates_render s query agent_id role policy technologies scope renders) in
      let known = Allowed-IsKnown s _ context.injected_ids (
        injected-Allowed F engine ratio embed s query (some agent_id) (some role) policy
          technologies scope context built) in
      let (t, e, same) = record_injections_total s context.injected_ids agent_id now known in
      let p : Prepared F engine ratio embed = record {
        context = context;
        injected_task_keys =
            map (λ (c : Candidate F). c.task_key)
              (filter (λ c. contains context.injected_ids c.id) candidates);
        context_tokens = count_tokens context.text;
      } in
      elim (Bool-cases (truthy agent_id)) [
        | inl named ↦ (t, p, ground (arith, built, named, e), same, known)
        | inr nobody ↦ (s, p, ground (arith, built, nobody), refl, known)
      ]

  pub context_total :
      (sys : System) (a : Agent F) (spec : TaskSpec) (now : ℕ)
      → AllRender sys.store
      → (t : System) × (ctx : ContextReply) × (retrieve F service sys a spec now ≡ some (t, ctx))
        × Keeps sys.store t.store
        × All (IsKnown t.store) ctx.injected_experience_ids
  unfolding retrieve in_process in_process_context
  context_total sys a spec now renders = elim (Bool-cases a.use_memory) [
    | inr off ↦ (sys, no_context, ground (arith, off), (λ id h. h), tt)
    | inl on ↦
        let caller = or_own (some a.agent_id) own_id in
        let (t, p, e, same, known) =
          prepare_total sys.store spec.task caller a.role a.policy spec.technologies a.scope_run_id
            now renders in
        (
          record sys { store = t },
          reply_of F engine ratio embed r enrichers options fold own_id p,
          ground (arith, on, e),
          (λ id (row, hit). (row, rw same hit)),
          All-imp p.context.injected_ids (λ id (row, hit). (row, rw same hit)) known,
        )
  ]

  pub report_total :
      (sys : System) (id : ℕ) (success : Bool) (agent_id : String) (now : ℕ)
      → IsKnown sys.store id
      → truthy agent_id ≡ true
      → (t : System) × (service.report_reuse sys id success agent_id now ≡ some t)
        × Keeps sys.store t.store
  unfolding in_process in_process_report
  report_total sys id success agent_id now known named =
      let (t, reply, e, keeps) =
        record_reuse_total r sys.store id success agent_id now known named in
      (record sys { store = t }, ground (arith, named, e), keeps)

  stored_Keeps :
      (s : Store) (payload : ExperienceCreate) (id now : ℕ)
      → let t =
          (process_experience r enrichers s
            (new_experience payload id)
            options.governance
            options.author_prior
            now).0 in
        Keeps s t × IsKnown t id
  unfolding process_experience governed new_experience
  stored_Keeps s payload id now = (
    (λ j (row, hit). (row, at_id-insert_enriched_experience s _ _ _ _ _ _ now j row hit)),
    stored_row s (governed r s (new_experience payload id) options.governance options.author_prior)
        _ _ _ _ _ now,
  )

  pub store_total :
      (sys : System) (fields : ExperienceCreate) (id now : ℕ)
      → truthy fields.agent_id ≡ true
      → truthy fields.task ≡ true
      → truthy fields.action ≡ true
      → truthy fields.result ≡ true
      → (t : System) × (service.store sys fields id now ≡ some (t, id))
        × Keeps sys.store t.store
        × IsKnown t.store id
  unfolding in_process in_process_store store_experience validate
  store_total sys fields id now a b c d =
      let given : ExperienceCreate = record fields {
        agent_id = or_own (some (fields.agent_id)) own_id;
      } in
      elim (Option-cases (validate fold given)) [
        | inl e ↦ absurd (ground (arith, e, a, b, c, d))
        | inr (payload, e) ↦
            let after =
              (process_experience r enrichers sys.store (new_experience payload id)
                options.governance options.author_prior now).0 in
            let (keeps, known) = stored_Keeps sys.store payload id now in
            (
              record sys { store = after },
              ground (arith, e, synchronous, answering (new_experience payload id)),
              keeps,
              known,
            )
      ]
