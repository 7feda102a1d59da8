-- ===== src/Service/Prompt.antt =====
-- What prepare_context puts before an agent, and what it writes down.
use action_cloud.Prelude.{
  ℕ, ◌≡◌, refl, inl, inr, String, string_eq, Option, none, some, List, [], ◌∷◌, ◌++◌, arith, map,
  take, All, All-filter, All-zip, All-take, All-sort, All-map, Option-cases, append-nil, subst₂,
  if◌then◌else◌,
}
use mathlib.Core.List.{Memᴰ}
use action_cloud.Floats.{Floats}
use action_cloud.Schema.{AgentRole, truthy}
use action_cloud.Store.{Vector, Row, Store, Injection, injections_of, record_injections}
use action_cloud.Store.Search.{SearchParams, Engine, Candidate}
use action_cloud.Store.Search.Answers.{IsEligible, hybrid_search_experiences-IsAnswer}
use action_cloud.Embeddings.{experience_embedding_text}
use action_cloud.Builder.{
  MemorySelectionPolicy, Scored, is_relevant, better, filter_redundant_memories, shortlist,
  build_context, Context,
}
use action_cloud.Builder.Selection.{filter_from-All, ids}
use action_cloud.Builder.Budget.{build_context-IsContext}
use action_cloud.Service.{
  ok, memory_of, Prepared, policy_params, candidates_for, ledger_entry, prepare_context,
}

-- The rows of the ledger for what a caller is given: none for a caller without a name.
abbrev pub entries : Option String → List ℕ → ℕ → List Injection
entries none ids now = []
entries (some agent_id) ids now = if truthy agent_id then injections_of ids agent_id now else []

-- The store `t` is `s` with these entries of the ledger, and nothing else changed.
abbrev pub Logged : Store → Option String → ℕ → List ℕ → Store → Type 0
Logged s agent_id now ids t =
    (t.injections ≡ s.injections ++ entries agent_id ids now)
    × (t.experiences ≡ s.experiences)
    × (t.reuse_events ≡ s.reuse_events)
    × (t.tier_transitions ≡ s.tier_transitions)

ledger-Logged :
    (F : Floats) (engine : Engine F) (ratio : String → String → F.Float) (embed : String → Vector)
    (s t : Store) (ids : List ℕ) (agent_id : Option String) (now : ℕ)
    → ledger_entry F engine ratio embed s ids agent_id now ≡ some t
    → Logged s agent_id now ids t
unfolding ledger_entry record_injections injections_of
ledger-Logged F engine ratio embed s t ids none now h = ground (arith, append-nil s.injections)
ledger-Logged F engine ratio embed s t [] (some a) now h = ground (arith, append-nil s.injections)
ledger-Logged F engine ratio embed s t (id ∷ ids) (some a) now h =
    ground (arith, append-nil s.injections)

module _ (F : Floats) (engine : Engine F) (ratio : String → String → F.Float)
    (embed : String → Vector) where
  shortlist-All :
      (policy : MemorySelectionPolicy F) (P : Scored F → Type 0) (candidates : List (Scored F))
      → All P candidates
      → All P (shortlist F ratio policy candidates)
  unfolding shortlist filter_redundant_memories
  shortlist-All policy P candidates h =
      filter_from-All F ratio policy.redundancy_threshold P [] _ tt
        (All-sort (better F policy) P _ (All-filter P (is_relevant F policy) candidates h))

  -- The id is that of a memory of the store which the search's filters let pass.
  abbrev pub Allowed : Store → SearchParams → ℕ → Type 0
  Allowed s p id = (row : Row) × Memᴰ row s.experiences × (row.id ≡ id) × IsEligible p row

  module _ (s : Store) (query : String) (agent_id : Option String) (role : Option AgentRole)
      (policy : MemorySelectionPolicy F) (technologies : List String)
      (scope_run_id : Option String) where
    abbrev params : SearchParams
    params = policy_params F engine ratio embed policy agent_id role scope_run_id

    abbrev found : List (Scored F)
    found =
        map (memory_of F engine ratio embed) (
          candidates_for F engine ratio embed s query agent_id role policy technologies
            scope_run_id)

    found-Allowed : All (λ (c : Scored F). Allowed s params c.id) found
    unfolding candidates_for memory_of
    found-Allowed =
        let answer =
          candidates_for F engine ratio embed s query agent_id role policy technologies
            scope_run_id in
        let h =
          hybrid_search_experiences-IsAnswer F engine s query params
            (embed (experience_embedding_text query technologies none)) policy.ann_candidates in
        All-map (λ (c : Scored F). Allowed s params c.id) (memory_of F engine ratio embed) answer
          (All-zip _ _ (λ (c : Candidate F). Allowed s params c.id) answer
            (λ c m e. (c.row, m, refl, e)) h.stored h.eligible)

    pub injected-Allowed :
        (context : Context F ratio)
        → build_context F ratio found policy ≡ some context
        → All (Allowed s params) context.injected_ids
    injected-Allowed context built =
        let (k, e) = (build_context-IsContext F ratio policy found context built).prefix in
        rw e (
          All-map (Allowed s params) (λ (c : Scored F). c.id)
            (take k (shortlist F ratio policy found))
            (All-take _ k (shortlist F ratio policy found)
              (shortlist-All policy (λ (c : Scored F). Allowed s params c.id) found found-Allowed)))

    -- What a successful prepare_context injects is, id for id, a stored memory that is current, at the
    -- policy's tier or above, in scope, and visible to the caller. The ledger grows by one open
    -- injection to a named caller for each of these ids, in order, and no other table changes.
    pub prepare_context_governed :
        (now : ℕ) (t : Store) (prepared : Prepared F engine ratio embed)
        → prepare_context F engine ratio embed s query agent_id role policy technologies
            scope_run_id now
          ≡ ok (t, prepared)
        → All (Allowed s params) prepared.context.injected_ids
          × Logged s agent_id now prepared.context.injected_ids t
    unfolding prepare_context
    prepare_context_governed now t prepared h =
        elim (Option-cases (build_context F ratio found policy)) [
          | inl raises ↦ absurd (ground (arith, raises, h))
          | inr (context, built) ↦
              elim (Option-cases
                (ledger_entry F engine ratio embed s context.injected_ids agent_id now)) [
                  | inl e ↦ absurd (ground (arith, built, e, h))
                  | inr (s', e) ↦
                      let same_store : s' ≡ t = ground (arith, built, e, h) in
                      let same_context : context ≡ prepared.context = ground (arith, built, e, h) in
                      subst₂
                        (λ (u : Store) (c : Context F ratio).
                          All (Allowed s params) c.injected_ids
                          × Logged s agent_id now c.injected_ids u)
                        same_store same_context
                        (
                          injected-Allowed context built,
                          ledger-Logged F engine ratio embed s s' context.injected_ids agent_id now
                              e,
                        )
                ]
        ]
