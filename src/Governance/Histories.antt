-- ===== src/Governance/Histories.antt =====
-- The operations of the service as histories.
use action_cloud.Prelude.{
  ℕ, ◌≡◌, sym, String, Option, none, some, List, arith, Option-cases, Bool-cases, map, inl, inr,
}
use action_cloud.Floats.{Floats}
use action_cloud.Schema.{AgentRole, truthy}
use action_cloud.Judge.{Rounding}
use action_cloud.Store.{Vector, Store}
use action_cloud.Store.Search.{Engine}
use action_cloud.Builder.{MemorySelectionPolicy, build_context}
use action_cloud.Service.{ok, ledger_entry, Prepared, prepare_context, candidates_for, memory_of}
use action_cloud.Governance.{injects, Reach, here, next}

pub Reach-trans : {r : Rounding} {s t u : Store} → Reach r s t → Reach r t u → Reach r s u
Reach-trans p here = p
Reach-trans p (next q step) = next (Reach-trans p q) step

module _ (F : Floats) (engine : Engine F) (ratio : String → String → F.Float)
    (embed : String → Vector) (r : Rounding) where
  ledger-Reach :
      (s t : Store) (ids : List ℕ) (agent_id : Option String) (now : ℕ)
      → ledger_entry F engine ratio embed s ids agent_id now ≡ some t
      → Reach r s t
  unfolding ledger_entry
  ledger-Reach s t ids none now h = let same : s ≡ t = ground (arith, h) in rw (sym same) here
  ledger-Reach s t ids (some a) now h = elim (Bool-cases (truthy a)) [
    | inl e ↦ next here (injects ids a now (ground (arith, e, h)))
    | inr e ↦ let same : s ≡ t = ground (arith, e, h) in rw (sym same) here
  ]

  pub prepare-Reach :
      (s t : Store) (query : String) (agent_id : Option String) (role : Option AgentRole)
      (policy : MemorySelectionPolicy F) (technologies : List String) (scope_run_id : Option String)
      (now : ℕ) (prepared : Prepared F engine ratio embed)
      → prepare_context F engine ratio embed s query agent_id role policy technologies scope_run_id
          now
        ≡ ok (t, prepared)
      → Reach r s t
  unfolding prepare_context
  prepare-Reach s t query agent_id role policy technologies scope_run_id now prepared h =
      elim (Option-cases (
        build_context F ratio
          (map (memory_of F engine ratio embed) (
            candidates_for F engine ratio embed s query agent_id role policy technologies
              scope_run_id))
          policy)) [
            | inl raises ↦ absurd (ground (arith, raises, h))
            | inr (context, built) ↦
                elim (Option-cases
                  (ledger_entry F engine ratio embed s context.injected_ids agent_id now)) [
                    | inl e ↦ absurd (ground (arith, built, e, h))
                    | inr (u, e) ↦
                        let same : u ≡ t = ground (arith, built, e, h) in
                        rw (sym same) (ledger-Reach s u context.injected_ids agent_id now e)
                  ]
          ]
