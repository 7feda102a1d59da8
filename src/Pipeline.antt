-- ===== src/Pipeline.antt =====
-- src/actioncloud/pipeline.py: the one ingest path of the worker and of the synchronous writes.
-- The extractor and the embedding provider are the interface `Enrichers`: which ones run is chosen
-- by the environment.
use action_cloud.Prelude.{ℕ, String, string_eq, Bool, ◌&&◌, Option, some, List, if◌then◌else◌}
use action_cloud.Schema.{MemoryTier, shared, Experience, Workflow, Triple}
use action_cloud.Embeddings.{experience_embedding_text}
use action_cloud.Judge.{
  Rounding, Reason, governance_disabled, author_reputation_prior, assign_initial_tier,
  author_reputation,
}
use action_cloud.Store.{Vector, Store, author_evidence, insert_enriched_experience}

pub record Enrichers : Type 0 where
  pub extract : Experience → Option Workflow × List Triple
  pub embed : String → Vector
  -- Whether the extractor, the embedding provider and the database answer for this experience, and
  -- none raises. Where one raises, nothing is written.
  pub answers : Experience → Bool

-- DECIDED_BY
abbrev pub decided_by : String
decided_by = "memory_judge_v3"

module _ (r : Rounding) where
  -- The tier, confidence, prior and reason that a new memory is written with.
  unfoldable pub initial_governance : Store → Experience → Bool → Bool → MemoryTier × ℕ × ℕ × Reason
  unfolding assign_initial_tier author_reputation
  initial_governance s exp governance author_prior =
      if governance
      then (let (tier, confidence, reason) = assign_initial_tier exp in
          let (successes, reports) = author_evidence s exp.agent_id in
          let prior = author_reputation r successes reports in
          if author_prior && exp.success
          then (tier, prior, prior, author_reputation_prior prior reports)
          else (tier, confidence, exp.prior, reason))
      else (shared, 5000, exp.prior, governance_disabled)

  -- The experience with its initial governance state.
  unfoldable pub governed : Store → Experience → Bool → Bool → Experience
  unfolding initial_governance
  governed s exp governance author_prior =
      let (tier, confidence, prior, reason) = initial_governance s exp governance author_prior in
      record exp { tier = tier; confidence = confidence; prior = prior }

  -- False on a duplicate.
  unfoldable pub process_experience :
      Enrichers → Store → Experience → Bool → Bool → ℕ → Store × Bool
  unfolding governed
  process_experience enrichers s exp governance author_prior now =
      let exp' = governed s exp governance author_prior in
      let (workflow, triples) = enrichers.extract exp' in
      let embedding =
        enrichers.embed (experience_embedding_text exp'.task exp'.technologies exp'.problem) in
      insert_enriched_experience s exp' workflow triples (some embedding)
        (initial_governance s exp governance author_prior).3 decided_by now
