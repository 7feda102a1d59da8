-- ===== src/Governance/Earned.antt =====
-- A memory's tier is earned by its counts, and its counts are those of the ledger.
use action_cloud.Prelude.{
  ℕ, ◌≤◌, ◌≡◌, refl, ◌⊎◌, inl, inr, String, Bool, true, false, Option, none, some, List, [], ◌∷◌,
  All, arith, Option-cases,
}
use action_cloud.Table.{All-replace, All-find}
use action_cloud.Schema.{
  MemoryTier, private, rank, ExperienceCreate, Experience, new_experience, Workflow, Triple,
}
use action_cloud.Judge.{
  Rounding, Reason, decide, posterior_confidence, author_reputation, default_prior,
}
use action_cloud.Judge.Confidence.{posterior_confidence_bound, round-le}
use action_cloud.Store.{enriched_row, Vector, row_id, Row, Store, evidence, author_evidence}
use action_cloud.Store.Reuse.{TierChange, counted_row, with_confidence, decided, judged, reported}
use action_cloud.Store.Consistency.{at_id}
use action_cloud.Store.Consistency.Insert.{All-insert_enriched_experience}
use action_cloud.Pipeline.{Enrichers, decided_by, governed, process_experience}
use action_cloud.Service.{ok, ReuseReply, reporter_of, record_reuse}

-- What a tier certifies, and the CHECK constraints of the table.
pub record IsEarned (row : Row) : Type 0 where
  pub success_lte : row.reuse_success_count ≤ row.reuse_count
  pub confidence_lte : row.confidence ≤ 10000
  pub prior_lte : row.prior ≤ 10000
  pub shared_earned : (rank row.tier ≤ 1) ⊎ (1 ≤ row.reuse_success_count)
  pub validated_earned : (rank row.tier ≤ 2) ⊎ (3 ≤ row.reuse_count)
  pub organizational_earned : (rank row.tier ≤ 3) ⊎ (10 ≤ row.reuse_count)

module _ (r : Rounding) where
  abbrev revise : Row → Row
  revise = with_confidence (decide r) decided_by (some (posterior_confidence r))

  counted_row-IsEarned :
      (row : Row) (success : Bool) → IsEarned row → IsEarned (counted_row row success)
  unfolding counted_row
  counted_row-IsEarned row success h = ground arith

  with_confidence-IsEarned : (row : Row) → IsEarned row → IsEarned (revise row)
  unfolding with_confidence
  with_confidence-IsEarned row h =
      ground (arith, posterior_confidence_bound r row.reuse_success_count row.reuse_count row.prior)

  -- A decision certifies what its tier says.
  decide_earned :
      (tier : MemoryTier) (confidence n s : ℕ) {t : MemoryTier} {c : ℕ} {why : Reason}
      → s ≤ n
      → decide r tier confidence n s ≡ some (t, c, why)
      → (c ≤ 10000)
        × ((rank t ≤ 1) ⊎ (1 ≤ s))
        × ((rank t ≤ 2) ⊎ (3 ≤ n))
        × ((rank t ≤ 3) ⊎ (10 ≤ n))
  unfolding decide
  decide_earned private confidence n s le h = ground arith
  decide_earned _ confidence n s le h =
      ground (arith, posterior_confidence_bound r s n default_prior)

  decided-IsEarned :
      (row : Row)
      → IsEarned row
      → IsEarned (decided (decide r) decided_by (some (posterior_confidence r)) row).0
  unfolding decided
  decided-IsEarned row h =
      go (decide r row.tier row.confidence row.reuse_count row.reuse_success_count) refl
    where
      go :
          (d : Option (MemoryTier × ℕ × Reason))
          → decide r row.tier row.confidence row.reuse_count row.reuse_success_count ≡ d
          → IsEarned
              (elim d as (λ _. Row × Option TierChange) [
                | none ↦ (row, none)
                | some (new_tier, new_conf, reason) ↦ (
                  record row { exp = record (row.exp) { tier = new_tier; confidence = new_conf } },
                  some (record { from_tier = row.tier; to_tier = new_tier; reason = reason }),
                )
              ]).0
      go none e = h
      go (some (t, c, why)) e =
          let earned =
            decide_earned row.tier row.confidence row.reuse_count row.reuse_success_count
              h.success_lte e in
          record {
            success_lte = h.success_lte;
            confidence_lte = earned.0;
            prior_lte = h.prior_lte;
            shared_earned = earned.1;
            validated_earned = earned.2;
            organizational_earned = earned.3;
          }

  judged-IsEarned :
      (row : Row) (success counted : Bool)
      → IsEarned row
      → IsEarned
          (judged (decide r) decided_by (some (posterior_confidence r)) row success counted).0
  unfolding judged
  judged-IsEarned row success true h =
      decided-IsEarned _ (with_confidence-IsEarned _ (counted_row-IsEarned row success h))
  judged-IsEarned row success false h = h

  evidence_le :
      (rows : List Row) (agent : String)
      → All IsEarned rows
      → (evidence rows agent).0 ≤ (evidence rows agent).1
  unfolding evidence
  evidence_le [] agent h = omega arith
  evidence_le (row ∷ rows) agent h = ground (arith, evidence_le rows agent h.1, h.0.success_lte)

  module _ (s : Store) (h : All IsEarned s.experiences) (enrichers : Enrichers)
      (payload : ExperienceCreate) (id : ℕ) (author_prior : Bool) (now : ℕ) where
    abbrev exp : Experience
    exp = governed r s (new_experience payload id) true author_prior

    exp_initial : (rank exp.tier ≤ 1) × (exp.confidence ≤ 10000) × (exp.prior ≤ 10000)
    unfolding governed new_experience author_evidence
    exp_initial =
        let le = evidence_le s.experiences payload.agent_id h in
        let b : author_reputation r (evidence s.experiences payload.agent_id).0
              (evidence s.experiences payload.agent_id).1
            ≤ 10000 =
          (unfold author_reputation in round-le r _ _ 10000 (omega arith) (omega arith)) in
        ground (arith, b)

    enriched_row-IsEarned :
        (workflow : Option Workflow) (triples : List Triple) (embedding : Option Vector)
        → IsEarned (enriched_row exp now workflow triples embedding)
    unfolding enriched_row
    enriched_row-IsEarned workflow triples embedding =
        let (low, conf, prior) = exp_initial in
        record {
          success_lte = omega arith;
          confidence_lte = conf;
          prior_lte = prior;
          shared_earned = inl low;
          validated_earned = inl (omega (arith, low));
          organizational_earned = inl (omega (arith, low));
        }

    pub stores-IsEarned :
        All IsEarned
          (process_experience r enrichers s
            (new_experience payload id)
            true
            author_prior
            now).0.experiences
    unfolding process_experience
    stores-IsEarned =
        All-insert_enriched_experience s exp _ _ _ _ _ _ IsEarned h (enriched_row-IsEarned _ _ _)

-- A report that was accepted: who reported, and the row that it found.
pub record_reuse_inv :
    (r : Rounding) (s t : Store) (reply : ReuseReply) (id : ℕ) (success : Bool)
    (agent : Option String) (now : ℕ)
    → record_reuse r s id success agent now ≡ ok (t, reply)
    → (reporter : String) × (row : Row) × (at_id s id ≡ some row)
      × (t
          ≡ (reported
              (decide r)
              decided_by
              (some (posterior_confidence r))
              s
              row
              id
              success
              reporter
              now).0)
unfolding record_reuse
record_reuse_inv r s t reply id success agent now e = elim (Option-cases (reporter_of agent)) [
  | inl nobody ↦ absurd (ground (arith, nobody))
  | inr (reporter, known) ↦ elim (Option-cases (at_id s id)) [
    | inl missing ↦ absurd (ground (arith, known, missing))
    | inr (row, hit) ↦ (reporter, row, hit, ground (arith, known, hit))
  ]
]

pub reports-IsEarned :
    (r : Rounding) (s t : Store) (reply : ReuseReply) (id : ℕ) (success : Bool)
    (agent : Option String) (now : ℕ)
    → All IsEarned s.experiences
    → record_reuse r s id success agent now ≡ ok (t, reply)
    → All IsEarned t.experiences
unfolding reported
reports-IsEarned r s t reply id success agent now h e =
    let (reporter, row, hit, after) = record_reuse_inv r s t reply id success agent now e in
    rw after (
      All-replace row_id IsEarned _ s.experiences
        (judged-IsEarned r row success _ (All-find row_id IsEarned id s.experiences row h hit)) h)
