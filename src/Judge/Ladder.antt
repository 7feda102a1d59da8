-- ===== src/Judge/Ladder.antt =====
-- The ladder of the README as a relation, and that `decide` follows it exactly.
use action_cloud.Prelude.{
  ℕ, ◌*◌, ◌≤◌, ◌<◌, ◌≡◌, subst, subst₂, sym, ◌≢◌, ◌⊎◌, inl, inr, some, arith,
}
use action_cloud.Schema.{MemoryTier, private, agent, shared, validated, organizational}
use action_cloud.Judge.{
  Rounding, Reason, quarantined, promoted_to_shared, promoted_to_validated,
  promoted_to_organizational, decide, posterior_confidence, default_prior,
}

-- README: a memory with n counted reuses, s of them successes, moves from one tier to another.
-- Below 40 % over three reuses or more it goes to PRIVATE, and else one rung up if it has earned it.
abbrev pub IsFailing : ℕ → ℕ → Type 0
IsFailing n s = (3 ≤ n) × (5 * s < 2 * n)

pub data Moves (n s : ℕ) : MemoryTier → MemoryTier → Type 0 where
  quarantine : (t : MemoryTier) → t ≢ private → IsFailing n s → Moves n s t private
  to_shared : ¬ IsFailing n s → 1 ≤ s → Moves n s agent shared
  to_validated : 3 ≤ n → 4 * n ≤ 5 * s → Moves n s shared validated
  to_organizational : 10 ≤ n → 9 * n ≤ 10 * s → Moves n s validated organizational

module _ (r : Rounding) (confidence n s : ℕ) where
  abbrev pub Decides : MemoryTier → MemoryTier → Type 0
  Decides tier t = (c : ℕ) × (why : Reason) × (decide r tier confidence n s ≡ some (t, c, why))

  -- What a decision says, tier by tier, before it is read as a move.
  decide_cases :
      (tier : MemoryTier) {t : MemoryTier} {c : ℕ} {why : Reason}
      → decide r tier confidence n s ≡ some (t, c, why)
      → ((t ≡ private) × (tier ≢ private) × IsFailing n s)
        ⊎ ((tier ≡ agent) × (t ≡ shared) × ¬ IsFailing n s × (1 ≤ s))
        ⊎ ((tier ≡ shared) × (t ≡ validated) × (3 ≤ n) × (4 * n ≤ 5 * s))
        ⊎ ((tier ≡ validated) × (t ≡ organizational) × (10 ≤ n) × (9 * n ≤ 10 * s))
  unfolding decide
  decide_cases private h = ground arith
  decide_cases _ h = ground arith

  -- Every tier change that the judge decides is a move of the ladder.
  pub decide_sound : (tier : MemoryTier) {t : MemoryTier} → Decides tier t → Moves n s tier t
  decide_sound tier (c, why, h) = elim (decide_cases tier h) [
    | inl (e, above, failing) ↦ subst (Moves n s tier) (sym e) (quarantine tier above failing)
    | inr (inl (e, e', well, one)) ↦ subst₂ (Moves n s) (sym e) (sym e') (to_shared well one)
    | inr (inr (inl (e, e', some_reuses, rate))) ↦
        subst₂ (Moves n s) (sym e) (sym e') (to_validated some_reuses rate)
    | inr (inr (inr (e, e', many, rate))) ↦
        subst₂ (Moves n s) (sym e) (sym e') (to_organizational many rate)
  ]

  -- Where no more reuses succeeded than there were, the judge decides every move of the ladder.
  pub decide_complete :
      (tier : MemoryTier) {t : MemoryTier} → s ≤ n → Moves n s tier t → Decides tier t
  unfolding decide
  decide_complete tier le (quarantine t above failing) =
      (posterior_confidence r s n default_prior, quarantined s n, ground arith)
  decide_complete tier le (to_shared well one) =
      (posterior_confidence r s n default_prior, promoted_to_shared, ground arith)
  decide_complete tier le (to_validated some_reuses rate) =
      (posterior_confidence r s n default_prior, promoted_to_validated n s, ground arith)
  decide_complete tier le (to_organizational many rate) =
      (posterior_confidence r s n default_prior, promoted_to_organizational n s, ground arith)
