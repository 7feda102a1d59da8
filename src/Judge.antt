-- ===== src/Judge.antt =====
-- src/actioncloud/judge.py: the Memory Judge, a pure function from a memory's counts to its tier.
-- A rate `successes / reuses` is compared with a bound of whole percents exactly, as a fraction: the
-- quotient of two 32-bit counts and the bound round to doubles in the same order, and to one double
-- only where they are equal. `Rounding` is what `round(x, 4)` promises of a value of which the code
-- knows the fraction: the nearest ten-thousandth, a tie either way.
pub mod Ladder
pub mod Confidence
use action_cloud.Prelude.{
  ℕ, ◌+◌, ◌*◌, ◌≤◌, ◌<◌, Bool, true, false, not, ◌&&◌, Option, none, some, nat_eq, ◌==◌, ltb, leb,
  if◌then◌else◌,
}
use action_cloud.Schema.{
  MemoryTier, private, agent, shared, validated, organizational, rank, Experience, truthy?,
}

pub record Rounding : Type 0 where
  pub round : ℕ → ℕ → ℕ
  pub round_above : (a b : ℕ) → 0 < b → 2 * (round a b * b) ≤ 2 * a + b
  pub round_below : (a b : ℕ) → 0 < b → 2 * a ≤ 2 * (round a b * b) + b

pub record JudgeThresholds : Type 0 where
  pub shared_min_successes : ℕ
  pub validated_min_reuses : ℕ
  pub validated_min_rate : ℕ
  pub org_min_reuses : ℕ
  pub org_min_rate : ℕ
  pub demote_min_reuses : ℕ
  pub demote_max_rate : ℕ

-- Rates in percent.
abbrev pub thresholds : JudgeThresholds
thresholds = record {
  shared_min_successes = 1;
  validated_min_reuses = 3;
  validated_min_rate = 80;
  org_min_reuses = 10;
  org_min_rate = 90;
  demote_min_reuses = 3;
  demote_max_rate = 40;
}

-- PRIOR_WEIGHT and DEFAULT_PRIOR.
abbrev pub prior_weight : ℕ
prior_weight = 2

abbrev pub default_prior : ℕ
default_prior = 6000

-- The texts of the audit log, with the counts that they print.
pub data Reason : Type 0 where
  failed_remains_private assigned_agent_tier governance_disabled : Reason
  author_reputation_prior : ℕ → ℕ → Reason
  quarantined : ℕ → ℕ → Reason
  promoted_to_shared : Reason
  promoted_to_validated promoted_to_organizational : ℕ → ℕ → Reason

unfoldable pub assign_initial_tier : Experience → MemoryTier × ℕ × Reason
assign_initial_tier exp =
    if not exp.success
    then (private, 3000, failed_remains_private)
    else (agent, if truthy? exp.solution then 6000 else 5000, assigned_agent_tier)

-- `successes / reuses < percent / 100`, and its negation.
abbrev pub rate_below : ℕ → ℕ → ℕ → Bool
rate_below successes reuses percent = ltb (100 * successes) (percent * reuses)

module _ (r : Rounding) where
  unfoldable pub posterior_confidence : ℕ → ℕ → ℕ → ℕ
  posterior_confidence successes reuses prior =
      r.round (10000 * successes + prior_weight * prior) (reuses + prior_weight)

  unfoldable pub author_reputation : ℕ → ℕ → ℕ
  author_reputation successes reports =
      r.round (10000 * successes + prior_weight * default_prior) (reports + prior_weight)

  -- The promotions, tried when the memory is not below the demotion rate.
  promote : MemoryTier → ℕ → ℕ → ℕ → Option (MemoryTier × ℕ × Reason)
  promote agent conf reuses successes =
      if leb thresholds.shared_min_successes successes
      then some (shared, conf, promoted_to_shared)
      else none
  promote shared conf reuses successes =
      if leb thresholds.validated_min_reuses reuses
        && not (rate_below successes reuses thresholds.validated_min_rate)
      then some (validated, conf, promoted_to_validated reuses successes)
      else none
  promote validated conf reuses successes =
      if leb thresholds.org_min_reuses reuses
        && not (rate_below successes reuses thresholds.org_min_rate)
      then some (organizational, conf, promoted_to_organizational reuses successes)
      else none
  promote _ conf reuses successes = none

  unfoldable pub decide : MemoryTier → ℕ → ℕ → ℕ → Option (MemoryTier × ℕ × Reason)
  unfolding posterior_confidence promote
  decide tier confidence reuse_count reuse_success_count =
      let conf = posterior_confidence reuse_success_count reuse_count default_prior in
      if reuse_count == 0
      then none
      else if leb thresholds.demote_min_reuses reuse_count
          && rate_below reuse_success_count reuse_count thresholds.demote_max_rate
      then (if ltb (rank private) (rank tier)
          then some (private, conf, quarantined reuse_success_count reuse_count)
          else none)
      else promote tier conf reuse_count reuse_success_count
