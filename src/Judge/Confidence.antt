-- ===== src/Judge/Confidence.antt =====
-- The confidence that a counted reuse leaves: bounds, monotonicity and the injection floor.
use action_cloud.Prelude.{ℕ, ◌+◌, ◌*◌, ◌≤◌, ◌<◌, ◌≡◌, ap, arith, dec_lt}
use action_cloud.Judge.{Rounding, posterior_confidence, default_prior}

module _ (r : Rounding) where
  -- A rounded fraction keeps a bound that is a whole number of ten-thousandths, on either side.
  pub round-le : (a b c : ℕ) → 0 < b → a ≤ c * b → r.round a b ≤ c
  round-le a b c pos h = grind (arith, r.round_above a b)

  pub le-round : (a b c : ℕ) → 0 < b → c * b ≤ a → c ≤ r.round a b
  le-round a b c pos h = grind (arith, r.round_below a b)

  pub round_mono : (a a' b : ℕ) → 0 < b → a ≤ a' → r.round a b ≤ r.round a' b
  round_mono a a' b pos h = elim (dec_lt a a') [
    | yes lt ↦ grind (arith, r.round_above a b, r.round_below a' b)
    | no ge ↦ let e : a ≡ a' = omega arith in omega (arith, ap (λ x. r.round x b) e)
  ]

  module _ (s n prior : ℕ) where
    -- A confidence is between 0 and 1: at most 10000, if the prior is and no more reuses
    -- succeeded than there were.
    pub posterior_confidence_bound :
        s ≤ n → prior ≤ 10000 → posterior_confidence r s n prior ≤ 10000
    unfolding posterior_confidence
    posterior_confidence_bound h p = round-le _ _ 10000 (omega arith) (omega arith)

    -- Where the observed rate is at least the prior, the confidence is at least the prior.
    pub posterior_confidence_up : prior * n ≤ 10000 * s → prior ≤ posterior_confidence r s n prior
    unfolding posterior_confidence
    posterior_confidence_up h = le-round _ _ prior (omega arith) (omega arith)

    -- Where the observed rate is at most the prior, the confidence is at most the prior.
    pub posterior_confidence_down : 10000 * s ≤ prior * n → posterior_confidence r s n prior ≤ prior
    unfolding posterior_confidence
    posterior_confidence_down h = round-le _ _ prior (omega arith) (omega arith)

    -- Of as many reuses, more successes never give a lower confidence.
    pub posterior_confidence_mono :
        (s' : ℕ) → s ≤ s' → posterior_confidence r s n prior ≤ posterior_confidence r s' n prior
    unfolding posterior_confidence
    posterior_confidence_mono s' h = round_mono _ _ _ (omega arith) (omega arith)

  -- MemorySelectionPolicy.min_confidence is 0.45: a memory that was reused and never worked lies
  -- below it.
  pub posterior_confidence_failed :
      (n : ℕ) → 1 ≤ n → posterior_confidence r 0 n default_prior < 4500
  unfolding posterior_confidence
  posterior_confidence_failed n h =
      let b : r.round 12000 (n + 2) ≤ 4000 = round-le _ _ 4000 (omega arith) (omega arith) in
      omega (arith, b)

  -- A memory that worked in at least half of its reuses does not fall below the floor of 0.45.
  pub posterior_confidence_worked :
      (s n : ℕ) → n ≤ 2 * s → 4500 ≤ posterior_confidence r s n default_prior
  unfolding posterior_confidence
  posterior_confidence_worked s n h = le-round _ _ 4500 (omega arith) (omega arith)
