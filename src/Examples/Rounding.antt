-- ===== src/Examples/Rounding.antt =====
-- A rounding that meets what `round` promises: ties go up.
use action_cloud.Prelude.{ℕ, ◌+◌, ◌*◌, ◌/◌, ◌≤◌, ◌<◌, arith}
use action_cloud.Judge.{Rounding}

pub half_up_above : (a b : ℕ) → 0 < b → 2 * ((2 * a + b) / (2 * b) * b) ≤ 2 * a + b
half_up_above a b h = grind arith

pub half_up_below : (a b : ℕ) → 0 < b → 2 * a ≤ 2 * ((2 * a + b) / (2 * b) * b) + b
half_up_below a b h = grind arith

abbrev pub half_up : Rounding
half_up = record {
  round = λ a b. (2 * a + b) / (2 * b);
  round_above = half_up_above;
  round_below = half_up_below;
}
