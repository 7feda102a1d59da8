-- ===== src/Floats.antt =====
-- Python's floats where the code computes with values that are no decimals: scores and similarities.
-- The interface holds what the parts that use them rely on: a comparison that orders every two
-- values (no value is NaN), and the operations of the ranking key, of which nothing is assumed.
use action_cloud.Prelude.{ℕ, ◌≡◌, Bool, true, false}

pub record Floats : Type 1 where
  pub Float : Type 0
  pub zero_float : Float
  pub of_ten_thousandths : ℕ → Float
  pub add : Float → Float → Float
  pub mul : Float → Float → Float
  -- x <= y
  pub le : Float → Float → Bool
  pub le_total : (x y : Float) → le x y ≡ false → le y x ≡ true
  pub le_trans : (x y z : Float) → le x y ≡ true → le y z ≡ true → le x z ≡ true
