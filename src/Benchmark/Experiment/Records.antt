-- ===== src/Benchmark/Experiment/Records.antt =====
-- The record of the runs, a list under every name.
use action_cloud.Prelude.{
  ap, subst, ◌∙◌, ◌≡◌, refl, String, string_eq, true, false, not, Option, some, List, [], ◌∷◌, ◌++◌,
  ◌==◌, if◌then◌else◌, map, filter, contains, arith, Bool-cases, Option-cases, inl, inr,
}
use action_cloud.Benchmark.Harness.{ArmResult}
use action_cloud.Benchmark.Experiment.{PerArm, open_arms, runs_of, record_run}

pub map-snoc {ℓ κ} :
    {A : Type ℓ} {B : Type κ} (f : A → B) (xs : List A) (y : A)
    → map f (xs ++ y ∷ []) ≡ map f xs ++ f y ∷ []
map-snoc f [] y = refl
map-snoc f (x ∷ xs) y = ap (λ zs. f x ∷ zs) (map-snoc f xs y)

pub apart_sym : (a b : String) → (a == b) ≡ false → (b == a) ≡ false
apart_sym a b h = ground (arith, string_eq.same_iff a b, string_eq.same_iff b a)

pub record_run_other :
    (n m : String) (x : ArmResult) (p q : PerArm)
    → record_run n x p ≡ some q
    → (n == m) ≡ false
    → runs_of m q ≡ runs_of m p
unfolding record_run runs_of
record_run_other n m x [] q h apart = ground arith
record_run_other n m x ((k, xs) ∷ rest) q h apart = elim (Bool-cases (k == n)) [
  | inl e ↦
      let same : (k, xs ++ x ∷ []) ∷ rest ≡ q = ground (arith, e, h) in
      let other : (k == m) ≡ false = ground (arith, e, apart, string_eq.same_iff k n) in
      subst (λ (u : PerArm). runs_of m u ≡ runs_of m ((k, xs) ∷ rest)) same (rw other refl)
  | inr e ↦ elim (Option-cases (record_run n x rest)) [
    | inl g ↦ absurd (ground (arith, e, g, h))
    | inr (p', g) ↦
        let same : (k, xs) ∷ p' ≡ q = ground (arith, e, g, h) in
        subst (λ (u : PerArm). runs_of m u ≡ runs_of m ((k, xs) ∷ rest)) same
          (ap (λ (later : Option (List ArmResult)). if k == m then some xs else later)
            (record_run_other n m x rest p' g apart))
  ]
]

pub record_run_own :
    (n : String) (x : ArmResult) (p q : PerArm) (xs : List ArmResult)
    → record_run n x p ≡ some q
    → runs_of n p ≡ some xs
    → runs_of n q ≡ some (xs ++ x ∷ [])
unfolding record_run runs_of
record_run_own n x [] q xs h found = ground arith
record_run_own n x ((k, ys) ∷ rest) q xs h found = elim (Bool-cases (k == n)) [
  | inl e ↦
      let same : (k, ys ++ x ∷ []) ∷ rest ≡ q = ground (arith, e, h) in
      let there : ys ≡ xs = ground (arith, e, found) in
      subst (λ (u : PerArm). runs_of n u ≡ some (xs ++ x ∷ [])) same (rw (e, there) refl)
  | inr e ↦ elim (Option-cases (record_run n x rest)) [
    | inl g ↦ absurd (ground (arith, e, g, h))
    | inr (p', g) ↦
        let same : (k, ys) ∷ p' ≡ q = ground (arith, e, g, h) in
        let later : runs_of n rest ≡ some xs = ground (arith, e, found) in
        subst (λ (u : PerArm). runs_of n u ≡ some (xs ++ x ∷ [])) same
          (rw e (record_run_own n x rest p' xs g later))
  ]
]

-- The list of an arm is there from the start, and empty.
runs_of-filter :
    (n m : String) (p : PerArm)
    → (n == m) ≡ false
    → runs_of m (filter (λ ((k, _) : String × List ArmResult). not (k == n)) p) ≡ runs_of m p
unfolding runs_of
runs_of-filter n m [] apart = refl
runs_of-filter n m ((k, xs) ∷ p) apart = elim (Bool-cases (k == n)) [
  | inl e ↦
      let other : (k == m) ≡ false = ground (arith, e, apart, string_eq.same_iff k n) in
      rw (e, other) (runs_of-filter n m p apart)
  | inr e ↦ rw e (
      ap (λ (later : Option (List ArmResult)). if k == m then some xs else later)
        (runs_of-filter n m p apart))
]

pub runs_of-open_arms :
    (n : String) (names : List String)
    → contains names n ≡ true
    → runs_of n (open_arms names) ≡ some []
unfolding open_arms runs_of
runs_of-open_arms n [] h = ground arith
runs_of-open_arms n (m ∷ names) h = elim (Bool-cases (m == n)) [
  | inl e ↦ rw e refl
  | inr e ↦
      rw e
        (runs_of-filter m n (open_arms names) e ∙ runs_of-open_arms n names (ground (arith, e, h)))
]
