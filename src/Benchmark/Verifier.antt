-- ===== src/Benchmark/Verifier.antt =====
-- src/actioncloud/benchmark/verifier.py: the grading of an answer by keywords. `lower` is str.lower.
use action_cloud.Prelude.{
  ℕ, ◌-◌, ◌≤◌, ◌≡◌, ◌↔◌, ◌⊎◌, refl, inl, inr, String, string_eq, nat_eq, Bool, true, false, not,
  ◌&&◌, Option, none, some, List, [], ◌∷◌, map, filter, any, length, All, ltb, leb, arith,
  Bool-cases, ◌==◌, if◌then◌else◌,
}
use action_cloud.Text.{has_text}

-- One step of a procedure, with its alternative keywords.
pub record Criterion : Type 0 where
  pub step : String
  pub any_of : List String

abbrev pub Procedures : Type 0
Procedures = List (String × List Criterion)

pub record Verdict : Type 0 where
  pub task_key : String
  pub satisfied : ℕ
  pub total : ℕ
  pub missing : List String

unfoldable pub strict : Verdict → Bool
strict v = ltb 0 v.total && v.satisfied == v.total

-- satisfied >= total - 1, where total is not 0
unfoldable pub lenient : Verdict → Bool
lenient v = ltb 0 v.total && leb (v.total - 1) v.satisfied

-- self.procedures[task_key]
unfoldable pub procedure : Procedures → String → Option (List Criterion)
procedure [] task_key = none
procedure ((k, p) ∷ ps) task_key = if k == task_key then some p else procedure ps task_key

-- TaskVerifier.steps
unfoldable pub steps : Procedures → String → Option (List String)
unfolding procedure
steps ps task_key = elim (procedure ps task_key) [
  | none ↦ none
  | some criteria ↦ some (map (λ c. c.step) criteria)
]

abbrev pub meets : String → Criterion → Bool
meets text c = any (has_text text) c.any_of

unfoldable pub grade : String → List Criterion → String → Verdict
grade task_key criteria text =
    let missed = filter (λ c. not (meets text c)) criteria in
    record {
      task_key = task_key;
      satisfied = length criteria - length missed;
      total = length criteria;
      missing = map (λ c. c.step) missed;
    }

module _ (lower : String → String) where
  -- `none` is the KeyError of an unknown task_key.
  unfoldable pub verify : Procedures → String → String → Option Verdict
  unfolding procedure grade
  verify ps task_key response_text = elim (procedure ps task_key) [
    | none ↦ none
    | some criteria ↦ some (grade task_key criteria (lower response_text))
  ]

missed_none :
    (text : String) (cs : List Criterion)
    → (length (filter (λ c. not (meets text c)) cs) ≡ 0) ↔ All (λ c. meets text c ≡ true) cs
missed_none text [] = ((λ _. tt), (λ _. refl))
missed_none text (c ∷ cs) =
    let (there, back) = missed_none text cs in
    elim (Bool-cases (meets text c)) [
      | inl e ↦ ((λ h. (e, there (rw e at h))), (λ (_, h). rw e (back h)))
      | inr e ↦ ((λ h. absurd (let h' = rw e at h in omega (arith, h'))), (λ (h, _). cc))
    ]

missed_le :
    (text : String) (cs : List Criterion) → length (filter (λ c. not (meets text c)) cs) ≤ length cs
missed_le text [] = omega arith
missed_le text (c ∷ cs) = ground (arith, missed_le text cs)

strict-grade :
    (task_key : String) (cs : List Criterion) (text : String)
    → (strict (grade task_key cs text) ≡ true)
      ↔ ((1 ≤ length cs) × All (λ c. meets text c ≡ true) cs)
unfolding strict grade
strict-grade task_key cs text =
    let (there, back) = missed_none text cs in
    let le = missed_le text cs in
    (
      (λ h. (ground arith, there (ground arith))),
      (λ (some_step, all). let z = back all in ground (arith, z)),
    )

lenient-grade :
    (task_key : String) (cs : List Criterion) (text : String)
    → (lenient (grade task_key cs text) ≡ true)
      ↔ ((1 ≤ length cs) × (length (filter (λ c. not (meets text c)) cs) ≤ 1))
unfolding lenient grade
lenient-grade task_key cs text =
    let le = missed_le text cs in ((λ h. (ground arith, ground arith)), (λ h. ground arith))

strict-lenient : (v : Verdict) → (lenient v ≡ true) ⊎ (strict v ≡ false)
unfolding strict lenient
strict-lenient v = ground arith

-- The two verdicts on an answer to a task with a procedure: it passes strictly exactly if the procedure
-- has a step and each step has one of its keywords in the answer in lower case, and leniently exactly
-- if it has a step and at most one step lacks its keywords. A strict pass is a lenient one.
pub verify_verdicts :
    (lower : String → String) (ps : Procedures) (task_key response_text : String)
    (cs : List Criterion)
    → procedure ps task_key ≡ some cs
    → (v : Verdict) × (verify lower ps task_key response_text ≡ some v)
      × ((strict v ≡ true) ↔ ((1 ≤ length cs) × All (λ c. meets (lower response_text) c ≡ true) cs))
      × ((lenient v ≡ true)
          ↔ ((1 ≤ length cs) × (length (filter (λ c. not (meets (lower response_text) c)) cs) ≤ 1)))
      × ((lenient v ≡ true) ⊎ (strict v ≡ false))
unfolding verify
verify_verdicts lower ps task_key response_text cs hit = (
  grade task_key cs (lower response_text),
  ground (arith, hit),
  strict-grade task_key cs (lower response_text),
  lenient-grade task_key cs (lower response_text),
  strict-lenient (grade task_key cs (lower response_text)),
)
