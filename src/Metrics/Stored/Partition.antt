-- ===== src/Metrics/Stored/Partition.antt =====
-- No stored experience is counted twice or left out, and no figure of a comparison is above 100 %.
use action_cloud.Prelude.{
  ℕ, zero, suc, ◌+◌, ◌-◌, ◌*◌, ◌≤◌, ◌<◌, ◌≡◌, refl, sym, ap, ◌∙◌, ◌⊎◌, inl, inr, String, string_eq,
  nat_eq, Bool, true, false, Option, List, [], ◌∷◌, ◌==◌, map, filter, count, sort, length,
  length-append, count-sort, arith, Bool-cases, leb,
}
use action_cloud.Prelude.Int.{pos, negsuc}
use action_cloud.Schema.{
  SystemCondition, MemoryTier, private, agent, shared, validated, organizational,
}
use action_cloud.Judge.{Rounding}
use action_cloud.Judge.Confidence.{round-le}
use action_cloud.Store.{Row, Store}
use action_cloud.Metrics.{TaskOutcome, Metrics, compute_metrics}
use action_cloud.Metrics.Stored.{
  negated, saving, of_run, or_none, earlier, Groups, add_row, group, in_tier, TierRow, row_of,
  run_rows, tier_rows, calculate_run_metrics,
}

negated_cases : (n : ℕ) → (negated n ≡ pos 0) ⊎ ((m : ℕ) × (negated n ≡ negsuc m))
negated_cases zero = inl refl
negated_cases (suc n) = inr (n, refl)

-- The tasks of all the systems, and the rows of all the tiers.
abbrev pub sum_tasks : List (SystemCondition × Metrics) → ℕ
sum_tasks [] = 0
sum_tasks ((name, m) ∷ rest) = m.total_tasks + sum_tasks rest

abbrev pub sum_tiers : List TierRow → ℕ
sum_tiers [] = 0
sum_tiers (t ∷ ts) = t.tier_count + sum_tiers ts

abbrev grouped : Groups → ℕ
grouped [] = 0
grouped ((name, rows) ∷ groups) = length rows + grouped groups

grouped-add_row :
    (name : SystemCondition) (row : TaskOutcome) (groups : Groups)
    → grouped (add_row name row groups) ≡ suc (grouped groups)
unfolding add_row
grouped-add_row name row [] = refl
grouped-add_row name row ((other, rows) ∷ groups) =
    ground (arith, length-append rows (row ∷ []), grouped-add_row name row groups)

grouped-group :
    (rows : List (SystemCondition × TaskOutcome)) (groups : Groups)
    → grouped (group rows groups) ≡ grouped groups + length rows
unfolding group
grouped-group [] groups = omega arith
grouped-group ((name, row) ∷ rows) groups =
    omega (arith, grouped-group rows (add_row name row groups), grouped-add_row name row groups)

sum_tasks-groups :
    (r : Rounding) (groups : Groups)
    → sum_tasks (
        map
          (λ ((name, rows) : SystemCondition × List TaskOutcome). (name, compute_metrics r rows))
          groups)
      ≡ grouped groups
unfolding compute_metrics
sum_tasks-groups r [] = refl
sum_tasks-groups r ((name, rows) ∷ groups) = ap (λ n. length rows + n) (sum_tasks-groups r groups)

length-map : {A B : Type 0} (f : A → B) (xs : List A) → length (map f xs) ≡ length xs
length-map f [] = refl
length-map f (x ∷ xs) = ap suc (length-map f xs)

length-count : (p : Row → Bool) (xs : List Row) → length (filter p xs) ≡ count p xs
length-count p [] = refl
length-count p (x ∷ xs) = ground (arith, length-count p xs)

count_all : (xs : List Row) → count (λ x. true) xs ≡ length xs
count_all [] = refl
count_all (x ∷ xs) = ap suc (count_all xs)

length-run_rows :
    (ordered : List (Option String) → List (Option String)) (s : Store) (run_id : Option String)
    → length (run_rows ordered s run_id) ≡ count (of_run run_id) s.experiences
unfolding run_rows
length-run_rows ordered s run_id =
    let es = filter (of_run run_id) s.experiences in
    length-map (row_of ordered s) (sort earlier es)
    ∙ sym (count_all (sort earlier es))
    ∙ count-sort earlier (λ x. true) es
    ∙ count_all es
    ∙ length-count (of_run run_id) s.experiences

-- Each row of the run is in exactly one tier.
five_tiers :
    (run_id : Option String) (xs : List Row)
    → count (in_tier run_id private) xs
        + count (in_tier run_id agent) xs
        + count (in_tier run_id shared) xs
        + count (in_tier run_id validated) xs
        + count (in_tier run_id organizational) xs
      ≡ count (of_run run_id) xs
five_tiers run_id [] = refl
five_tiers run_id (x ∷ xs) = ground (arith, five_tiers run_id xs)

sum_tiers-cons :
    (r : Rounding) (s : Store) (run_id : Option String) (tier : MemoryTier)
    (tiers : List MemoryTier)
    → sum_tiers (tier_rows r s run_id (tier ∷ tiers))
      ≡ count (in_tier run_id tier) s.experiences + sum_tiers (tier_rows r s run_id tiers)
unfolding tier_rows
sum_tiers-cons r s run_id tier tiers =
    elim (Bool-cases (count (in_tier run_id tier) s.experiences == 0)) [
      | inl e ↦ rw e (
          let none_ : count (in_tier run_id tier) s.experiences ≡ 0 = ground (arith, e) in
          omega (arith, none_))
      | inr e ↦ rw e refl
    ]

sum_tiers-nil :
    (r : Rounding) (s : Store) (run_id : Option String) → sum_tiers (tier_rows r s run_id []) ≡ 0
unfolding tier_rows
sum_tiers-nil r s run_id = refl

-- The metrics of a run count every stored experience of the run once: the tasks of all the systems are as
-- many as the rows of the run, and so are the counts of all the tiers together.
pub calculate_run_metrics_partition :
    (r : Rounding) (s : Store) (ordered : List (Option String) → List (Option String))
    (asked : Option String)
    → let m = calculate_run_metrics r s ordered asked in
      (sum_tasks m.systems ≡ count (of_run m.run_id) s.experiences)
      × (sum_tiers m.governance_tier_distribution ≡ count (of_run m.run_id) s.experiences)
unfolding calculate_run_metrics
calculate_run_metrics_partition r s ordered asked =
    let run_id = or_none asked in
    let rows = run_rows ordered s run_id in
    let five = five_tiers run_id s.experiences in
    (
      sum_tasks-groups r (group rows [])
          ∙ omega (arith, grouped-group rows [], length-run_rows ordered s run_id),
      omega (
        arith,
        five,
        sum_tiers-cons r s run_id private (agent ∷ shared ∷ validated ∷ organizational ∷ []),
        sum_tiers-cons r s run_id agent (shared ∷ validated ∷ organizational ∷ []),
        sum_tiers-cons r s run_id shared (validated ∷ organizational ∷ []),
        sum_tiers-cons r s run_id validated (organizational ∷ []),
        sum_tiers-cons r s run_id organizational [],
        sum_tiers-nil r s run_id,
      ),
    )

-- What a saving says: nothing where the baseline took nothing; between 0 and 100 % where the treatment
-- took no more; and where it took more, a loss, or nothing if the loss rounds to nothing.
pub saving_sign :
    (r : Rounding) (b t : ℕ)
    → ((b ≡ 0) × (saving r b t ≡ pos 0))
      ⊎ ((t ≤ b) × (n : ℕ) × (saving r b t ≡ pos n) × (n ≤ 10000))
      ⊎ ((b < t) × ((saving r b t ≡ pos 0) ⊎ ((n : ℕ) × (saving r b t ≡ negsuc n))))
unfolding saving
saving_sign r zero t = inl (refl, refl)
saving_sign r (suc b) t = elim (Bool-cases (leb t (suc b))) [
  | inl e ↦
      let bound = round-le r (10000 * (suc b - t)) (suc b) 10000 (omega arith) (omega arith) in
      inr (inl (ground (arith, e), r.round (10000 * (suc b - t)) (suc b), ground (arith, e), bound))
  | inr e ↦
      let positive : (suc b == 0) ≡ false = ground arith in
      inr (
        inr (
          ground (arith, e),
          rw (positive, e) (negated_cases (r.round (10000 * (t - suc b)) (suc b))),
        ))
]
