-- ===== src/Metrics/Bounds.antt =====
-- src/actioncloud/metrics.py: the bounds of the figures of compute_metrics.
use action_cloud.Prelude.{
  zero, suc, subst, ℕ, ◌+◌, ◌*◌, ◌≤◌, ◌≡◌, refl, String, string_eq, nat_eq, Bool, true, false, not,
  ◌&&◌, Option, List, [], ◌∷◌, any, count, length, All, arith,
}
use action_cloud.Judge.{Rounding}
use action_cloud.Judge.Confidence.{round-le, le-round}
use action_cloud.Metrics.{
  TaskOutcome, is_key, Tally, no_tally, one_if, is_repeat, is_injected, add_outcome, tally, Metrics,
  ratio_of, pct, compute_metrics,
}

-- What the counters have to do with one another after n tasks.
record IsTally (n : ℕ) (t : Tally) : Type 0 where
  redundant_lte : t.redundant ≤ t.repeats
  repeats_lte : t.repeats ≤ n
  injected_lte : t.tasks_injected ≤ n
  total_gte : t.tasks_injected ≤ t.injected_total
  precision_lte : t.injected_relevant ≤ t.injected_total
  relevant_gte : t.tasks_relevant ≤ t.injected_relevant
  relevant_lte : t.tasks_relevant ≤ t.tasks_injected
  effective_lte : t.relevant_success ≤ t.tasks_relevant
  success_lte : t.relevant_success ≤ t.successes
  successes_lte : t.successes ≤ n

no_tally-IsTally : IsTally 0 no_tally
no_tally-IsTally = record {
  redundant_lte = omega arith;
  repeats_lte = omega arith;
  injected_lte = omega arith;
  total_gte = omega arith;
  precision_lte = omega arith;
  relevant_gte = omega arith;
  relevant_lte = omega arith;
  effective_lte = omega arith;
  success_lte = omega arith;
  successes_lte = omega arith;
}

one_if-count :
    (p : Option String → Bool) (ks : List (Option String)) → one_if (any p ks) ≤ count p ks
one_if-count p [] = omega arith
one_if-count p (k ∷ ks) = ground (arith, one_if-count p ks)

count-length : (p : Option String → Bool) (ks : List (Option String)) → count p ks ≤ length ks
count-length p [] = omega arith
count-length p (k ∷ ks) = ground (arith, count-length p ks)

injected_one : (ks : List (Option String)) → one_if (is_injected ks) ≤ length ks
injected_one [] = omega arith
injected_one (k ∷ ks) = omega arith

relevant_injected :
    (p : Option String → Bool) (ks : List (Option String))
    → one_if (any p ks) ≤ one_if (is_injected ks)
relevant_injected p [] = omega arith
relevant_injected p (k ∷ ks) = ground arith

one_if-and :
    (b c : Bool) → (one_if (b && c) ≤ one_if b) × (one_if (b && c) ≤ one_if c) × (one_if b ≤ 1)
one_if-and b c = ground arith

add_outcome-IsTally :
    (n : ℕ) (t : Tally) (r : TaskOutcome) → IsTally n t → IsTally (n + 1) (add_outcome t r)
unfolding add_outcome
add_outcome-IsTally n t r h =
    let inj = r.injected_task_keys in
    let relevant = any (is_key r.task_key) inj in
    let again = is_repeat t.solved_keys r.task_key in
    let a = one_if-count (is_key r.task_key) inj in
    let b = count-length (is_key r.task_key) inj in
    let c = injected_one inj in
    let d = relevant_injected (is_key r.task_key) inj in
    let e = one_if-and again (not relevant) in
    let f = one_if-and relevant r.success in
    let g = one_if-and r.success true in
    let i = one_if-and (is_injected inj) true in
    record {
      redundant_lte = omega (arith, h.redundant_lte, e.0);
      repeats_lte = omega (arith, h.repeats_lte, e.2);
      injected_lte = omega (arith, h.injected_lte, i.2);
      total_gte = omega (arith, h.total_gte, c);
      precision_lte = omega (arith, h.precision_lte, b);
      relevant_gte = omega (arith, h.relevant_gte, a);
      relevant_lte = omega (arith, h.relevant_lte, d);
      effective_lte = omega (arith, h.effective_lte, f.0);
      success_lte = omega (arith, h.success_lte, f.1);
      successes_lte = omega (arith, h.successes_lte, g.2);
    }

tally-IsTally :
    (n : ℕ) (t : Tally) (rows : List TaskOutcome)
    → IsTally n t
    → IsTally (n + length rows) (tally t rows)
unfolding tally
tally-IsTally n t [] h = let e : n ≡ n + 0 = omega arith in subst (λ m. IsTally m t) e h
tally-IsTally n t (r ∷ rows) h =
    let e : n + 1 + length rows ≡ n + length (r ∷ rows) = omega arith in
    subst (λ m. IsTally m (tally (add_outcome t r) rows)) e
      (tally-IsTally (n + 1) (add_outcome t r) rows (add_outcome-IsTally n t r h))

run-IsTally : (rows : List TaskOutcome) → IsTally (length rows) (tally no_tally rows)
run-IsTally rows =
    let e : 0 + length rows ≡ length rows = omega arith in
    subst (λ m. IsTally m (tally no_tally rows)) e (tally-IsTally 0 no_tally rows no_tally-IsTally)

module _ (r : Rounding) where
  ratio_of_le : (a b : ℕ) → a ≤ b → ratio_of r 10000 a b ≤ 10000
  unfolding ratio_of
  ratio_of_le a zero h = omega arith
  ratio_of_le a (suc b) h =
      let low = round-le r (10000 * a) (suc b) 10000 (omega arith) (omega arith) in
      ground (arith, low)

  pub pct_le : (a b : ℕ) → a ≤ b → pct r a b ≤ 10000
  unfolding pct
  pct_le a b h = ratio_of_le a b h

  pub ratio_of_nothing : (scale b : ℕ) → ratio_of r scale 0 b ≡ 0
  unfolding ratio_of
  ratio_of_nothing scale zero = refl
  ratio_of_nothing scale (suc b) =
      let low = round-le r (scale * 0) (suc b) 0 (omega arith) (grind arith) in ground (arith, low)

  ratio_of_all : (b : ℕ) → 1 ≤ b → ratio_of r 10000 b b ≡ 10000
  unfolding ratio_of
  ratio_of_all zero h = absurd (omega arith)
  ratio_of_all (suc b) h =
      let up = round-le r (10000 * suc b) (suc b) 10000 (omega arith) (omega arith) in
      let low = le-round r (10000 * suc b) (suc b) 10000 (omega arith) (omega arith) in
      ground (arith, up, low)

  -- The shares of a run: every rate is at most 100 %, and the redundancy index at most 1.
  pub record IsShare (m : Metrics) : Type 0 where
    pub success : m.success_rate_pct ≤ 10000
    pub injection : m.injection_rate_pct ≤ 10000
    pub precision : m.retrieval_precision_pct ≤ 10000
    pub effective : m.effective_reuse_rate_pct ≤ 10000
    pub misled : m.misled_rate_pct ≤ 10000
    pub redundancy : m.redundancy_index ≤ 10000

  -- For every run, of any outcomes in any order, each rate is at most 100 % and the redundancy index
  -- at most 1.
  pub compute_metrics-IsShare : (rows : List TaskOutcome) → IsShare (compute_metrics r rows)
  unfolding compute_metrics
  compute_metrics-IsShare rows =
      let h = run-IsTally rows in
      record {
        success = ratio_of_le _ _ h.successes_lte;
        injection = ratio_of_le _ _ h.injected_lte;
        precision = ratio_of_le _ _ h.precision_lte;
        effective =
            ratio_of_le _ _ (omega (arith, h.effective_lte, h.relevant_lte, h.injected_lte));
        misled = ratio_of_le _ _ (omega arith);
        redundancy = ratio_of_le _ _ h.redundant_lte;
      }

-- No injection in a run: the stateless baseline.
abbrev pub is_stateless : TaskOutcome → Bool
is_stateless r = not (is_injected r.injected_task_keys)

no_match :
    (p : Option String → Bool) (ks : List (Option String))
    → not (is_injected ks) ≡ true
    → any p ks ≡ false
no_match p [] h = refl
no_match p (k ∷ ks) h = cc

add_stateless :
    (t : Tally) (r : TaskOutcome)
    → is_stateless r ≡ true
    → t.redundant ≡ t.repeats
    → (add_outcome t r).redundant ≡ (add_outcome t r).repeats
unfolding add_outcome
add_stateless t r h e = ground (arith, no_match (is_key r.task_key) r.injected_task_keys h)

stateless_tally :
    (t : Tally) (rows : List TaskOutcome)
    → All (λ r. is_stateless r ≡ true) rows
    → t.redundant ≡ t.repeats
    → (tally t rows).redundant ≡ (tally t rows).repeats
unfolding tally
stateless_tally t [] h e = e
stateless_tally t (r ∷ rows) h e =
    stateless_tally (add_outcome t r) rows h.1 (add_stateless t r h.0 e)

-- A run that injects nothing derives every repeated task again: if a task is repeated at all, its
-- redundancy index is 1.
pub stateless_redundancy :
    (r : Rounding) (rows : List TaskOutcome)
    → All (λ o. is_stateless o ≡ true) rows
    → 1 ≤ (compute_metrics r rows).repeat_tasks
    → (compute_metrics r rows).redundancy_index ≡ 10000
unfolding compute_metrics
stateless_redundancy r rows h some_repeat =
    let e = stateless_tally no_tally rows h refl in rw e (ratio_of_all r _ some_repeat)
