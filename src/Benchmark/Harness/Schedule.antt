-- ===== src/Benchmark/Harness/Schedule.antt =====
-- What the workload of an arm holds.
use action_cloud.Prelude.{
  ℕ, zero, suc, ◌*◌, ◌≡◌, refl, String, Bool, List, [], ◌∷◌, map, arith, count, count-append,
}
use action_cloud.Render.{decimal, ◌⧺◌}
use action_cloud.Benchmark.Harness.{
  Task, Instance, Workload, limited, instance_of, epochs_from, instances,
}

count-instance_of :
    (p : Task → Bool) (epoch : ℕ) (ts : List Task)
    → count (λ (i : Instance). p i.entry) (map (instance_of epoch) ts) ≡ count p ts
count-instance_of p epoch [] = refl
count-instance_of p epoch (t ∷ ts) = ground (arith, count-instance_of p epoch ts)

module _ (shuffle : String → List Task → List Task) (tasks : List Task)
    (permutes : (seed : String) (ts : List Task) (p : Task → Bool)
      → count p (shuffle seed ts) ≡ count p ts) where
  count-epochs_from :
      (p : Task → Bool) (w : Workload) (n epoch : ℕ)
      → count (λ (i : Instance). p i.entry) (epochs_from shuffle tasks w n epoch)
        ≡ n * count p (limited w.limit tasks)
  unfolding epochs_from
  count-epochs_from p w zero epoch = grind arith
  count-epochs_from p w (suc n) epoch =
      let ts = limited w.limit tasks in
      let mixed = shuffle (decimal w.seed ⧺ ":" ⧺ decimal epoch) ts in
      let one = count-instance_of p epoch mixed in
      let same = permutes (decimal w.seed ⧺ ":" ⧺ decimal epoch) ts p in
      let all =
        count-append (λ (i : Instance). p i.entry) (map (instance_of epoch) mixed)
          (epochs_from shuffle tasks w n (suc epoch)) in
      let rest = count-epochs_from p w n (suc epoch) in grind (arith, one, same, all, rest)

  -- A workload gives every task of its selection once in every epoch: where the shuffle only reorders, the
  -- instances of the tasks that pass any test are as many as these tasks, times the epochs.
  pub count-instances :
      (p : Task → Bool) (w : Workload)
      → count (λ (i : Instance). p i.entry) (instances shuffle tasks w)
        ≡ w.epochs * count p (limited w.limit tasks)
  unfolding instances
  count-instances p w = count-epochs_from p w w.epochs 0
