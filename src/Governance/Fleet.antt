-- ===== src/Governance/Fleet.antt =====
-- What holds of the store after any history of calls under governance.
use action_cloud.Prelude.{
  ℕ, ◌≤◌, ◌≡◌, ◌≢◌, refl, ap, inl, inr, String, string_eq, nat_eq, Bool, true, false, some, List,
  [], ◌∷◌, arith, Bool-cases, count, beq_refl, All,
}
use mathlib.Core.List.{Memᴰ}
use action_cloud.Table.{All-find}
use action_cloud.Schema.{rank}
use action_cloud.Judge.{Rounding}
use action_cloud.Store.{Row, Store, ReuseEvent, empty, row_id}
use action_cloud.Store.Ledger.{is_counted_success, is_counted_by, is_success_by, is_reported}
use action_cloud.Store.Consistency.{at_id, is_author, IsConsistent, empty-IsConsistent}
use action_cloud.Store.Consistency.Report.{reported-IsConsistent}
use action_cloud.Store.Consistency.Insert.{
  insert_enriched_experience-IsConsistent, record_injections-IsConsistent, record_injections_tables,
}
use action_cloud.Pipeline.{process_experience}
use action_cloud.Governance.{Step, stores, injects, reports, Reach, here, next}
use action_cloud.Governance.Earned.{IsEarned, stores-IsEarned, reports-IsEarned, record_reuse_inv}

pub record IsGoverned (s : Store) : Type 0 where
  pub consistent : IsConsistent s
  pub earned : All IsEarned s.experiences

module _ (r : Rounding) where
  pub Step-IsConsistent : {s t : Store} → IsConsistent s → Step r s t → IsConsistent t
  unfolding process_experience
  Step-IsConsistent {s} c (stores enrichers payload id author_prior now) =
      insert_enriched_experience-IsConsistent s c _ _ _ _ _ _ now
  Step-IsConsistent {s} {t} c (injects ids agent now e) =
      record_injections-IsConsistent s t ids agent now c e
  Step-IsConsistent {s} {t} c (reports {reply = reply} id success agent now e) =
      let (reporter, row, hit, after) = record_reuse_inv r s t reply id success agent now e in
      rw after (reported-IsConsistent _ _ _ s row id success reporter now c hit)

  Step-IsEarned :
      {s t : Store} → All IsEarned s.experiences → Step r s t → All IsEarned t.experiences
  Step-IsEarned {s} h (stores enrichers payload id author_prior now) =
      stores-IsEarned r s h enrichers payload id author_prior now
  Step-IsEarned {s} {t} h (injects ids agent now e) =
      rw ((record_injections_tables s t ids agent now e).0) h
  Step-IsEarned {s} {t} h (reports {reply = reply} id success agent now e) =
      reports-IsEarned r s t reply id success agent now h e

  -- From a store whose tables agree and whose tiers are earned, every history of stored experiences,
  -- injections and reuse reports leads to such a store.
  pub Reach-IsGoverned : {s t : Store} → IsGoverned s → Reach r s t → IsGoverned t
  Reach-IsGoverned g here = g
  Reach-IsGoverned g (next history step) =
      let before = Reach-IsGoverned g history in
      record {
        consistent = Step-IsConsistent before.consistent step;
        earned = Step-IsEarned before.earned step;
      }

  pub empty-IsGoverned : IsGoverned empty
  empty-IsGoverned = record { consistent = empty-IsConsistent; earned = tt }

find_success :
    (id : ℕ) (author : String) (es : List ReuseEvent)
    → count (is_success_by id author) es ≡ 0
    → 1 ≤ count (is_counted_success id) es
    → (e : ReuseEvent) × Memᴰ e es
      × (e.experience_id ≡ id)
      × (e.counted ≡ true)
      × (e.success ≡ true)
      × (e.reporter_agent_id ≢ author)
find_success id author [] h k = absurd (omega arith)
find_success id author (e ∷ es) h k = elim (Bool-cases (is_counted_success id e)) [
  | inl yes_ ↦ (
    e,
    Memᴰ.head refl,
    ground arith,
    ground arith,
    ground arith,
    λ same. ground (arith, string_eq.same_iff e.reporter_agent_id author),
  )
  | inr no_ ↦
      let (found, there, same, counted, success, other) =
        find_success id author es (ground arith) (ground arith) in
      (found, Memᴰ.tail there, same, counted, success, other)
]

count_pos :
    (p : ReuseEvent → Bool) {e : ReuseEvent} {es : List ReuseEvent}
    → Memᴰ e es
    → p e ≡ true
    → 1 ≤ count p es
count_pos p (Memᴰ.head same) h = let here_ = ap p same in ground (arith, here_)
count_pos p (Memᴰ.tail there) h = ground (arith, count_pos p there h)

-- No memory gets into the fleet's sight on its author's word: in every store that some history under
-- governance from the empty one leads to, a memory at SHARED or above has a counted success that another agent
-- reported, and that agent has an injection of this memory which a report used up.
pub fleet_visible_vouched :
    (r : Rounding) (s : Store) (id : ℕ) (row : Row)
    → Reach r empty s
    → at_id s id ≡ some row
    → 2 ≤ rank row.tier
    → (e : ReuseEvent) × Memᴰ e s.reuse_events
      × (e.experience_id ≡ id)
      × (e.counted ≡ true)
      × (e.success ≡ true)
      × (e.reporter_agent_id ≢ row.agent_id)
      × (1 ≤ count (is_reported id e.reporter_agent_id) s.injections)
fleet_visible_vouched r s id row history hit visible =
    let governed = Reach-IsGoverned r (empty-IsGoverned r) history in
    let c = governed.consistent in
    let earned = All-find row_id IsEarned id s.experiences row governed.earned hit in
    let self : is_author (at_id s id) row.agent_id ≡ true = rw hit (beq_refl row.agent_id) in
    let one : 1 ≤ count (is_counted_success id) s.reuse_events =
      ground (arith, earned.shared_earned, c.successes id, hit) in
    let (e, there, same, counted, success, other) =
      find_success id row.agent_id s.reuse_events (c.self_reports id row.agent_id self).1 one in
    let reporter = e.reporter_agent_id in
    let stranger : is_author (at_id s id) reporter ≡ false =
      ground (arith, hit, string_eq.same_iff reporter row.agent_id) in
    let mine : 1 ≤ count (is_counted_by id reporter) s.reuse_events =
      count_pos (is_counted_by id reporter) there
        (ground (arith, string_eq.same_iff reporter reporter)) in
    (e, there, same, counted, success, other, omega (arith, mine, c.injected id reporter stranger))
