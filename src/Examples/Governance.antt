-- ===== src/Examples/Governance.antt =====
-- The theorems on histories at the history of one memory: stored, injected, and reported.
use action_cloud.Prelude.{
  ◌≤◌, ◌≡◌, ◌≢◌, refl, string_eq, nat_eq, true, none, some, [], ◌∷◌, count, arith,
}
use mathlib.Core.List.{Memᴰ}
use action_cloud.Table.{find, replace}
use action_cloud.Schema.{shared, new_experience}
use action_cloud.Judge.{decide}
use action_cloud.Store.{insert_enriched_experience, Row, ReuseEvent, empty, record_injections}
use action_cloud.Store.Ledger.{is_reported}
use action_cloud.Store.Consistency.{at_id, IsConsistent}
use action_cloud.Store.Consistency.Report.{reported-IsConsistent}
use action_cloud.Store.Reuse.{reported}
use action_cloud.Pipeline.{process_experience}
use action_cloud.Service.{record_reuse}
use action_cloud.Governance.{stores, injects, reports, Reach, here, next}
use action_cloud.Governance.Fleet.{
  IsGoverned, empty-IsGoverned, Reach-IsGoverned, fleet_visible_vouched,
}
use action_cloud.Governance.Quarantine.{IsPrivate, quarantine_terminal}
use action_cloud.Examples.Rounding.{half_up}
use action_cloud.Examples.Data.{
  payload, plain, row_or, failed_payload, failed_attempt, failed_injected, stored, injected,
  reported_once,
}

injected_hit : record_injections stored (7 ∷ []) "bob" 1 ≡ some injected
unfolding process_experience record_injections find insert_enriched_experience new_experience
injected_hit = refl

after_injection : Reach half_up empty injected
after_injection =
    next (next here (stores plain payload 7 true 0)) (injects (7 ∷ []) "bob" 1 injected_hit)

shared_history : Reach half_up empty reported_once
unfolding record_reuse record_injections process_experience find insert_enriched_experience
    new_experience
shared_history = next after_injection (reports 7 true (some "bob") 2 refl)

-- Row 7 after the report.
abbrev shared_row : Row
shared_row = row_or (at_id reported_once 7)

shared_row_hit : at_id reported_once 7 ≡ some shared_row
unfolding record_reuse record_injections process_experience find insert_enriched_experience
    new_experience replace decide
shared_row_hit = refl

shared_row_tier : shared_row.tier ≡ shared
unfolding record_reuse record_injections process_experience find insert_enriched_experience
    new_experience replace decide
shared_row_tier = refl

fleet_visible_vouched_example :
    (e : ReuseEvent) × Memᴰ e reported_once.reuse_events
    × (e.experience_id ≡ 7)
    × (e.counted ≡ true)
    × (e.success ≡ true)
    × (e.reporter_agent_id ≢ shared_row.agent_id)
    × (1 ≤ count (is_reported 7 e.reporter_agent_id) reported_once.injections)
fleet_visible_vouched_example =
    fleet_visible_vouched half_up reported_once 7 shared_row shared_history shared_row_hit
      (ground (arith, shared_row_tier))

Reach-IsGoverned_example : IsGoverned reported_once
Reach-IsGoverned_example = Reach-IsGoverned half_up (empty-IsGoverned half_up) shared_history

-- A failed attempt of Alice, which Bob is then given.
failed_history : Reach half_up empty failed_attempt
failed_history = next here (stores plain failed_payload 8 true 0)

after_failure : Reach half_up failed_attempt failed_injected
unfolding process_experience record_injections find insert_enriched_experience new_experience
after_failure = next here (injects (8 ∷ []) "bob" 1 refl)

failed-IsPrivate : IsPrivate 8 "alice" failed_attempt
unfolding process_experience find insert_enriched_experience new_experience
failed-IsPrivate = (row_or (at_id failed_attempt 8), refl, refl, refl)

quarantine_terminal_example : IsPrivate 8 "alice" failed_injected
quarantine_terminal_example =
    quarantine_terminal half_up 8 "alice" failed_attempt failed_injected
      (Reach-IsGoverned half_up (empty-IsGoverned half_up) failed_history) after_failure
      failed-IsPrivate

stored_history : Reach half_up empty stored
stored_history = next here (stores plain payload 7 true 0)

pub stored-IsConsistent : IsConsistent stored
stored-IsConsistent =
    (Reach-IsGoverned half_up (empty-IsGoverned half_up) stored_history).consistent

stored_hit : at_id stored 7 ≡ some (row_or (at_id stored 7))
unfolding process_experience find insert_enriched_experience new_experience
stored_hit = refl

reported-IsConsistent_example :
    IsConsistent
      (reported (decide half_up) "judge" none stored (row_or (at_id stored 7)) 7 true "bob" 1).0
reported-IsConsistent_example =
    reported-IsConsistent (decide half_up) "judge" none stored (row_or (at_id stored 7)) 7 true
      "bob" 1 stored-IsConsistent stored_hit
