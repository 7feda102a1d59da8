-- ===== src/Store/Consistency.antt =====
-- The tables agree with one another: what every transaction of src/actioncloud/db.py keeps.
pub mod Report
pub mod Insert
use action_cloud.Prelude.{
  ℕ, suc, ◌+◌, ◌≤◌, ◌≡◌, refl, sym, ap, ◌∙◌, ◌⊎◌, inl, inr, String, string_eq, nat_eq, Bool, true,
  false, not, ◌&&◌, Option, none, some, List, [], ◌∷◌, ◌++◌, map, arith, ◌==◌, append-nil,
  if◌then◌else◌, any, beq_refl, Bool-cases, count, count-append, Distinct, subst,
}
use action_cloud.Table.{
  find, replace, find-replace, find-insert, key-find, keys-replace, Distinct-insert,
}
use action_cloud.Schema.{MemoryTier, Experience, Workflow, Triple}
use action_cloud.Judge.{Reason}
use action_cloud.Store.{
  Vector, Row, Injection, ReuseEvent, Transition, Store, row_id, empty, enriched_row,
  insert_enriched_experience, injections_of, record_injections, get_experience,
}
use action_cloud.Store.Reuse.{
  Decide, ConfidenceFn, TierChange, Outcome, consume_injection, is_author_failure,
  reuse_is_countable, judged, logged, reported, apply_reuse,
}
use action_cloud.Store.Ledger.{
  is_counted, is_counted_success, is_counted_by, is_success_by, is_reported, bit,
  count-consume_injection, count_split, count-any, count_by_le, count_success_by_le, or_else,
  entry_tier, last_tier, last_tier-snoc,
}

abbrev pub reuses_of : Option Row → ℕ
reuses_of none = 0
reuses_of (some row) = row.reuse_count

abbrev pub successes_of : Option Row → ℕ
successes_of none = 0
successes_of (some row) = row.reuse_success_count

abbrev pub tier_of : Option Row → Option MemoryTier
tier_of none = none
tier_of (some row) = some row.tier

abbrev pub is_author : Option Row → String → Bool
is_author none agent = false
is_author (some row) agent = agent == row.agent_id

abbrev pub at_id : Store → ℕ → Option Row
at_id s id = find row_id id s.experiences

pub record IsConsistent (s : Store) : Type 0 where
  -- the primary key
  pub keys : Distinct (map row_id s.experiences)
  -- a memory's counters are its counted events
  pub reuses : (id : ℕ) → count (is_counted id) s.reuse_events ≡ reuses_of (at_id s id)
  pub successes :
      (id : ℕ) → count (is_counted_success id) s.reuse_events ≡ successes_of (at_id s id)
  -- a memory's tier is the last entry of its audit log
  pub tiers : (id : ℕ) → last_tier id s.tier_transitions ≡ tier_of (at_id s id)
  -- another agent's counted reports are as many as the injections that they used up
  pub injected :
      (id : ℕ) (agent : String)
      → is_author (at_id s id) agent ≡ false
      → count (is_counted_by id agent) s.reuse_events ≡ count (is_reported id agent) s.injections
  -- the author's are at most one, and no success
  pub self_reports :
      (id : ℕ) (agent : String)
      → is_author (at_id s id) agent ≡ true
      → (count (is_counted_by id agent) s.reuse_events ≤ 1)
        × (count (is_success_by id agent) s.reuse_events ≡ 0)

pub empty-IsConsistent : IsConsistent empty
unfolding find last_tier
empty-IsConsistent = record {
  keys = tt;
  reuses = λ id. refl;
  successes = λ id. refl;
  tiers = λ id. refl;
  injected = λ id agent h. refl;
  self_reports = λ id agent h. cc;
}
