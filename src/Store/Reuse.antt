-- ===== src/Store/Reuse.antt =====
-- db.apply_reuse of src/actioncloud/db.py with _reuse_is_countable, and the other writes to one row.
use action_cloud.Prelude.{
  ℕ, ◌+◌, String, string_eq, nat_eq, Bool, true, false, not, ◌&&◌, Option, none, some, List, [],
  ◌∷◌, ◌++◌, ◌==◌, if◌then◌else◌, any,
}
use action_cloud.Table.{replace}
use action_cloud.Schema.{MemoryTier}
use action_cloud.Judge.{Reason}
use action_cloud.Store.{Row, Injection, ReuseEvent, Transition, Store, row_id, get_experience}

-- Why a report counts or not.
pub data Why : Type 0 where
  positive_self_report_ignored author_already_reported author_reported_failed : Why
  no_unreported_injection counted_against_injection : Why

abbrev pub is_open : Injection → ℕ → String → Bool
is_open i id agent =
    i.experience_id == id
    && (i.agent_id == agent && elim i.reported_at [ none ↦ true | some _ ↦ false ])

-- UPDATE injections SET reported_at = now() WHERE id = (SELECT … ORDER BY created_at LIMIT 1): the
-- oldest open injection of this memory to this agent, and whether there was one. The rows stand in
-- the order of created_at, and one memory's are locked by its own row alone, so none is skipped.
unfoldable pub consume_injection : List Injection → ℕ → String → ℕ → List Injection × Bool
consume_injection [] id agent now = ([], false)
consume_injection (i ∷ is) id agent now =
    let (rest, found) = consume_injection is id agent now in
    if is_open i id agent
    then (record i { reported_at = some now } ∷ is, true)
    else (i ∷ rest, found)

abbrev pub is_author_failure : ReuseEvent → ℕ → String → Bool
is_author_failure e id reporter =
    e.experience_id == id && (e.reporter_agent_id == reporter && (e.counted && not e.success))

unfoldable pub reuse_is_countable : Store → Row → String → Bool → ℕ → List Injection × Bool × Why
unfolding consume_injection
reuse_is_countable s row reporter success now =
    if reporter == row.agent_id
    then (if success
        then (s.injections, false, positive_self_report_ignored)
        else if any (λ e. is_author_failure e row.id reporter) s.reuse_events
        then (s.injections, false, author_already_reported)
        else (s.injections, true, author_reported_failed))
    else (let (injections, found) = consume_injection s.injections row.id reporter now in
        if found
        then (injections, true, counted_against_injection)
        else (s.injections, false, no_unreported_injection))

pub record TierChange : Type 0 where
  pub from_tier : MemoryTier
  pub to_tier : MemoryTier
  pub reason : Reason

pub record Outcome : Type 0 where
  pub row : Row
  pub counted : Bool
  pub why : Why
  pub transition : Option TierChange

-- reuse_count + 1, reuse_success_count + (1 if success else 0)
unfoldable pub counted_row : Row → Bool → Row
counted_row row success = record row {
  exp = record (row.exp) {
    reuse_count = row.reuse_count + 1;
    reuse_success_count = row.reuse_success_count + (if success then 1 else 0);
  };
}

abbrev pub Decide : Type 0
Decide = MemoryTier → ℕ → ℕ → ℕ → Option (MemoryTier × ℕ × Reason)

abbrev pub ConfidenceFn : Type 0
ConfidenceFn = ℕ → ℕ → ℕ → ℕ

-- The entry of the audit log for a tier change, if there was one.
abbrev pub logged : String → ℕ → Option TierChange → List Transition
logged decided_by id none = []
logged decided_by id (some t) =
    record {
      experience_id = id;
      from_tier = some t.from_tier;
      to_tier = t.to_tier;
      reason = t.reason;
      decided_by = decided_by;
    }
    ∷ []

module _ (decide : Decide) (decided_by : String) (confidence_fn : Option ConfidenceFn) where
  -- `confidence_fn` on the new counts, if there is one.
  unfoldable pub with_confidence : Row → Row
  with_confidence row = elim confidence_fn [
    | none ↦ row
    | some f ↦ record row {
      exp = record (row.exp) { confidence = f row.reuse_success_count row.reuse_count row.prior };
    }
  ]

  -- The judge's decision on a row, and what it changes.
  unfoldable pub decided : Row → Row × Option TierChange
  decided row = elim (decide row.tier row.confidence row.reuse_count row.reuse_success_count) [
    | none ↦ (row, none)
    | some (new_tier, new_conf, reason) ↦ (
      record row { exp = record (row.exp) { tier = new_tier; confidence = new_conf } },
      some (record { from_tier = row.tier; to_tier = new_tier; reason = reason }),
    )
  ]

  -- The row that a report leaves.
  unfoldable pub judged : Row → Bool → Bool → Row × Option TierChange
  unfolding counted_row with_confidence decided
  judged row success counted =
      if counted then decided (with_confidence (counted_row row success)) else (row, none)

  -- The transaction on the locked row.
  unfoldable pub reported : Store → Row → ℕ → Bool → String → ℕ → Store × Outcome
  unfolding reuse_is_countable judged
  reported s row id success reporter now =
      let (injections, counted, why) = reuse_is_countable s row reporter success now in
      let (after, transition) = judged row success counted in
      let event : ReuseEvent = record {
        experience_id = id;
        reporter_agent_id = reporter;
        success = success;
        counted = counted;
      } in
      (
        record {
          experiences = replace row_id after s.experiences;
          injections = injections;
          reuse_events = s.reuse_events ++ event ∷ [];
          tier_transitions = s.tier_transitions ++ logged decided_by id transition;
        },
        record { row = after; counted = counted; why = why; transition = transition },
      )

  -- `none` is the unknown id: the transaction is rolled back.
  unfoldable pub apply_reuse : Store → ℕ → Bool → String → ℕ → Option (Store × Outcome)
  unfolding get_experience reported
  apply_reuse s id success reporter now = elim (get_experience s id) [
    | none ↦ none
    | some row ↦ some (reported s row id success reporter now)
  ]
