-- ===== src/Store/Consistency/Insert.antt =====
-- Storing an experience and recording injections keep the tables consistent.
use action_cloud.Prelude.{
  ℕ, ◌≡◌, ◌⊎◌, All, All-append, refl, sym, ap, inl, inr, String, string_eq, nat_eq, Option, none,
  some, List, [], ◌∷◌, ◌++◌, arith, Bool-cases, Option-cases, Bool-cases, count, count-append,
  subst,
}
use action_cloud.Table.{find, find-insert, Distinct-insert, or_new}
use action_cloud.Schema.{Experience, Workflow, Triple}
use action_cloud.Judge.{Reason}
use action_cloud.Store.{
  Vector, Row, Transition, Store, row_id, enriched_row, insert_enriched_experience, injections_of,
  record_injections,
}
use action_cloud.Store.Ledger.{
  is_counted_by, is_reported, count_by_le, count_success_by_le, last_tier-snoc,
}
use action_cloud.Store.Consistency.{reuses_of, is_author, at_id, IsConsistent}

module _ (s : Store) (c : IsConsistent s) (exp : Experience) (workflow : Option Workflow)
    (triples : List Triple) (embedding : Option Vector) (reason : Reason) (decided_by : String)
    (now : ℕ) where
  abbrev inserted : Store
  inserted = (insert_enriched_experience s exp workflow triples embedding reason decided_by now).0

  abbrev new_row : Row
  new_row = enriched_row exp now workflow triples embedding

  new_row_lem :
      (new_row.id ≡ exp.id)
      × (new_row.tier ≡ exp.tier)
      × (new_row.reuse_count ≡ 0)
      × (new_row.reuse_success_count ≡ 0)
  unfolding enriched_row
  new_row_lem = (refl, refl, refl, refl)

  module _ (fresh : at_id s exp.id ≡ none) where
    abbrev new_entry : Transition
    new_entry = record {
      experience_id = exp.id;
      from_tier = none;
      to_tier = exp.tier;
      reason = reason;
      decided_by = decided_by;
    }

    inserted_tables :
        (inserted.experiences ≡ s.experiences ++ new_row ∷ [])
        × (inserted.tier_transitions ≡ s.tier_transitions ++ new_entry ∷ [])
        × (inserted.reuse_events ≡ s.reuse_events)
        × (inserted.injections ≡ s.injections)
    unfolding insert_enriched_experience
    inserted_tables = ground arith

    at_id-inserted : (j : ℕ) → at_id inserted j ≡ or_new row_id (at_id s j) new_row j
    at_id-inserted j = rw (inserted_tables.0) (find-insert row_id j new_row s.experiences)

    no_reports : (agent : String) → count (is_counted_by exp.id agent) s.reuse_events ≡ 0
    no_reports agent =
        omega (arith, count_by_le exp.id agent s.reuse_events, c.reuses exp.id, ap reuses_of fresh)

    fresh-IsConsistent : IsConsistent inserted
    fresh-IsConsistent = record {
      keys =
          rw (inserted_tables.0)
            (Distinct-insert row_id new_row s.experiences (rw (new_row_lem.0) fresh) c.keys);
      reuses = λ j.
          rw (inserted_tables.2, at_id-inserted j) (ground (arith, c.reuses j, new_row_lem, fresh));
      successes = λ j.
          rw (inserted_tables.2, at_id-inserted j)
            (ground (arith, c.successes j, new_row_lem, fresh));
      tiers = λ j.
          rw (inserted_tables.1, at_id-inserted j, last_tier-snoc)
            (ground (arith, c.tiers j, new_row_lem, fresh));
      injected = λ j a h.
          rw (inserted_tables.2, inserted_tables.3)
            (c.injected j a (ground (arith, at_id-inserted j)));
      self_reports = λ j a h. rw (inserted_tables.2) (elim (Bool-cases (is_author (at_id s j) a)) [
        | inl old ↦ c.self_reports j a old
        | inr no_author ↦
            let same : exp.id ≡ j = ground (arith, at_id-inserted j, new_row_lem) in
            ground (arith, same, no_reports a, count_success_by_le j a s.reuse_events)
      ]);
    }

  inserted_again : (row : Row) → at_id s exp.id ≡ some row → inserted ≡ s
  unfolding insert_enriched_experience
  inserted_again row hit = ground arith

  -- Inserting an experience keeps the tables consistent, whether its id is new or stored already.
  pub insert_enriched_experience-IsConsistent : IsConsistent inserted
  insert_enriched_experience-IsConsistent = elim (Option-cases (at_id s exp.id)) [
    | inl fresh ↦ fresh-IsConsistent fresh
    | inr (row, hit) ↦ subst IsConsistent (sym (inserted_again row hit)) c
  ]

-- The rows after an insert, whether or not the id was new.
module _ (s : Store) (exp : Experience) (workflow : Option Workflow) (triples : List Triple)
    (embedding : Option Vector) (reason : Reason) (decided_by : String) (now : ℕ) where
  abbrev rows : List Row
  rows =
      (insert_enriched_experience s exp workflow triples embedding reason decided_by
        now).0.experiences

  rows_cases :
      (rows ≡ s.experiences)
      ⊎ (rows ≡ s.experiences ++ enriched_row exp now workflow triples embedding ∷ [])
  unfolding insert_enriched_experience
  rows_cases = ground arith

  pub All-insert_enriched_experience {ℓ} :
      (P : Row → Type ℓ)
      → All P s.experiences
      → P (enriched_row exp now workflow triples embedding)
      → All P rows
  All-insert_enriched_experience P h k = elim rows_cases [
    | inl same ↦ rw same h
    | inr more ↦ rw more (All-append P s.experiences _ h (k, tt))
  ]

  -- An insert changes no row that is there.
  pub at_id-insert_enriched_experience :
      (id : ℕ) (row : Row) → at_id s id ≡ some row → find row_id id rows ≡ some row
  at_id-insert_enriched_experience id row hit = elim rows_cases [
    | inl same ↦ rw same hit
    | inr more ↦ rw (more, find-insert, hit) refl
  ]

  -- After an insert the id is there.
  pub stored_row : (row : Row) × (find row_id exp.id rows ≡ some row)
  unfolding insert_enriched_experience enriched_row
  stored_row = elim (Option-cases (at_id s exp.id)) [
    | inl fresh ↦ (
      enriched_row exp now workflow triples embedding,
      ground (
        arith,
        fresh,
        find-insert row_id exp.id (enriched_row exp now workflow triples embedding) s.experiences,
      ),
    )
    | inr (row, hit) ↦ (row, ground (arith, hit))
  ]

count-injections_of :
    (j : ℕ) (a : String) (ids : List ℕ) (agent : String) (now : ℕ)
    → count (is_reported j a) (injections_of ids agent now) ≡ 0
unfolding injections_of
count-injections_of j a [] agent now = refl
count-injections_of j a (id ∷ ids) agent now = ground (arith, count-injections_of j a ids agent now)

pub record_injections_tables :
    (s t : Store) (ids : List ℕ) (agent : String) (now : ℕ)
    → record_injections s ids agent now ≡ some t
    → (t.experiences ≡ s.experiences)
      × (t.reuse_events ≡ s.reuse_events)
      × (t.tier_transitions ≡ s.tier_transitions)
      × ((j : ℕ) (a : String)
          → count (is_reported j a) t.injections ≡ count (is_reported j a) s.injections)
unfolding record_injections
record_injections_tables s t [] agent now h =
    (ground arith, ground arith, ground arith, λ j a. ground arith)
record_injections_tables s t (id ∷ ids) agent now h = (
  ground arith,
  ground arith,
  ground arith,
  λ j a. ground (
    arith,
    count-append (is_reported j a) s.injections (injections_of (id ∷ ids) agent now),
    count-injections_of j a (id ∷ ids) agent now,
  ),
)

-- Recording injections keeps the tables consistent, if no foreign key refuses it.
pub record_injections-IsConsistent :
    (s t : Store) (ids : List ℕ) (agent : String) (now : ℕ)
    → IsConsistent s
    → record_injections s ids agent now ≡ some t
    → IsConsistent t
record_injections-IsConsistent s t ids agent now c h =
    let same = record_injections_tables s t ids agent now h in
    record {
      keys = rw (same.0) c.keys;
      reuses = λ j. rw (same.0, same.1) (c.reuses j);
      successes = λ j. rw (same.0, same.1) (c.successes j);
      tiers = λ j. rw (same.0, same.2) (c.tiers j);
      injected = λ j a other. rw (same.1, same.3 j a) (c.injected j a (rw (same.0) at other));
      self_reports = λ j a author. rw (same.1) (c.self_reports j a (rw (same.0) at author));
    }
