-- ===== src/Store/Consistency/Report.antt =====
-- A report (db.apply_reuse) keeps the tables consistent, whatever the decision function.
use action_cloud.Prelude.{
  ℕ, ◌+◌, ◌≤◌, ◌≡◌, refl, sym, ap, ◌∙◌, ◌⊎◌, inl, inr, String, string_eq, nat_eq, Bool, true, false,
  not, ◌&&◌, Option, none, some, List, [], ◌∷◌, ◌++◌, map, arith, ◌==◌, append-nil, if◌then◌else◌,
  any, beq_refl, Bool-cases, count, count-append, Distinct,
}
use action_cloud.Table.{replace, find-replace, key-find, keys-replace}
use action_cloud.Store.{Row, Transition, Store, row_id}
use action_cloud.Store.Reuse.{
  Decide, ConfidenceFn, TierChange, Outcome, is_author_failure, judged, logged, reported,
}
use action_cloud.Store.Ledger.{
  is_counted, is_counted_success, is_counted_by, is_success_by, is_reported, bit,
  count-consume_injection, count_split, count-any, last_tier, last_tier-snoc,
}
use action_cloud.Store.Consistency.{
  reuses_of, successes_of, tier_of, is_author, at_id, IsConsistent,
}

module _ (decide : Decide) (decided_by : String) (confidence_fn : Option ConfidenceFn) where
  module _ (row : Row) (success counted : Bool) where
    abbrev result : Row × Option TierChange
    result = judged decide decided_by confidence_fn row success counted

    judged_row :
        (result.0.id ≡ row.id)
        × (result.0.agent_id ≡ row.agent_id)
        × (result.0.reuse_count ≡ row.reuse_count + bit counted)
        × (result.0.reuse_success_count ≡ row.reuse_success_count + bit (counted && success))
    unfolding judged
    judged_row = ground arith

    judged_tier :
        ((result.1 ≡ none) × (result.0.tier ≡ row.tier))
        ⊎ ((t : TierChange) × (result.1 ≡ some t) × (t.to_tier ≡ result.0.tier))
    unfolding judged
    judged_tier = ground arith

  last_tier-judged :
      (row : Row) (success counted : Bool) (id j : ℕ) (ts : List Transition)
      → last_tier id ts ≡ some row.tier
      → let result = judged decide decided_by confidence_fn row success counted in
        last_tier j (ts ++ logged decided_by id result.1)
        ≡ (if id == j then some result.0.tier else last_tier j ts)
  last_tier-judged row success counted id j ts h = elim (judged_tier row success counted) [
    | inl (e, same) ↦ rw (e, append-nil) (ground (arith, h, same))
    | inr (t, e, to) ↦ rw (e, last_tier-snoc) (ground (arith, to))
  ]

  module _ (s : Store) (row : Row) (id : ℕ) (success : Bool) (reporter : String) (now : ℕ) where
    abbrev pub after : Store × Outcome
    after = reported decide decided_by confidence_fn s row id success reporter now

    -- The tables after the report, with the count and the row that the report gave.
    reported_tables :
        (after.0.experiences ≡ replace row_id after.1.row s.experiences)
        × (after.1.row ≡ (judged decide decided_by confidence_fn row success after.1.counted).0)
        × (after.0.tier_transitions
            ≡ s.tier_transitions
              ++ logged decided_by id
                  (judged decide decided_by confidence_fn row success after.1.counted).1)
        × (after.0.reuse_events
            ≡ s.reuse_events
              ++ record {
                experience_id = id;
                reporter_agent_id = reporter;
                success = success;
                counted = after.1.counted;
              }
                ∷ [])
    unfolding reported
    reported_tables = (refl, refl, refl, refl)

    module _ (c : IsConsistent s) (hit : at_id s id ≡ some row) where
      abbrev pub after_row : Row
      after_row = (judged decide decided_by confidence_fn row success after.1.counted).0

      id-after_row : after_row.id ≡ id
      id-after_row =
          (judged_row row success after.1.counted).0 ∙ key-find row_id id s.experiences row hit

      pub at_id-reported :
          (j : ℕ) → at_id after.0 j ≡ (if id == j then some after_row else at_id s j)
      unfolding reported
      at_id-reported j =
          rw (find-replace row_id j after_row s.experiences, id-after_row) (ground (arith, hit))

      reuses-reported :
          (j : ℕ) → count (is_counted j) after.0.reuse_events ≡ reuses_of (at_id after.0 j)
      reuses-reported j =
          rw (at_id-reported j, reported_tables.3, count-append)
            (ground (arith, c.reuses j, hit, judged_row row success after.1.counted))

      successes-reported :
          (j : ℕ)
          → count (is_counted_success j) after.0.reuse_events ≡ successes_of (at_id after.0 j)
      successes-reported j =
          rw (at_id-reported j, reported_tables.3, count-append)
            (ground (arith, c.successes j, hit, judged_row row success after.1.counted))

      tiers-reported : (j : ℕ) → last_tier j after.0.tier_transitions ≡ tier_of (at_id after.0 j)
      tiers-reported j =
          rw (at_id-reported j, reported_tables.2)
            (last_tier-judged row success after.1.counted id j s.tier_transitions
                (c.tiers id ∙ ap tier_of hit)
              ∙ ground (arith, c.tiers j))

      is_author-reported :
          (j : ℕ) (agent : String) → is_author (at_id after.0 j) agent ≡ is_author (at_id s j) agent
      is_author-reported j agent =
          rw (at_id-reported j) (ground (arith, hit, judged_row row success after.1.counted))

      keys-reported : Distinct (map row_id after.0.experiences)
      keys-reported = rw (reported_tables.0, keys-replace) c.keys

      counted_injections :
          (j : ℕ) (a : String)
          → count (is_reported j a) after.0.injections
            ≡ count (is_reported j a) s.injections
              + bit (
                  after.1.counted && (not (reporter == row.agent_id) && (id == j && reporter == a)))
      unfolding reported
      counted_injections j a = ground (
        arith,
        key-find row_id id s.experiences row hit,
        count-consume_injection j a s.injections row.id reporter now,
      )

      injected-reported :
          (j : ℕ) (a : String)
          → is_author (at_id after.0 j) a ≡ false
          → count (is_counted_by j a) after.0.reuse_events
            ≡ count (is_reported j a) after.0.injections
      injected-reported j a other =
          let other' : is_author (at_id s j) a ≡ false = sym (is_author-reported j a) ∙ other in
          rw (reported_tables.3, count-append, counted_injections j a)
            (ground (
              arith,
              c.injected j a other',
              hit,
              string_eq.same_iff reporter a,
              string_eq.same_iff reporter row.agent_id,
              string_eq.same_iff a row.agent_id,
            ))

      -- A counted report of the author is a failure, and the first.
      counted_self :
          reporter ≡ row.agent_id
          → after.1.counted ≡ true
          → (success ≡ false) × (any (λ e. is_author_failure e id reporter) s.reuse_events ≡ false)
      unfolding reported
      counted_self self counted = ground (
        arith,
        key-find row_id id s.experiences row hit,
        string_eq.same_iff reporter row.agent_id,
      )

      first_self_report :
          reporter ≡ row.agent_id
          → after.1.counted ≡ true
          → count (is_counted_by id reporter) s.reuse_events ≡ 0
      first_self_report self counted = omega (
        arith,
        count_split id reporter s.reuse_events,
        (c.self_reports id reporter (rw (hit, self) (beq_refl row.agent_id))).1,
        count-any (λ e. is_author_failure e id reporter) s.reuse_events
            (counted_self self counted).1,
      )

      abbrev is_mine : ℕ → String → Bool
      is_mine j a = after.1.counted && (id == j && reporter == a)

      self_reports-reported :
          (j : ℕ) (a : String)
          → is_author (at_id after.0 j) a ≡ true
          → (count (is_counted_by j a) after.0.reuse_events ≤ 1)
            × (count (is_success_by j a) after.0.reuse_events ≡ 0)
      self_reports-reported j a author =
          let author' : is_author (at_id s j) a ≡ true = sym (is_author-reported j a) ∙ author in
          let before = c.self_reports j a author' in
          rw (reported_tables.3, count-append (is_counted_by j a), count-append (is_success_by j a))
            (elim (Bool-cases (is_mine j a)) [
              | inr other ↦ ground (arith, before)
              | inl mine ↦
                  let same_id : id ≡ j = ground arith in
                  let same_agent : reporter ≡ a = ground (arith, string_eq.same_iff reporter a) in
                  let self : reporter ≡ row.agent_id =
                    ground (arith, hit, string_eq.same_iff a row.agent_id) in
                  let counted : after.1.counted ≡ true = ground arith in
                  ground (arith, before, first_self_report self counted, counted_self self counted)
            ])

      -- A reuse report on a stored row keeps the tables consistent, whatever the judge decides.
      pub reported-IsConsistent : IsConsistent after.0
      reported-IsConsistent = record {
        keys = keys-reported;
        reuses = reuses-reported;
        successes = successes-reported;
        tiers = tiers-reported;
        injected = injected-reported;
        self_reports = self_reports-reported;
      }
