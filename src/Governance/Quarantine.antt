-- ===== src/Governance/Quarantine.antt =====
-- PRIVATE is the end of the ladder: no history of calls brings a memory back from it.
use action_cloud.Prelude.{
  ℕ, ◌≡◌, ap, ◌∙◌, String, string_eq, nat_eq, Bool, some, arith, inl, inr, Bool-cases, ◌==◌,
}
use action_cloud.Schema.{private}
use action_cloud.Judge.{Rounding, decide, posterior_confidence}
use action_cloud.Store.{Row, Store}
use action_cloud.Store.Reuse.{judged, reported}
use action_cloud.Store.Consistency.{at_id, IsConsistent}
use action_cloud.Store.Consistency.Report.{after_row, at_id-reported}
use action_cloud.Store.Consistency.Insert.{
  at_id-insert_enriched_experience, record_injections_tables,
}
use action_cloud.Pipeline.{decided_by, process_experience}
use action_cloud.Governance.{Step, stores, injects, reports, Reach, here, next}
use action_cloud.Governance.Earned.{record_reuse_inv}
use action_cloud.Governance.Fleet.{IsGoverned, Reach-IsGoverned}

-- The memory `id` is there, at PRIVATE, and `author`'s.
abbrev pub IsPrivate : ℕ → String → Store → Type 0
IsPrivate id author s =
    (row : Row) × (at_id s id ≡ some row) × (row.tier ≡ private) × (row.agent_id ≡ author)

module _ (r : Rounding) where
  judged_private :
      (row : Row) (success counted : Bool)
      → row.tier ≡ private
      → let row' =
          (judged (decide r) decided_by (some (posterior_confidence r)) row success counted).0 in
        (row'.tier ≡ private) × (row'.agent_id ≡ row.agent_id)
  unfolding judged decide
  judged_private row success counted h = ground arith

  reported-IsPrivate :
      (id : ℕ) (author : String) (s : Store) (row found : Row) (j : ℕ) (success : Bool)
      (reporter : String) (now : ℕ)
      → IsConsistent s
      → at_id s id ≡ some row
      → at_id s j ≡ some found
      → row.tier ≡ private
      → row.agent_id ≡ author
      → IsPrivate id author
          (reported
            (decide r)
            decided_by
            (some (posterior_confidence r))
            s
            found
            j
            success
            reporter
            now).0
  reported-IsPrivate id author s row found j success reporter now c hit hit' low mine =
      let at =
        at_id-reported (decide r) decided_by (some (posterior_confidence r)) s found j success
          reporter now c hit' in
      elim (Bool-cases (j == id)) [
        | inr other ↦ (row, at id ∙ ground (arith, other, hit), low, mine)
        | inl same ↦
            let e : j ≡ id = ground arith in
            let again : found ≡ row = ground (arith, hit, hit', e) in
            let kept = judged_private found success _ (ap (λ (x : Row). x.tier) again ∙ low) in
            (
              after_row (decide r) decided_by (some (posterior_confidence r)) s found j success
                  reporter now c hit',
              at id ∙ ground (arith, same),
              kept.0,
              kept.1 ∙ ap (λ (x : Row). x.agent_id) again ∙ mine,
            )
      ]

  Step-IsPrivate :
      (id : ℕ) (author : String) {s t : Store}
      → IsConsistent s
      → IsPrivate id author s
      → Step r s t
      → IsPrivate id author t
  unfolding process_experience
  Step-IsPrivate id author {s} c (row, hit, low, mine)
        (stores enrichers payload new author_prior now) =
      (row, at_id-insert_enriched_experience s _ _ _ _ _ _ now id row hit, low, mine)
  Step-IsPrivate id author {s} {t} c (row, hit, low, mine) (injects ids agent now e) =
      (row, rw ((record_injections_tables s t ids agent now e).0) hit, low, mine)
  Step-IsPrivate id author {s} {t} c (row, hit, low, mine)
        (reports {reply = reply} j success agent now e) =
      let (reporter, found, hit', after) = record_reuse_inv r s t reply j success agent now e in
      rw after (reported-IsPrivate id author s row found j success reporter now c hit hit' low mine)

  -- From a governed store, whatever is stored, injected or reported, in any order, a memory that is
  -- at PRIVATE stays there, as the same author's.
  pub quarantine_terminal :
      (id : ℕ) (author : String) (s t : Store)
      → IsGoverned s
      → Reach r s t
      → IsPrivate id author s
      → IsPrivate id author t
  quarantine_terminal id author s t g here p = p
  quarantine_terminal id author s t g (next {t = m} history step) p =
      Step-IsPrivate id author (Reach-IsGoverned r g history).consistent
        (quarantine_terminal id author s m g history p) step
