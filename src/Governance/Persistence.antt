-- ===== src/Governance/Persistence.antt =====
-- Which memories a history leaves in the store.
use action_cloud.Prelude.{
  ℕ, ◌≡◌, ap, sym, ◌∙◌, String, string_eq, nat_eq, Bool, Option, some, List, ◌==◌, arith,
  Bool-cases, inl, inr, subst,
}
use action_cloud.Table.{find, replace, find-replace}
use action_cloud.Judge.{Rounding}
use action_cloud.Store.{Row, Store, row_id}
use action_cloud.Store.Reuse.{reported}
use action_cloud.Store.Consistency.{at_id}
use action_cloud.Store.Consistency.Insert.{at_id-insert_enriched_experience}
use action_cloud.Pipeline.{process_experience}
use action_cloud.Service.{ReuseReply, ok, record_reuse}
use action_cloud.Governance.Earned.{record_reuse_inv}
use action_cloud.Store.Consistency.Insert.{record_injections_tables}
use action_cloud.Governance.{Step, stores, injects, reports, Reach, here, next}

-- There is a memory of this id.
abbrev pub IsKnown : Store → ℕ → Type 0
IsKnown s id = (row : Row) × (at_id s id ≡ some row)

-- No memory gets lost.
abbrev pub Keeps : Store → Store → Type 0
Keeps s t = (id : ℕ) → IsKnown s id → IsKnown t id

replace-Known :
    (id : ℕ) (new : Row) (rows : List Row)
    → ((row : Row) × (find row_id id rows ≡ some row))
    → (row : Row) × (find row_id id (replace row_id new rows) ≡ some row)
replace-Known id new rows (row, hit) = elim (Bool-cases (row_id new == id)) [
  | inl e ↦ (new, find-replace row_id id new rows ∙ ground (arith, e, hit))
  | inr e ↦ (row, find-replace row_id id new rows ∙ ground (arith, e, hit))
]

module _ (r : Rounding) where
  module _ (s : Store) (id : ℕ) (success : Bool) (agent : Option String) (now : ℕ) where
    pub record_reuse-Keeps :
        (t : Store) (reply : ReuseReply)
        → record_reuse r s id success agent now ≡ ok (t, reply)
        → Keeps s t
    unfolding reported
    record_reuse-Keeps t reply e =
        let (reporter, found, _, after) = record_reuse_inv r s t reply id success agent now e in
        subst (Keeps s) (sym after) (λ j known. replace-Known j _ s.experiences known)

  Step-Keeps : (s t : Store) → Step r s t → Keeps s t
  unfolding process_experience
  Step-Keeps s t (stores enrichers payload id author_prior now) j (row, hit) =
      (row, at_id-insert_enriched_experience s _ _ _ _ _ _ now j row hit)
  Step-Keeps s t (injects ids agent now e) j (row, hit) =
      (row, ap (λ rows. find row_id j rows) (record_injections_tables s t ids agent now e).0 ∙ hit)
  Step-Keeps s t (reports {reply = reply} id success agent now e) j known =
      record_reuse-Keeps s id success agent now t reply e j known

  -- No history loses a memory.
  pub Reach-Keeps : (s t : Store) → Reach r s t → Keeps s t
  Reach-Keeps s t here j known = known
  Reach-Keeps s t (next {t = u} path step) j known =
      Step-Keeps u t step j (Reach-Keeps s u path j known)
