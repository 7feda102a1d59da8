-- ===== src/Schema/Tags.antt =====
-- The validator of ExperienceCreate for tools_used and technologies, and its field constraints.
-- `fold` stands for `item.strip().lower()`: what Unicode calls a lower-case letter is Python's.
use action_cloud.Prelude.{
  ◌≡◌, refl, inl, inr, String, string_eq, true, false, not, ◌&&◌, Option, none, some, List, [], ◌∷◌,
  arith, if◌then◌else◌, Bool-cases, contains, Distinct, All, All-imp, ap, sym, ◌∙◌, beq_refl,
  beq_comm,
}
use action_cloud.Schema.{ExperienceCreate, truthy}

module _ (fold : String → String) where
  -- The loop over the items still to come, after `seen`.
  normalise_from : List String → List String → List String
  normalise_from seen [] = []
  normalise_from seen (item ∷ items) =
      let k = fold item in
      let kept = k ∷ normalise_from (k ∷ seen) items in
      let dropped = normalise_from seen items in
      if truthy k && not (contains seen k) then kept else dropped

  unfoldable pub normalise_tags : List String → List String
  unfolding normalise_from
  normalise_tags v = normalise_from [] v

  -- The constructor of the model: ValidationError is `none`.
  unfoldable pub validate : ExperienceCreate → Option ExperienceCreate
  validate e =
      if truthy e.agent_id && (truthy e.task && (truthy e.action && truthy e.result))
      then some (record e {
        tools_used = normalise_tags e.tools_used;
        technologies = normalise_tags e.technologies;
      })
      else none

  -- What every stored tag list satisfies.
  abbrev pub IsNormal : List String → Type 0
  IsNormal v = Distinct v × All (λ k. (truthy k ≡ true) × (item : String) × (fold item ≡ k)) v

  contains-normalise_from :
      (k : String) (seen items : List String)
      → contains seen k ≡ true
      → contains (normalise_from seen items) k ≡ false
  unfolding normalise_from
  contains-normalise_from k seen [] h = refl
  contains-normalise_from k seen (item ∷ items) h = ground (
    arith,
    contains-normalise_from k (fold item ∷ seen) items,
    contains-normalise_from k seen items,
    string_eq.same_iff (fold item) k,
  )

  normalise_from-IsNormal : (seen items : List String) → IsNormal (normalise_from seen items)
  unfolding normalise_from
  normalise_from-IsNormal seen [] = (tt, tt)
  normalise_from-IsNormal seen (item ∷ items) =
      let k = fold item in
      elim (Bool-cases (truthy k && not (contains seen k))) [
        | inl new ↦
            let rest = normalise_from-IsNormal (k ∷ seen) items in
            rw new (
              (contains-normalise_from k (k ∷ seen) items (rw (beq_refl k) refl), rest.0),
              ((ground arith, item, refl), rest.1),
            )
        | inr old ↦ rw old (normalise_from-IsNormal seen items)
      ]

  abbrev Fresh : List String → String → Type 0
  Fresh seen k = (truthy k ≡ true) × (fold k ≡ k) × (contains seen k ≡ false)

  Fresh-cons :
      (k : String) (seen v : List String)
      → contains v k ≡ false
      → All (Fresh seen) v
      → All (Fresh (k ∷ seen)) v
  Fresh-cons k seen [] d h = tt
  Fresh-cons k seen (x ∷ v) d h =
      ((h.0.0, h.0.1, ground (arith, beq_comm k x)), Fresh-cons k seen v (ground arith) h.1)

  -- Folded, distinct, non-blank tags that the loop has not seen pass through it.
  normalise_from_fix :
      (seen v : List String) → Distinct v → All (Fresh seen) v → normalise_from seen v ≡ v
  unfolding normalise_from
  normalise_from_fix seen [] d h = refl
  normalise_from_fix seen (k ∷ v) d h =
      let ih = normalise_from_fix (k ∷ seen) v d.1 (Fresh-cons k seen v d.0 h.1) in
      rw (h.0.1, h.0.0, h.0.2) (ap (◌∷◌ k) ih)

  -- Every list that the validator returns is distinct, non-blank, and folded from the input's items.
  pub normalise_tags-IsNormal : (v : List String) → IsNormal (normalise_tags v)
  unfolding normalise_tags
  normalise_tags-IsNormal v = normalise_from-IsNormal [] v

  -- Where folding a text twice is folding it once, normalising tags twice is normalising them once.
  pub normalise_tags_idem :
      (v : List String)
      → ((s : String) → fold (fold s) ≡ fold s)
      → normalise_tags (normalise_tags v) ≡ normalise_tags v
  unfolding normalise_tags
  normalise_tags_idem v idem =
      let (distinct, folded) = normalise_from-IsNormal [] v in
      normalise_from_fix [] (normalise_from [] v) distinct (
        All-imp (normalise_from [] v)
          (λ k (shown, item, e). (shown, ap fold (sym e) ∙ idem item ∙ e, refl)) folded)
