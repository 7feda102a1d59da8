-- ===== src/Builder/Selection.antt =====
-- Which memories the context holds.
use action_cloud.Prelude.{
  ℕ, suc, ◌≡◌, sym, inl, inr, String, true, false, List, [], ◌∷◌, ◌++◌, append-nil, append_assoc,
  filter, sort, any, take, map, All, All-imp, All-append, All-filter_self, All-sort, Pairwise,
  Pairwise-snoc, not_any-All, All-Memᴰ, All-filter, filter-Memᴰ, append-Memᴰ, snoc-Memᴰ, any-Memᴰ,
  sort-Memᴰ, ap, ◌∙◌, subst, Option-cases, none, some, ◌⊎◌, ◌↔◌, arith, Bool-cases, IsSorted,
  sort-IsSorted,
}
use action_cloud.Floats.{Floats}
use mathlib.Core.List.{Memᴰ}
use action_cloud.Builder.{
  MemorySelectionPolicy, Scored, is_relevant, relevance_of, floor_confidence, better, repeats,
  filter_from, filter_redundant_memories, Assembly, add_block, is_enough, is_over, block_of,
  assemble, shortlist,
}

module _ (F : Floats) (ratio : String → String → F.Float) where
  module _ (threshold : F.Float) where
    -- Neither repeats the other's task key or text.
    abbrev pub Differ : Scored F → Scored F → Type 0
    Differ s item = repeats F ratio threshold item s ≡ false

    filter_from-Differ :
        (selected items : List (Scored F))
        → Pairwise Differ selected
        → Pairwise Differ (filter_from F ratio threshold selected items)
    unfolding filter_from
    filter_from-Differ selected [] h = h
    filter_from-Differ selected (item ∷ items) h =
        elim (Bool-cases (any (repeats F ratio threshold item) selected)) [
          | inl e ↦ rw e (filter_from-Differ selected items h)
          | inr e ↦ rw e (
              filter_from-Differ (selected ++ item ∷ []) items (
                Pairwise-snoc Differ selected item h
                  (not_any-All (repeats F ratio threshold item) selected e)))
        ]

    pub filter_from-All :
        (P : Scored F → Type 0) (selected items : List (Scored F))
        → All P selected
        → All P items
        → All P (filter_from F ratio threshold selected items)
    unfolding filter_from
    filter_from-All P selected [] h k = h
    filter_from-All P selected (item ∷ items) h k =
        elim (Bool-cases (any (repeats F ratio threshold item) selected)) [
          | inl e ↦ rw e (filter_from-All P selected items h k.1)
          | inr e ↦ rw e (
              filter_from-All P (selected ++ item ∷ []) items
                (All-append P selected (item ∷ []) h (k.0, tt)) k.1)
        ]

    -- Order is kept: a relation between all earlier and later candidates holds of the selection.
    filter_from-Pairwise :
        (R : Scored F → Scored F → Type 0) (selected items : List (Scored F))
        → Pairwise R selected
        → All (λ s. All (R s) items) selected
        → Pairwise R items
        → Pairwise R (filter_from F ratio threshold selected items)
    unfolding filter_from
    filter_from-Pairwise R selected [] h across k = h
    filter_from-Pairwise R selected (item ∷ items) h across k =
        let rest = All-imp selected (λ s (both : All (R s) (item ∷ items)). both.1) across in
        elim (Bool-cases (any (repeats F ratio threshold item) selected)) [
          | inl e ↦ rw e (filter_from-Pairwise R selected items h rest k.1)
          | inr e ↦ rw e (
              filter_from-Pairwise R (selected ++ item ∷ []) items
                (Pairwise-snoc R selected item h
                  (All-imp selected (λ s (both : All (R s) (item ∷ items)). both.0) across))
                (All-append _ selected (item ∷ []) rest (k.0, tt)) k.1)
        ]

    -- A candidate that a selection stands for: it is in it, or one that is makes it a repetition.
    abbrev pub IsCovered : List (Scored F) → Scored F → Type 0
    IsCovered items c =
        Memᴰ c items ⊎ ((s : Scored F) × Memᴰ s items × (repeats F ratio threshold c s ≡ true))

    IsCovered-snoc :
        (items : List (Scored F)) (item c : Scored F)
        → IsCovered items c
        → IsCovered (items ++ item ∷ []) c
    IsCovered-snoc items item c (inl there) = inl (append-Memᴰ c items (item ∷ []) there)
    IsCovered-snoc items item c (inr (s, there, same)) =
        inr (s, append-Memᴰ s items (item ∷ []) there, same)

    -- The loop drops no candidate that nothing selected repeats.
    filter_from-IsCovered :
        (c : Scored F) (selected items : List (Scored F))
        → IsCovered selected c ⊎ Memᴰ c items
        → IsCovered (filter_from F ratio threshold selected items) c
    unfolding filter_from
    filter_from-IsCovered c selected [] (inl h) = h
    filter_from-IsCovered c selected [] (inr h) = elim h [ ]
    filter_from-IsCovered c selected (item ∷ items) h =
        elim (Bool-cases (any (repeats F ratio threshold item) selected)) [
          | inl e ↦
              let (s, there, same) = any-Memᴰ (repeats F ratio threshold item) selected e in
              rw e (
                filter_from-IsCovered c selected items (elim h [
                  | inl old ↦ inl old
                  | inr (Memᴰ.head is) ↦
                      inl (inr (s, there, ap (λ x. repeats F ratio threshold x s) is ∙ same))
                  | inr (Memᴰ.tail later) ↦ inr later
                ]))
          | inr e ↦ rw e (
              filter_from-IsCovered c (selected ++ item ∷ []) items (elim h [
                | inl old ↦ inl (IsCovered-snoc selected item c old)
                | inr (Memᴰ.head is) ↦
                    inl (inl (subst (λ x. Memᴰ c (selected ++ x ∷ [])) is (snoc-Memᴰ selected c)))
                | inr (Memᴰ.tail later) ↦ inr later
              ]))
        ]

  module _ (policy : MemorySelectionPolicy F) where
    -- The thresholds of the policy: an unknown relevance is 0, and an unknown confidence is 1.
    abbrev pub Clears : Scored F → Type 0
    Clears c =
        (F.le policy.similarity_threshold (elim c.relevance [ none ↦ F.zero_float | some x ↦ x ])
          ≡ true)
        × (F.le policy.min_confidence
              (F.of_ten_thousandths (elim c.confidence [ none ↦ 10000 | some x ↦ x ]))
            ≡ true)

    Clears-iff : (c : Scored F) → (is_relevant F policy c ≡ true) ↔ Clears c
    unfolding is_relevant relevance_of floor_confidence
    Clears-iff c = elim (Option-cases c.confidence) [
      | inl e ↦ (λ h. (ground (arith, h), ground (arith, h, e)), λ (h, k). ground (arith, h, k, e))
      | inr (x, e) ↦
          (λ h. (ground (arith, h), ground (arith, h, e)), λ (h, k). ground (arith, h, k, e))
    ]

    -- Below one of the thresholds.
    abbrev pub Misses : Scored F → Type 0
    Misses c =
        (F.le policy.similarity_threshold (elim c.relevance [ none ↦ F.zero_float | some x ↦ x ])
          ≡ false)
        ⊎ (F.le policy.min_confidence
              (F.of_ten_thousandths (elim c.confidence [ none ↦ 10000 | some x ↦ x ]))
            ≡ false)

    Misses-or_relevant : (c : Scored F) → Misses c ⊎ (is_relevant F policy c ≡ true)
    Misses-or_relevant c =
        let t : F.Float = elim c.relevance [ none ↦ F.zero_float | some x ↦ x ] in
        let u : F.Float = F.of_ten_thousandths (elim c.confidence [ none ↦ 10000 | some x ↦ x ]) in
        elim (Bool-cases (F.le policy.similarity_threshold t)) [
          | inr low ↦ inl (inl low)
          | inl near ↦ elim (Bool-cases (F.le policy.min_confidence u)) [
            | inr low ↦ inl (inr low)
            | inl sure ↦ inr ((Clears-iff c).1 (near, sure))
          ]
        ]

    -- The shortlist: it clears the thresholds, with the best first, none a repetition of a better one,
    -- and it stands for every candidate that clears them.
    pub record IsShortlist (candidates items : List (Scored F)) : Type 0 where
      pub cleared : All Clears items
      pub ranked : IsSorted (better F policy) items
      pub distinct : Pairwise (Differ policy.redundancy_threshold) items
      pub chosen : All (λ c. Memᴰ c candidates) items
      pub covers : All (λ c. Misses c ⊎ IsCovered policy.redundancy_threshold items c) candidates

    -- What build_context may inject has the relevance and the confidence that the policy asks for, an
    -- unknown relevance counting as 0 and an unknown confidence as 1; it is ranked the best first, and no
    -- two of it repeat one another. It holds candidates only, and every candidate that has both is on it
    -- or is repeated by one that is.
    pub shortlist-IsShortlist :
        (candidates : List (Scored F))
        → IsShortlist candidates (shortlist F ratio policy candidates)
    unfolding shortlist filter_redundant_memories
    shortlist-IsShortlist candidates =
        let relevant = filter (is_relevant F policy) candidates in
        let sorted = sort (better F policy) relevant in
        record {
          cleared = filter_from-All policy.redundancy_threshold _ [] sorted tt (
              All-sort (better F policy) _ relevant
                (All-filter_self _ (is_relevant F policy) candidates (λ c e. (Clears-iff c).0 e)));
          ranked = filter_from-Pairwise policy.redundancy_threshold _ [] sorted tt tt (
              sort-IsSorted (better F policy) (λ x y h. F.le_total _ _ h)
                (λ x y z h k. F.le_trans _ _ _ k h) relevant);
          distinct = filter_from-Differ policy.redundancy_threshold [] sorted tt;
          chosen = filter_from-All policy.redundancy_threshold _ [] sorted tt (
              All-sort (better F policy) _ relevant
                (All-filter _ (is_relevant F policy) candidates (All-Memᴰ candidates)));
          covers =
              All-imp candidates
                (λ c there. elim (Misses-or_relevant c) [
                  | inl low ↦ inl low
                  | inr fits ↦ inr (
                      filter_from-IsCovered policy.redundancy_threshold c [] sorted (
                        inr (
                          sort-Memᴰ (better F policy) c relevant
                            (filter-Memᴰ (is_relevant F policy) c candidates there fits))))
                ])
                (All-Memᴰ candidates);
        }

    abbrev pub ids : List (Scored F) → List ℕ
    ids = map (λ c. c.id)

    -- A step of the loop that does not raise: it ends here, or adds the next memory and goes on.
    pub assemble_step :
        (a b : Assembly F ratio) (c : Scored F) (cs : List (Scored F))
        → assemble F ratio policy a (c ∷ cs) ≡ some b
        → (a ≡ b)
          ⊎ ((block : String) × (is_enough F ratio policy a ≡ false)
              × (is_over F ratio policy a block ≡ false)
              × (assemble F ratio policy (add_block F ratio a c block) cs ≡ some b))
    unfolding assemble
    assemble_step a b c cs h = elim (Bool-cases (is_enough F ratio policy a)) [
      | inl enough ↦ inl (ground (arith, enough, h))
      | inr more ↦ elim (Option-cases (block_of F ratio a c)) [
        | inl e ↦ absurd (ground (arith, more, e, h))
        | inr (block, e) ↦ elim (Bool-cases (is_over F ratio policy a block)) [
          | inl over ↦ inl (ground (arith, more, e, over, h))
          | inr fits ↦ inr (block, more, fits, ground (arith, more, e, fits, h))
        ]
      ]
    ]

    -- The loop adds a prefix of the shortlist.
    abbrev pub Assembled : Assembly F ratio → List (Scored F) → Assembly F ratio → Type 0
    Assembled a cs b = ((k : ℕ) × (b.selected_ids ≡ a.selected_ids ++ ids (take k cs)))

    pub assemble-prefix :
        (a b : Assembly F ratio) (cs : List (Scored F))
        → assemble F ratio policy a cs ≡ some b
        → Assembled a cs b
    unfolding assemble add_block
    assemble-prefix a b [] h =
        let same : a ≡ b = ground (arith, h) in
        (
          0,
          ap (λ (x : Assembly F ratio). x.selected_ids) (sym same)
              ∙ sym (append-nil a.selected_ids),
        )
    assemble-prefix a b (c ∷ cs) h = elim (assemble_step a b c cs h) [
      | inl same ↦ (
        0,
        ap (λ (x : Assembly F ratio). x.selected_ids) (sym same) ∙ sym (append-nil a.selected_ids),
      )
      | inr (block, _, _, rest) ↦
          let (k, p) = assemble-prefix (add_block F ratio a c block) b cs rest in
          (suc k, p ∙ append_assoc a.selected_ids (c.id ∷ []) (ids (take k cs)))
    ]
