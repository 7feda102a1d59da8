-- ===== src/Builder/Budget.antt =====
-- How much the context holds, and the result of build_context as a whole.
use action_cloud.Prelude.{
  ℕ, suc, ◌+◌, ◌≤◌, ◌≡◌, refl, ◌⊎◌, inl, inr, String, false, List, [], ◌∷◌, ◌++◌, arith, length,
  length-append, take, Bool-cases, Option-cases, some, subst, All, All-sort, All-filter,
}
use action_cloud.Floats.{Floats}
use action_cloud.Render.{count_tokens, Renders, format_total}
use action_cloud.Builder.{
  MemorySelectionPolicy, Scored, header, Assembly, add_block, is_enough, is_over, block_of, better,
  is_relevant, filter_redundant_memories, assemble, start, shortlist, Context, finish,
  build_context,
}
use action_cloud.Builder.Selection.{ids, assemble_step, assemble-prefix, filter_from-All}

abbrev pub tokens_of : List String → ℕ
tokens_of [] = 0
tokens_of (b ∷ bs) = count_tokens b + tokens_of bs

tokens_of-snoc :
    (bs : List String) (b : String) → tokens_of (bs ++ b ∷ []) ≡ tokens_of bs + count_tokens b
tokens_of-snoc [] b = omega arith
tokens_of-snoc (x ∷ bs) b = omega (arith, tokens_of-snoc bs b)

module _ (F : Floats) (ratio : String → String → F.Float) (policy : MemorySelectionPolicy F) where
  -- What holds of the loop's variables: the counter is the sum over what was added, and it is
  -- within the budget, unless one memory alone passes it.
  pub record IsBounded (a : Assembly F ratio) : Type 0 where
    pub one_each : length a.formatted_blocks ≡ length a.selected_ids
    pub counted : a.current_tokens ≡ count_tokens (header F ratio) + tokens_of a.formatted_blocks
    pub few : length a.selected_ids ≤ policy.max_context_memories
    pub within : (length a.selected_ids ≤ 1) ⊎ (a.current_tokens ≤ policy.context_token_budget)

  start-IsBounded : IsBounded (start F ratio)
  unfolding start
  start-IsBounded = record {
    one_each = refl;
    counted = omega arith;
    few = omega arith;
    within = inl (omega arith);
  }

  add_block-IsBounded :
      (a : Assembly F ratio) (c : Scored F) (block : String)
      → is_enough F ratio policy a ≡ false
      → is_over F ratio policy a block ≡ false
      → IsBounded a
      → IsBounded (add_block F ratio a c block)
  unfolding is_enough is_over add_block
  add_block-IsBounded a c block e e' h = record {
    one_each = omega (arith, h.one_each, length-append {0}, length-append {0});
    counted = omega (arith, h.counted, tokens_of-snoc);
    few = ground (arith, length-append a.selected_ids (c.id ∷ []));
    within = ground (arith, length-append a.selected_ids (c.id ∷ []));
  }

  assemble-IsBounded :
      (a b : Assembly F ratio) (cs : List (Scored F))
      → assemble F ratio policy a cs ≡ some b
      → IsBounded a
      → IsBounded b
  unfolding assemble
  assemble-IsBounded a b [] e h = let same : a ≡ b = ground (arith, e) in subst IsBounded same h
  assemble-IsBounded a b (c ∷ cs) e h = elim (assemble_step F ratio policy a b c cs e) [
    | inl same ↦ subst IsBounded same h
    | inr (block, more, fits, rest) ↦
        assemble-IsBounded (add_block F ratio a c block) b cs rest
          (add_block-IsBounded a c block more fits h)
  ]

  assemble_total :
      (a : Assembly F ratio) (cs : List (Scored F))
      → All (λ (c : Scored F). Renders c.workflow) cs
      → (b : Assembly F ratio) × (assemble F ratio policy a cs ≡ some b)
  unfolding assemble block_of
  assemble_total a [] h = (a, refl)
  assemble_total a (c ∷ cs) (renders, h) =
      let (block, e) = format_total (suc (length a.selected_ids)) c.memory renders in
      let (b, rest) = assemble_total (add_block F ratio a c block) cs h in
      elim (Bool-cases (is_enough F ratio policy a)) [
        | inl enough ↦ (a, ground (arith, enough))
        | inr more ↦ elim (Bool-cases (is_over F ratio policy a block)) [
          | inl over ↦ (a, ground (arith, more, e, over))
          | inr fits ↦ (b, ground (arith, more, e, fits, rest))
        ]
      ]

  -- The result: the ids of a prefix of the shortlist, and its counts; no id, no text.
  pub record IsContext (candidates : List (Scored F)) (x : Context F ratio) : Type 0 where
    pub prefix :
        (k : ℕ) × (x.injected_ids
          ≡ ids F ratio policy (take k (shortlist F ratio policy candidates)))
    pub counted : x.candidate_count ≡ length candidates
    pub final : x.final_count ≡ length x.injected_ids
    pub few : x.final_count ≤ policy.max_context_memories
    pub silent : (1 ≤ length x.injected_ids) ⊎ (x.text ≡ "")

  module _ (candidates : List (Scored F)) where
    -- The loop of build_context, if no rendering raises, ends with one block for each selected id, a
    -- token counter that is the sum over the header and the blocks, at most `max_context_memories`
    -- memories, and a counter within the budget unless it holds at most one memory.
    pub assembled-IsBounded :
        (a : Assembly F ratio)
        → assemble F ratio policy (start F ratio) (shortlist F ratio policy candidates) ≡ some a
        → IsBounded a
    assembled-IsBounded a h = assemble-IsBounded (start F ratio) a _ h start-IsBounded

    assembled-prefix :
        (a : Assembly F ratio)
        → assemble F ratio policy (start F ratio) (shortlist F ratio policy candidates) ≡ some a
        → (k : ℕ) × (a.selected_ids
            ≡ ids F ratio policy (take k (shortlist F ratio policy candidates)))
    unfolding start
    assembled-prefix a h = assemble-prefix F ratio policy (start F ratio) a _ h

    finish-IsContext :
        (a : Assembly F ratio)
        → IsBounded a
        → ((k : ℕ) × (a.selected_ids
              ≡ ids F ratio policy (take k (shortlist F ratio policy candidates))))
        → IsContext candidates (finish F ratio (length candidates) a)
    finish-IsContext a h p = go a.formatted_blocks h.one_each
      where
        go :
            (blocks : List String)
            → length blocks ≡ length a.selected_ids
            → IsContext candidates
                (finish F ratio (length candidates) (record a { formatted_blocks = blocks }))
        go [] e = record {
          prefix = (0, refl);
          counted = refl;
          final = refl;
          few = omega arith;
          silent = inr refl;
        }
        go (b ∷ bs) e = record {
          prefix = p;
          counted = refl;
          final = refl;
          few = h.few;
          silent = inl (omega arith);
        }

    -- Whatever the candidates, a context that is built holds a prefix of the shortlist, at most
    -- `max_context_memories` of it, its counts are right, and it has no text if it has no memory.
    pub build_context-IsContext :
        (x : Context F ratio)
        → build_context F ratio candidates policy ≡ some x
        → IsContext candidates x
    unfolding build_context
    build_context-IsContext x h =
        elim (Option-cases
          (assemble F ratio policy (start F ratio) (shortlist F ratio policy candidates))) [
            | inl e ↦ absurd (ground (arith, e, h))
            | inr (a, e) ↦
                let same : finish F ratio (length candidates) a ≡ x = ground (arith, e, h) in
                subst (IsContext candidates) same
                  (finish-IsContext a (assembled-IsBounded a e) (assembled-prefix a e))
          ]

    shortlist_kept :
        All (λ (c : Scored F). Renders c.workflow) candidates
        → All (λ (c : Scored F). Renders c.workflow) (shortlist F ratio policy candidates)
    unfolding shortlist filter_redundant_memories
    shortlist_kept h =
        filter_from-All F ratio policy.redundancy_threshold _ [] _ tt
          (All-sort (better F policy) _ _ (All-filter _ (is_relevant F policy) candidates h))

    -- A context is built if every candidate renders.
    pub build_context_total :
        All (λ (c : Scored F). Renders c.workflow) candidates
        → (x : Context F ratio) × (build_context F ratio candidates policy ≡ some x)
    unfolding build_context
    build_context_total h =
        let (a, e) =
          assemble_total (start F ratio) (shortlist F ratio policy candidates) (shortlist_kept h) in
        (finish F ratio (length candidates) a, ground (arith, e))
