-- ===== src/Builder.antt =====
-- src/actioncloud/builder.py: from the candidates of a search to the context of a prompt, under the
-- policy of src/actioncloud/policy.py. `ratio` stands for the SequenceMatcher ratio that difflib
-- gives of two texts in lower case.
use Prim.Native.String.{◌++◌ as str_append}
pub mod Selection
pub mod Budget
use action_cloud.Prelude.{
  ℕ, suc, ◌+◌, String, string_eq, nat_eq, Bool, true, false, not, ◌&&◌, ◌||◌, Option, none, some,
  map, List, [], ◌∷◌, ◌++◌, ◌==◌, if◌then◌else◌, leb, ltb, filter, sort, any, length,
}
use action_cloud.Floats.{Floats}
use action_cloud.Schema.{truthy, truthy?, MemoryTier}
use action_cloud.Render.{Memory, count_tokens, format_single_memory, join, ◌⧺◌}

module _ (F : Floats) where
  open F use {Float, zero_float, of_ten_thousandths, add, mul, le}

  pub record MemorySelectionPolicy : Type 0 where
    pub candidate_k : ℕ
    pub max_context_memories : ℕ
    pub similarity_threshold : Float
    pub redundancy_threshold : Float
    pub context_token_budget : ℕ
    pub trust_weight : Float
    pub min_confidence : Float
    pub ann_candidates : ℕ
    pub min_tier : MemoryTier

  -- A memory with its score and its confidence, either of which a caller may leave out.
  pub record Scored : Type 0 where
    pub memory : Memory
    pub open memory use *
    pub relevance : Option Float
    pub confidence : Option ℕ

  -- _relevance
  unfoldable pub relevance_of : Scored → Float
  relevance_of c = elim c.relevance [ none ↦ zero_float | some r ↦ r ]

  -- An unknown confidence counts as 1.0 at the floor, and as 0.0 in the ranking.
  unfoldable pub floor_confidence : Scored → Float
  floor_confidence c = elim c.confidence [
    | none ↦ of_ten_thousandths 10000
    | some x ↦ of_ten_thousandths x
  ]

  unfoldable pub rank_confidence : Scored → Float
  rank_confidence c = elim c.confidence [ none ↦ zero_float | some x ↦ of_ten_thousandths x ]

  unfoldable pub is_relevant : MemorySelectionPolicy → Scored → Bool
  unfolding relevance_of floor_confidence
  is_relevant policy c =
      le policy.similarity_threshold (relevance_of c)
      && le policy.min_confidence (floor_confidence c)

  unfoldable pub rank_key : MemorySelectionPolicy → Scored → Float
  unfolding relevance_of rank_confidence
  rank_key policy c = add (relevance_of c) (mul policy.trust_weight (rank_confidence c))

  -- `sort(key=…, reverse=True)` is stable: `x`, which came first, may stand before `y`.
  abbrev pub better : MemorySelectionPolicy → Scored → Scored → Bool
  better policy x y = le (rank_key policy y) (rank_key policy x)

  abbrev or_empty : Option String → String
  or_empty (some r) = r
  or_empty none = ""

  abbrev text_of : Option String → Option String → String
  text_of (some s) r = if truthy s then s else or_empty r
  text_of none r = or_empty r

  unfoldable pub content : Scored → String
  content c = c.task ⧺ " " ⧺ text_of c.solution c.result

  module _ (ratio : String → String → Float) where
    unfoldable pub compute_text_similarity : String → String → Float
    compute_text_similarity a b = if truthy a && truthy b then ratio a b else zero_float

    abbrev same_key : Option String → Option String → Bool
    same_key (some j) (some k) = truthy j && (truthy k && j == k)
    same_key _ _ = false

    -- `item` repeats `s`: they share a task key, or their texts are close.
    unfoldable pub repeats : Float → Scored → Scored → Bool
    unfolding compute_text_similarity content
    repeats threshold item s =
        same_key item.task_key s.task_key
        || le threshold (compute_text_similarity (content item) (content s))

    unfoldable pub filter_from : Float → List Scored → List Scored → List Scored
    filter_from threshold selected [] = selected
    filter_from threshold selected (item ∷ items) =
        filter_from threshold
          (if any (repeats threshold item) selected then selected else selected ++ item ∷ []) items

    unfoldable pub filter_redundant_memories : Float → List Scored → List Scored
    unfolding filter_from
    filter_redundant_memories threshold candidates = filter_from threshold [] candidates

    abbrev pub header : String
    header = "## Relevant prior experience from other agents\n\n"

    abbrev pub footer : String
    footer = "\nUse the above if it applies. If it does not, solve the task directly and ignore it."

    -- The loop's variables.
    pub record Assembly : Type 0 where
      pub selected_ids : List ℕ
      pub formatted_blocks : List String
      pub current_tokens : ℕ

    unfoldable pub add_block : Assembly → Scored → String → Assembly
    add_block a c block = record {
      selected_ids = a.selected_ids ++ c.id ∷ [];
      formatted_blocks = a.formatted_blocks ++ block ∷ [];
      current_tokens = a.current_tokens + count_tokens block;
    }

    -- The tests that leave the loop: enough memories, and a block that does not fit and is not the first.
    unfoldable pub is_enough : MemorySelectionPolicy → Assembly → Bool
    is_enough policy a = leb policy.max_context_memories (length a.selected_ids)

    unfoldable pub is_over : MemorySelectionPolicy → Assembly → String → Bool
    is_over policy a block =
        ltb policy.context_token_budget (a.current_tokens + count_tokens block)
        && ltb 0 (length a.selected_ids)

    unfoldable pub block_of : Assembly → Scored → Option String
    unfolding format_single_memory
    block_of a c = format_single_memory (suc (length a.selected_ids)) c.memory

    -- `none` is an exception of the rendering.
    unfoldable pub assemble : MemorySelectionPolicy → Assembly → List Scored → Option Assembly
    unfolding is_enough is_over block_of add_block
    assemble policy a [] = some a
    assemble policy a (c ∷ cs) =
        let more : Option Assembly = elim (block_of a c) [
          | none ↦ none
          | some block ↦
              let rest = assemble policy (add_block a c block) cs in
              if is_over policy a block then some a else rest
        ] in
        if is_enough policy a then some a else more

    unfoldable pub start : Assembly
    start = record {
      selected_ids = [];
      formatted_blocks = [];
      current_tokens = count_tokens header;
    }

    -- What may be injected, the best first.
    unfoldable pub shortlist : MemorySelectionPolicy → List Scored → List Scored
    unfolding is_relevant filter_redundant_memories sort
    shortlist policy candidates =
        filter_redundant_memories policy.redundancy_threshold
          (sort (better policy) (filter (is_relevant policy) candidates))

    pub record Context : Type 0 where
      pub text : String
      pub injected_ids : List ℕ
      pub candidate_count : ℕ
      pub final_count : ℕ

    abbrev pub finish : ℕ → Assembly → Context
    finish n a = elim a.formatted_blocks [
      | [] ↦ record { text = ""; injected_ids = []; candidate_count = n; final_count = 0 }
      | b ∷ bs ↦ record {
        text = header ⧺ join "\n\n" (b ∷ bs) ⧺ footer;
        injected_ids = a.selected_ids;
        candidate_count = n;
        final_count = length a.selected_ids;
      }
    ]

    -- The early returns for no candidate, or no relevant one, give what the empty loop gives.
    unfoldable pub build_context : List Scored → MemorySelectionPolicy → Option Context
    unfolding shortlist assemble start
    build_context candidates policy = elim (assemble policy start (shortlist policy candidates)) [
      | none ↦ none
      | some a ↦ some (finish (length candidates) a)
    ]
