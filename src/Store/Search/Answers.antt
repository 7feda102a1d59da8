-- ===== src/Store/Search/Answers.antt =====
-- What a search may return: rows that the requester may read, the best first, and at most `limit`.
use action_cloud.Prelude.{
  ℕ, ◌≤◌, ◌≡◌, refl, ◌⊎◌, inl, String, string_eq, nat_eq, Bool, true, false, ◌&&◌, Option, none,
  some, List, [], ◌∷◌, leb, ltb, arith, if_either, sym, ◌∙◌, filter, sort, map, All, All-take,
  All-sort, All-map, All-filter_self, All-filter, All-Memᴰ, Pairwise-take, sort-IsSorted, IsSorted,
  length, length-take,
}
use mathlib.Core.List.{Memᴰ}
use action_cloud.Floats.{Floats}
use action_cloud.Schema.{rank, is_visible_to}
use action_cloud.Schema.Visibility.{Truth, sql_or, sql_and, sql_eq, keeps, keeps-visibility_sql}
use action_cloud.Store.{Vector, Row, Store}
use action_cloud.Store.Search.{
  SearchParams, is_null, is_none, or_exact, common_filters, Engine, Candidate, before, select,
  search_experiences, hybrid_exact, hybrid_ann, hybrid_search_experiences,
}

-- The filters in words: not superseded, trusted enough, in scope, and visible to the requester.
pub record IsEligible (p : SearchParams) (e : Row) : Type 0 where
  pub current : e.superseded_by ≡ none
  pub trusted : rank p.min_tier ≤ rank e.tier
  pub scoped : (p.scope_run_id ≡ none) ⊎ (p.scope_run_id ≡ some e.run_id)
  pub visible : is_visible_to e.tier e.agent_id e.agent_role p.requester_id p.requester_role ≡ true

keeps-sql_and : (a b : Truth) → keeps (sql_and a b) ≡ true → (keeps a ≡ true) × (keeps b ≡ true)
keeps-sql_and (some true) b h = (refl, h)
keeps-sql_and (some false) b h = cc
keeps-sql_and none b h = ground arith

keeps-is_null : (o : Option ℕ) → keeps (is_null o) ≡ true → o ≡ none
keeps-is_null none h = refl
keeps-is_null (some x) h = cc

scope_cases :
    (run_id : String) (scope : Option String)
    → keeps (sql_or (is_null scope) (sql_eq run_id scope)) ≡ true
    → (scope ≡ none) ⊎ (scope ≡ some run_id)
scope_cases run_id none h = inl refl
scope_cases run_id (some x) h = ground (arith, string_eq.same_iff run_id x)

common_filters-IsEligible :
    (p : SearchParams) (e : Row) → keeps (common_filters p e) ≡ true → IsEligible p e
unfolding common_filters
common_filters-IsEligible p e h =
    let (current, h₁) = keeps-sql_and (is_null e.superseded_by) _ h in
    let (trusted, h₂) = keeps-sql_and (some (leb (rank p.min_tier) (rank e.tier))) _ h₁ in
    let (scoped, visible) =
      keeps-sql_and (sql_or (is_null p.scope_run_id) (sql_eq e.run_id p.scope_run_id)) _ h₂ in
    record {
      current = keeps-is_null e.superseded_by current;
      trusted = ground arith;
      scoped = scope_cases e.run_id p.scope_run_id scoped;
      visible =
          sym (keeps-visibility_sql e.tier e.agent_id e.agent_role p.requester_id p.requester_role)
          ∙ visible;
    }

module _ (F : Floats) where
  before_total : (x y : Candidate F) → before F x y ≡ false → before F y x ≡ true
  before_total x y h = ground (arith, F.le_total x.relevance y.relevance)

  before_trans :
      (x y z : Candidate F) → before F x y ≡ true → before F y z ≡ true → before F x z ≡ true
  before_trans x y z h k = ground (
    arith,
    F.le_trans x.relevance y.relevance z.relevance,
    F.le_trans z.relevance y.relevance x.relevance,
    F.le_trans x.relevance z.relevance y.relevance,
    F.le_trans y.relevance x.relevance z.relevance,
    F.le_trans z.relevance x.relevance y.relevance,
    F.le_trans y.relevance z.relevance x.relevance,
    F.le_total x.relevance y.relevance,
    F.le_total y.relevance z.relevance,
    F.le_total x.relevance z.relevance,
  )

  -- An answer to a query: its rows are the store's and eligible, it has at most `limit` of them, the best first.
  pub record IsAnswer (s : Store) (p : SearchParams) (answer : List (Candidate F)) : Type 0 where
    pub stored : All (λ (c : Candidate F). Memᴰ c.row s.experiences) answer
    pub eligible : All (λ (c : Candidate F). IsEligible p c.row) answer
    pub sorted : IsSorted (before F) answer
    pub limited : length answer ≤ p.limit

  select-IsAnswer :
      (s : Store) (p : SearchParams) (relevance : Row → F.Float) (test : Row → Bool)
      → ((e : Row) → test e ≡ true → IsEligible p e)
      → IsAnswer s p
          (select F p.limit (λ e. record { row = e; relevance = relevance e }) test s.experiences)
  unfolding select
  select-IsAnswer s p relevance test ok =
      let rows = s.experiences in
      let scored : Row → Candidate F = λ e. record { row = e; relevance = relevance e } in
      record {
        stored = All-take _ p.limit _ (
            All-sort (before F) _ _
              (All-map _ scored (filter test rows) (All-filter _ test rows (All-Memᴰ rows))));
        eligible = All-take _ p.limit _ (
            All-sort (before F) _ _
              (All-map _ scored (filter test rows) (All-filter_self _ test rows ok)));
        sorted =
            Pairwise-take _ p.limit _
              (sort-IsSorted (before F) before_total before_trans (map scored (filter test rows)));
        limited =
            omega (arith, length-take p.limit (sort (before F) (map scored (filter test rows))));
      }

  module _ (engine : Engine F) (s : Store) (query : String) (p : SearchParams) where
    exact-IsAnswer : (vector : Vector) → IsAnswer s p (hybrid_exact F engine s query vector p)
    unfolding hybrid_exact
    exact-IsAnswer vector =
        select-IsAnswer s p _ _ λ e h. common_filters-IsEligible p e (ground arith)

    ann-IsAnswer :
        (vector : Vector) (ann_k : ℕ) → IsAnswer s p (hybrid_ann F engine s query vector p ann_k)
    unfolding hybrid_ann
    ann-IsAnswer vector ann_k =
        select-IsAnswer s p _ _ λ e h. common_filters-IsEligible p e (ground arith)

    text-IsAnswer : IsAnswer s p (search_experiences F engine s query p)
    unfolding search_experiences
    text-IsAnswer = select-IsAnswer s p _ _ λ e h. common_filters-IsEligible p e (ground arith)

    or_exact-IsAnswer :
        (indexed exact : List (Candidate F))
        → IsAnswer s p indexed
        → IsAnswer s p exact
        → IsAnswer s p (or_exact F engine indexed exact)
    or_exact-IsAnswer [] exact h k = k
    or_exact-IsAnswer (c ∷ cs) exact h k = h

    -- On every path, by text, exactly or through the index, the answer holds only eligible rows of the store, at
    -- most `limit` of them, the best first.
    pub hybrid_search_experiences-IsAnswer :
        (vector : Vector) (ann_candidates : ℕ)
        → IsAnswer s p (hybrid_search_experiences F engine s query vector p ann_candidates)
    unfolding hybrid_search_experiences
    hybrid_search_experiences-IsAnswer [] k = text-IsAnswer
    hybrid_search_experiences-IsAnswer (x ∷ xs) k =
        if_either (IsAnswer s p) (ltb 0 k && is_none p.scope_run_id)
          (or_exact-IsAnswer _ _ (ann-IsAnswer (x ∷ xs) k) (exact-IsAnswer (x ∷ xs)))
          (exact-IsAnswer (x ∷ xs))
