-- ===== src/Store/Search.antt =====
-- The governed retrieval of src/actioncloud/db.py: _COMMON_FILTERS, SEARCH_SQL, HYBRID_SEARCH_SQL,
-- HYBRID_ANN_SQL and hybrid_search_experiences. The scores of a row (pgvector's cosine distance,
-- ts_rank, their weighted sum, the match `@@`) and the neighbours that the HNSW index finds are the
-- database's: the interface `Engine`, of which nothing is assumed.
pub mod Answers
use action_cloud.Prelude.{
  ℕ, ◌≤◌, ◌<◌, ◌≡◌, refl, inl, inr, String, string_eq, nat_eq, Bool, true, false, not, ◌&&◌, ◌||◌,
  Option, none, some, List, [], ◌∷◌, ◌==◌, if◌then◌else◌, leb, ltb, arith, filter, take, sort,
  contains, map, All,
}
use action_cloud.Floats.{Floats}
use action_cloud.Schema.{AgentRole, MemoryTier, rank}
use action_cloud.Schema.Visibility.{Truth, sql_or, sql_and, sql_eq, keeps, visibility_sql}
use action_cloud.Store.{Vector, Row, Store, row_id}

-- `_params`, less the query and its vector.
pub record SearchParams : Type 0 where
  pub limit : ℕ
  pub min_tier : MemoryTier
  pub requester_id : Option String
  pub requester_role : Option AgentRole
  pub scope_run_id : Option String

abbrev pub is_none {ℓ} : {A : Type ℓ} → Option A → Bool
is_none none = true
is_none (some _) = false

abbrev pub is_null {ℓ} : {A : Type ℓ} → Option A → Truth
is_null none = some true
is_null (some _) = some false

-- _COMMON_FILTERS
unfoldable pub common_filters : SearchParams → Row → Truth
common_filters p e = sql_and (is_null e.superseded_by) (
    sql_and (some (leb (rank p.min_tier) (rank e.tier))) (
      sql_and (sql_or (is_null p.scope_run_id) (sql_eq e.run_id p.scope_run_id))
        (visibility_sql e.tier e.agent_id e.agent_role p.requester_id p.requester_role)))

module _ (F : Floats) where
  open F use {Float, zero_float, le}

  pub record Engine : Type 0 where
    pub matches : String → Row → Bool
    pub vec_score : Vector → Row → Float
    pub fts_score : String → Row → Float
    -- vec_score + FTS_WEIGHT * fts_score
    pub combined : Float → Float → Float
    -- the ids of the `ann_k` nearest rows with an embedding, as the index answers
    pub neighbours : Store → Vector → ℕ → List ℕ

  -- A row of the answer, with its relevance.
  pub record Candidate : Type 0 where
    pub row : Row
    pub open row use *
    pub relevance : Float

  -- ORDER BY relevance DESC, created_at DESC
  abbrev pub before : Candidate → Candidate → Bool
  before x y =
      not (le x.relevance y.relevance)
      || (le y.relevance x.relevance && leb y.created_at x.created_at)

  -- SELECT … WHERE test ORDER BY relevance DESC, created_at DESC LIMIT limit
  unfoldable pub select : ℕ → (Row → Candidate) → (Row → Bool) → List Row → List Candidate
  unfolding sort
  select limit scored test rows = take limit (sort before (map scored (filter test rows)))

  module _ (engine : Engine) where
    abbrev scored : Vector → String → Row → Candidate
    scored vector query e = record {
      row = e;
      relevance = engine.combined (engine.vec_score vector e) (engine.fts_score query e);
    }

    abbrev positive : Float → Bool
    positive x = not (le x zero_float)

    -- SEARCH_SQL: rows that match the text, ranked by ts_rank.
    unfoldable pub search_experiences : Store → String → SearchParams → List Candidate
    unfolding select
    search_experiences s query p =
        select p.limit (λ e. record { row = e; relevance = engine.fts_score query e })
          (λ e. engine.matches query e && keeps (common_filters p e)) s.experiences

    -- HYBRID_SEARCH_SQL: every row that passes the filters and scores above 0 by either signal.
    unfoldable pub hybrid_exact : Store → String → Vector → SearchParams → List Candidate
    unfolding select
    hybrid_exact s query vector p =
        select p.limit (scored vector query)
          (λ e.
            keeps (common_filters p e)
            && (positive (engine.vec_score vector e) || positive (engine.fts_score query e)))
          s.experiences

    -- HYBRID_ANN_SQL: the rows among the index's neighbours that pass the filters.
    unfoldable pub hybrid_ann : Store → String → Vector → SearchParams → ℕ → List Candidate
    unfolding select
    hybrid_ann s query vector p ann_k =
        select p.limit (scored vector query)
          (λ e. contains (engine.neighbours s vector ann_k) e.id && keeps (common_filters p e))
          s.experiences

    abbrev pub or_exact : List Candidate → List Candidate → List Candidate
    or_exact [] exact = exact
    or_exact (c ∷ cs) exact = c ∷ cs

    -- The index serves unscoped queries only, and an empty answer of it is computed exactly.
    unfoldable pub hybrid_search_experiences :
        Store → String → Vector → SearchParams → ℕ → List Candidate
    unfolding search_experiences hybrid_exact hybrid_ann
    hybrid_search_experiences s query [] p ann_candidates = search_experiences s query p
    hybrid_search_experiences s query (x ∷ xs) p ann_candidates =
        let exact = hybrid_exact s query (x ∷ xs) p in
        let indexed = hybrid_ann s query (x ∷ xs) p ann_candidates in
        if ltb 0 ann_candidates && is_none p.scope_run_id then or_exact indexed exact else exact
