-- ===== src/Store/Legacy.antt =====
-- The single-statement updates of src/actioncloud/db.py, which the service does not call: each one
-- changes the row of an id, if there is one, and nothing else. A write that names no row changes
-- nothing.
use action_cloud.Prelude.{
  ℕ, ◌≡◌, String, string_eq, nat_eq, Bool, true, Option, none, some, List, [], ◌∷◌, ◌++◌, ◌==◌,
  if◌then◌else◌, count, arith,
}
use action_cloud.Table.{replace, find-replace, key-find}
use action_cloud.Schema.{MemoryTier, Workflow, Triple}
use action_cloud.Judge.{Reason}
use action_cloud.Store.{Vector, Row, Store, row_id, get_experience, nonempty}
use action_cloud.Store.Reuse.{counted_row}

-- UPDATE experiences SET … WHERE id = id
abbrev update_row : (Row → Row) → Store → ℕ → Store
update_row f s id = elim (get_experience s id) [
  | none ↦ s
  | some row ↦ record s { experiences = replace row_id (f row) s.experiences }
]

-- The foreign key refuses an id that is no experience's: `none`.
unfoldable pub record_tier_transition :
    Store → ℕ → MemoryTier → Reason → Option MemoryTier → String → Option Store
unfolding get_experience
record_tier_transition s id to_tier reason from_tier decided_by = elim (get_experience s id) [
  | none ↦ none
  | some _ ↦ some (record s {
    tier_transitions =
        s.tier_transitions
        ++ record {
          experience_id = id;
          from_tier = from_tier;
          to_tier = to_tier;
          reason = reason;
          decided_by = decided_by;
        }
          ∷ [];
  })
]

unfoldable pub update_experience_tier : Store → ℕ → MemoryTier → ℕ → Store
unfolding get_experience
update_experience_tier s id tier confidence =
    update_row
      (λ row. record row { exp = record (row.exp) { tier = tier; confidence = confidence } }) s id

-- The row that was updated comes back; `none` where no row has the id.
unfoldable pub record_experience_reuse : Store → ℕ → Bool → Store × Option Row
unfolding get_experience counted_row
record_experience_reuse s id success = elim (get_experience s id) [
  | none ↦ (s, none)
  | some row ↦ (
    record s { experiences = replace row_id (counted_row row success) s.experiences },
    some (counted_row row success),
  )
]

abbrev stored_vector : Option Vector → Option Vector
stored_vector none = none
stored_vector (some v) = nonempty v

-- An empty or missing vector leaves the old one.
unfoldable pub update_experience_extractions :
    Store → ℕ → Option Workflow → List Triple → Option Vector → Bool → Store
unfolding get_experience
update_experience_extractions s id workflow triples embedding embedded =
    update_row
      (λ row. record row {
        exp = record (row.exp) {
          workflow = workflow;
          knowledge_triples = triples;
          embedded = embedded;
        };
        embedding = elim (stored_vector embedding) [ none ↦ row.embedding | some v ↦ some v ];
      })
      s id

-- SELECT count(*) … WHERE run_id = run_id, over all rows for no run or the empty text.
unfoldable pub count_experiences : Store → Option String → ℕ
count_experiences s none = count (λ row. true) s.experiences
count_experiences s (some run_id) =
    if run_id == ""
    then count (λ row. true) s.experiences
    else count (λ row. row.run_id == run_id) s.experiences

-- After record_experience_reuse on a stored memory, a read of that memory gives it with the report
-- counted, and a read of any other id gives what it gave before.
pub get-record_experience_reuse :
    (s : Store) (id j : ℕ) (success : Bool) (row : Row)
    → get_experience s id ≡ some row
    → get_experience (record_experience_reuse s id success).0 j
      ≡ (if id == j then some (counted_row row success) else get_experience s j)
unfolding record_experience_reuse get_experience counted_row
get-record_experience_reuse s id j success row hit = ground (
  arith,
  hit,
  find-replace row_id j (counted_row row success) s.experiences,
  key-find row_id id s.experiences row hit,
)
