-- ===== src/Store.antt =====
-- The tables of sql/ and the writes of src/actioncloud/db.py, each function one transaction.
-- A transaction that changes nothing returns the store that it was given. `now` is the server's
-- clock. Rows keep the order of insertion; `FOR UPDATE` is the reason why a transaction on one
-- memory is one step: a second report waits for the first one's commit.
pub mod Reuse
pub mod Search
pub mod Consistency
pub mod Ledger
pub mod Legacy
use action_cloud.Prelude.{
  ℕ, ◌+◌, String, string_eq, nat_eq, Bool, true, false, ◌&&◌, Option, none, some, List, [], ◌∷◌,
  ◌++◌, ◌==◌, if◌then◌else◌,
}
use action_cloud.Prelude.Int.{ℤ}
use action_cloud.Table.{find}
use action_cloud.Schema.{MemoryTier, Experience, Workflow, Triple}
use action_cloud.Judge.{Reason}

-- pgvector's column type: the text literal of `_vec` has six decimals, so these are millionths.
abbrev pub Vector : Type 0
Vector = List ℤ

pub record Row : Type 0 where
  pub exp : Experience
  pub open exp use *
  pub embedding : Option Vector
  pub created_at : ℕ

pub record Injection : Type 0 where
  pub experience_id : ℕ
  pub agent_id : String
  pub created_at : ℕ
  pub reported_at : Option ℕ

pub record ReuseEvent : Type 0 where
  pub experience_id : ℕ
  pub reporter_agent_id : String
  pub success : Bool
  pub counted : Bool

pub record Transition : Type 0 where
  pub experience_id : ℕ
  pub from_tier : Option MemoryTier
  pub to_tier : MemoryTier
  pub reason : Reason
  pub decided_by : String

pub record Store : Type 0 where
  pub experiences : List Row
  pub injections : List Injection
  pub reuse_events : List ReuseEvent
  pub tier_transitions : List Transition

abbrev pub empty : Store
empty = record { experiences = []; injections = []; reuse_events = []; tier_transitions = [] }

abbrev pub row_id : Row → ℕ
row_id row = row.id

-- db.get_experience
unfoldable pub get_experience : Store → ℕ → Option Row
get_experience s id = find row_id id s.experiences

-- INSERT_SQL writes the columns that it lists; the others take the defaults of the table.
unfoldable pub inserted_row : Experience → ℕ → Row
inserted_row exp now = record {
  exp = record exp {
    reuse_count = 0;
    reuse_success_count = 0;
    version = 1;
    superseded_by = none;
    workflow = none;
    knowledge_triples = [];
    embedded = false;
  };
  embedding = none;
  created_at = now;
}

-- ON CONFLICT (id) DO NOTHING; the id comes back either way.
unfoldable pub insert_experience : Store → Experience → ℕ → Store × ℕ
unfolding get_experience inserted_row
insert_experience s exp now = elim (get_experience s exp.id) [
  | some _ ↦ (s, exp.id)
  | none ↦ (record s { experiences = s.experiences ++ inserted_row exp now ∷ [] }, exp.id)
]

-- `_vec(embedding) if embedding else None`
abbrev pub nonempty {ℓ} : {A : Type ℓ} → List A → Option (List A)
nonempty [] = none
nonempty (x ∷ xs) = some (x ∷ xs)

unfoldable pub enriched_row : Experience → ℕ → Option Workflow → List Triple → Option Vector → Row
unfolding inserted_row
enriched_row exp now workflow triples embedding =
    let new = inserted_row exp now in
    record new {
      exp = record (new.exp) {
        workflow = workflow;
        knowledge_triples = triples;
        embedded = elim embedding [ none ↦ false | some _ ↦ true ];
      };
      embedding = elim embedding [ none ↦ none | some v ↦ nonempty v ];
    }

-- The second part is False on a redelivery: the id existed, and the transaction is rolled back.
unfoldable pub insert_enriched_experience :
    Store
    → Experience
    → Option Workflow
    → List Triple
    → Option Vector
    → Reason
    → String
    → ℕ
    → Store × Bool
unfolding get_experience enriched_row
insert_enriched_experience s exp workflow triples embedding tier_reason decided_by now =
    elim (get_experience s exp.id) [
      | some _ ↦ (s, false)
      | none ↦ (
        record s {
          experiences = s.experiences ++ enriched_row exp now workflow triples embedding ∷ [];
          tier_transitions =
              s.tier_transitions
              ++ record {
                experience_id = exp.id;
                from_tier = none;
                to_tier = exp.tier;
                reason = tier_reason;
                decided_by = decided_by;
              }
                ∷ [];
        },
        true,
      )
    ]

-- (counted successes, counted reports) over every memory of an author.
unfoldable pub evidence : List Row → String → ℕ × ℕ
evidence [] agent_id = (0, 0)
evidence (row ∷ rows) agent_id =
    let (s, n) = evidence rows agent_id in
    if row.agent_id == agent_id then (row.reuse_success_count + s, row.reuse_count + n) else (s, n)

unfoldable pub author_evidence : Store → String → ℕ × ℕ
unfolding evidence
author_evidence s agent_id = evidence s.experiences agent_id

abbrev pub exists : Store → ℕ → Bool
exists s id = elim (find row_id id s.experiences) [ none ↦ false | some _ ↦ true ]

unfoldable pub injections_of : List ℕ → String → ℕ → List Injection
injections_of [] agent_id now = []
injections_of (id ∷ ids) agent_id now =
    record { experience_id = id; agent_id = agent_id; created_at = now; reported_at = none }
    ∷ injections_of ids agent_id now

unfoldable pub all_exist : Store → List ℕ → Bool
all_exist s [] = true
all_exist s (id ∷ ids) = exists s id && all_exist s ids

-- The foreign key refuses an id that is no experience's, and with it the whole batch: `none`.
unfoldable pub record_injections : Store → List ℕ → String → ℕ → Option Store
unfolding injections_of all_exist
record_injections s [] agent_id now = some s
record_injections s (id ∷ ids) agent_id now =
    if all_exist s (id ∷ ids)
    then some (record s { injections = s.injections ++ injections_of (id ∷ ids) agent_id now })
    else none
