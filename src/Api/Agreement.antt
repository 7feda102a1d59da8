-- ===== src/Api/Agreement.antt =====
-- src/actioncloud/api.py: GET /search against GET /experiences/{experience_id}.
use mathlib.Core.List.{Memᴰ}
use action_cloud.Prelude.{
  ℕ, ◌≡◌, refl, ap, sym, subst, String, string_eq, nat_eq, true, false, Option, none, some, List,
  [], ◌∷◌, ◌==◌, map, contains, Distinct, All, All-zip, arith, Bool-cases, inl, inr,
}
use action_cloud.Table.{find}
use action_cloud.Floats.{Floats}
use action_cloud.Schema.{AgentRole, MemoryTier, is_visible_to}
use action_cloud.Store.{Vector, Row, Store, row_id, get_experience}
use action_cloud.Store.Consistency.{IsConsistent}
use action_cloud.Store.Search.{Engine, Candidate, SearchParams}
use action_cloud.Store.Search.Answers.{IsEligible, IsAnswer, hybrid_search_experiences-IsAnswer}
use action_cloud.Embeddings.{experience_embedding_text}
use action_cloud.Auth.{Principal}
use action_cloud.Service.{search_memory}
use action_cloud.Api.{Http, response, http_error, resolve_identity, sees, get_experience_route}
use action_cloud.Api.Retrieval.{search_route}
use action_cloud.Api.Identity.{resolve_identity_agent}

key_apart :
    (row x : Row) (rows : List Row)
    → contains (map row_id rows) (row_id x) ≡ false
    → Memᴰ row rows
    → (row_id x == row.id) ≡ false
key_apart row x [] fresh there = elim there [ ]
key_apart row x (y ∷ rows) fresh (Memᴰ.head same) =
    let same_id = ap row_id same in
    ground (
      arith,
      fresh,
      same_id,
      nat_eq.same_iff (row_id y) (row_id x),
      nat_eq.same_iff (row_id x) row.id,
    )
key_apart row x (y ∷ rows) fresh (Memᴰ.tail later) =
    key_apart row x rows (ground (arith, fresh)) later

-- Where every id stands once, the id of a row finds the row.
find-Distinct :
    (row : Row) (rows : List Row)
    → Distinct (map row_id rows)
    → Memᴰ row rows
    → find row_id row.id rows ≡ some row
unfolding find
find-Distinct row [] keys there = elim there [ ]
find-Distinct row (x ∷ rows) keys (Memᴰ.head same) =
    let same_id = ap row_id same in ground (arith, same, same_id, nat_eq.same_iff (row_id x) row.id)
find-Distinct row (x ∷ rows) (fresh, keys) (Memᴰ.tail later) =
    let rest = find-Distinct row rows keys later in
    let apart : (row_id x == row.id) ≡ false = key_apart row x rows fresh later in
    ground (arith, rest, apart)

-- What the identity of a request may retrieve, its principal may see.
resolved_sees :
    (principal : Option Principal) (claimed_id : Option String) (claimed_role : Option AgentRole)
    (id : Option String) (role : Option AgentRole) (row : Row)
    → resolve_identity principal claimed_id claimed_role ≡ response (id, role)
    → is_visible_to row.tier row.agent_id row.agent_role id role ≡ true
    → sees principal row ≡ true
resolved_sees none claimed_id claimed_role id role row h visible = refl
resolved_sees (some p) claimed_id claimed_role id role row h visible =
    elim (Bool-cases p.is_admin) [
      | inl admin ↦ rw admin refl
      | inr off ↦ elim (resolve_identity_agent p claimed_id claimed_role off) [
        | inr (_, e) ↦ absurd (ground (arith, e, h))
        | inl (_, e) ↦
            let own_id : id ≡ some p.agent_id = ground (arith, e, h) in
            let own_role : role ≡ some p.role = ground (arith, e, h) in
            rw (off, sym own_id, sym own_role) visible
      ]
    ]

seen_route :
    (s : Store) (principal : Option Principal) (row : Row)
    → find row_id row.id s.experiences ≡ some row
    → sees principal row ≡ true
    → get_experience_route s principal row.id ≡ response row
unfolding get_experience_route get_experience
seen_route s principal row hit seen = ground (arith, hit, seen)

module _ (F : Floats) (engine : Engine F) (embed : String → Vector) where
  -- Whatever a search shows a requester, the requester may also fetch by its id, and gets the same
  -- record: for every key and also without one, whatever identity the request claims, in a store whose
  -- tables are consistent.
  pub search_route-get_experience_route :
      (s : Store) (principal : Option Principal) (q : String) (limit : ℕ) (min_tier : MemoryTier)
      (claimed_id : Option String) (claimed_role : Option AgentRole) (technologies : List String)
      (scope_run_id : Option String) (found : List (Candidate F))
      → IsConsistent s
      → search_route F engine embed s principal q limit min_tier claimed_id claimed_role
          technologies scope_run_id
        ≡ response found
      → All (λ (c : Candidate F). get_experience_route s principal c.row.id ≡ response c.row) found
  unfolding search_route search_memory
  search_route-get_experience_route s principal q limit min_tier claimed_id claimed_role
        technologies scope_run_id found ok h =
      go (resolve_identity principal claimed_id claimed_role) refl
    where
      go :
          (who : Http (Option String × Option AgentRole))
          → resolve_identity principal claimed_id claimed_role ≡ who
          → All
              (λ (c : Candidate F). get_experience_route s principal c.row.id ≡ response c.row)
              found
      go (http_error n) e = absurd (ground (arith, e, h))
      go (response (id, role)) e =
          let p : SearchParams = record {
            limit = limit;
            min_tier = min_tier;
            requester_id = id;
            requester_role = role;
            scope_run_id = scope_run_id;
          } in
          let same : search_memory F engine embed s q technologies p ≡ found =
            ground (arith, e, h) in
          let answer : IsAnswer F s p found = subst (IsAnswer F s p) same (
            hybrid_search_experiences-IsAnswer F engine s q p
              (embed (experience_embedding_text q technologies none)) 0) in
          All-zip _ _ _ found
            (λ (c : Candidate F) there (eligible : IsEligible p c.row).
              seen_route s principal c.row (find-Distinct c.row s.experiences ok.keys there)
                (resolved_sees principal claimed_id claimed_role id role c.row e eligible.visible))
            answer.stored answer.eligible
