-- ===== src/Schema/Visibility.antt =====
-- The visibility rule twice: MemoryTier.is_visible_to of src/actioncloud/schema.py, and the WHERE
-- clause VISIBILITY_SQL of src/actioncloud/db.py, read with SQL's three truth values.
use action_cloud.Prelude.{
  ◌≡◌, ◌↔◌, ◌⊎◌, ◌≤◌, beq_comm, String, Bool, true, false, Option, none, some, arith, ◌==◌, Eq,
  string_eq, leb,
}
use action_cloud.Schema.{
  AgentRole, MemoryTier, role_eq, agent, shared, rank, is_agent_tier, is_visible_to,
}

-- A truth value of SQL: NULL is `none`.
abbrev pub Truth : Type 0
Truth = Option Bool

abbrev pub sql_or : Truth → Truth → Truth
sql_or (some true) _ = some true
sql_or (some false) q = q
sql_or none (some true) = some true
sql_or none _ = none

abbrev pub sql_and : Truth → Truth → Truth
sql_and (some false) _ = some false
sql_and (some true) q = q
sql_and none (some false) = some false
sql_and none _ = none

-- `x IS NOT NULL`
abbrev pub not_null {ℓ} : {A : Type ℓ} → Option A → Truth
not_null none = some false
not_null (some _) = some true

-- `column = x`, for a column that is not null.
abbrev pub sql_eq {ℓ} : {A : Type ℓ} ⦃e : Eq A⦄ → A → Option A → Truth
sql_eq column none = none
sql_eq column (some x) = some (column == x)

-- WHERE keeps a row only if its condition is true.
abbrev pub keeps : Truth → Bool
keeps (some b) = b
keeps none = false

unfoldable pub visibility_sql :
    MemoryTier → String → AgentRole → Option String → Option AgentRole → Truth
visibility_sql tier agent_id agent_role requester_id requester_role =
    sql_or (some (leb (rank shared) (rank tier))) (
      sql_or (sql_and (not_null requester_id) (sql_eq agent_id requester_id)) (
        sql_and (some (is_agent_tier tier))
          (sql_and (not_null requester_role) (sql_eq agent_role requester_role))))

module _ (tier : MemoryTier) (author : String) (role : AgentRole) where
  -- The Python rule and the SQL rule agree for every memory and every requester, also for one that
  -- gives no identity or no role.
  pub keeps-visibility_sql :
      (requester : Option String) (requester_role : Option AgentRole)
      → keeps (visibility_sql tier author role requester requester_role)
        ≡ is_visible_to tier author role requester requester_role
  unfolding visibility_sql is_visible_to
  keeps-visibility_sql none none = ground arith
  keeps-visibility_sql none (some r) = ground (arith, beq_comm r role)
  keeps-visibility_sql (some a) none = ground (arith, beq_comm a author)
  keeps-visibility_sql (some a) (some r) = ground (arith, beq_comm a author, beq_comm r role)

  -- A memory is visible to a requester exactly if its tier is SHARED or above, or the requester is
  -- its author, or it is at AGENT and the requester has the author's role.
  pub is_visible_to_iff :
      (requester : Option String) (requester_role : Option AgentRole)
      → (is_visible_to tier author role requester requester_role ≡ true) ↔ (
          (rank shared ≤ rank tier)
          ⊎ (requester ≡ some author)
          ⊎ ((tier ≡ agent) × (requester_role ≡ some role)))
  unfolding is_visible_to
  is_visible_to_iff none none = ground arith
  is_visible_to_iff none (some r) = ground (arith, role_eq.same_iff r role)
  is_visible_to_iff (some a) none = ground (arith, string_eq.same_iff a author)
  is_visible_to_iff (some a) (some r) =
      ground (arith, string_eq.same_iff a author, role_eq.same_iff r role)
