-- ===== src/Schema.antt =====
-- src/actioncloud/schema.py: the roles, the tiers, and the records that every other part passes on.
-- Numbers of type float that the code keeps to four decimals (confidence, prior) are counted in
-- ten-thousandths, and cost_usd in millionths, as the columns of sql/ store them.
pub mod Visibility
pub mod Tags
use action_cloud.Prelude.{
  map, List, [], ◌∷◌, zero, suc, ◌≡◌, ◌↔◌, refl, sym, ap, ◌∙◌, ℕ, ◌+◌, String, Bool, true, false,
  Option, none, some, List, [], ◌==◌, if◌then◌else◌, Eq, nat_eq, string_eq, discrete_eq, leb, not,
}

pub data AgentRole : Type 0 where
  research coding testing deployment documentation data_analysis : AgentRole
  security devops database ml cloud monitoring : AgentRole

-- AgentRole.value
unfoldable pub role_value : AgentRole → String
role_value research = "research"
role_value coding = "coding"
role_value testing = "testing"
role_value deployment = "deployment"
role_value documentation = "documentation"
role_value data_analysis = "data_analysis"
role_value security = "security"
role_value devops = "devops"
role_value database = "database"
role_value ml = "ml"
role_value cloud = "cloud"
role_value monitoring = "monitoring"

-- Roles are compared by their place in the enumeration.
abbrev role_index : AgentRole → ℕ
role_index research = 0
role_index coding = 1
role_index testing = 2
role_index deployment = 3
role_index documentation = 4
role_index data_analysis = 5
role_index security = 6
role_index devops = 7
role_index database = 8
role_index ml = 9
role_index cloud = 10
role_index monitoring = 11

abbrev role_at : ℕ → AgentRole
role_at zero = research
role_at (suc zero) = coding
role_at (suc (suc zero)) = testing
role_at (suc (suc (suc zero))) = deployment
role_at (suc (suc (suc (suc zero)))) = documentation
role_at (suc (suc (suc (suc (suc zero))))) = data_analysis
role_at (suc (suc (suc (suc (suc (suc zero)))))) = security
role_at (suc (suc (suc (suc (suc (suc (suc zero))))))) = devops
role_at (suc (suc (suc (suc (suc (suc (suc (suc zero)))))))) = database
role_at (suc (suc (suc (suc (suc (suc (suc (suc (suc zero))))))))) = ml
role_at (suc (suc (suc (suc (suc (suc (suc (suc (suc (suc zero)))))))))) = cloud
role_at _ = monitoring

role_at-role_index : (r : AgentRole) → role_at (role_index r) ≡ r
role_at-role_index research = refl
role_at-role_index coding = refl
role_at-role_index testing = refl
role_at-role_index deployment = refl
role_at-role_index documentation = refl
role_at-role_index data_analysis = refl
role_at-role_index security = refl
role_at-role_index devops = refl
role_at-role_index database = refl
role_at-role_index ml = refl
role_at-role_index cloud = refl
role_at-role_index monitoring = refl

pub role_same_iff : (a b : AgentRole) → ((role_index a == role_index b) ≡ true) ↔ (a ≡ b)
role_same_iff a b =
    let (there, back) = nat_eq.same_iff (role_index a) (role_index b) in
    (
      (λ h. sym (role_at-role_index a) ∙ ap role_at (there h) ∙ role_at-role_index b),
      (λ h. back (ap role_index h)),
    )

instance abbrev pub role_eq : Eq AgentRole
role_eq = record { same = λ a b. role_index a == role_index b; same_iff = role_same_iff }

pub data MemoryTier : Type 0 where
  private agent shared validated organizational : MemoryTier

-- MemoryTier.rank, with the table _TIER_RANK.
abbrev pub rank : MemoryTier → ℕ
rank private = 0
rank agent = 1
rank shared = 2
rank validated = 3
rank organizational = 4

abbrev pub is_agent_tier : MemoryTier → Bool
is_agent_tier agent = true
is_agent_tier _ = false

unfoldable pub is_visible_to_fleet : MemoryTier → Bool
is_visible_to_fleet tier = leb (rank shared) (rank tier)

-- `requester_x is not None and requester_x == author_x`
unfoldable pub same_identity {ℓ} : {A : Type ℓ} ⦃e : Eq A⦄ → Option A → A → Bool
same_identity none author = false
same_identity (some requester) author = requester == author

unfoldable pub is_visible_to :
    MemoryTier → String → AgentRole → Option String → Option AgentRole → Bool
unfolding is_visible_to_fleet same_identity
is_visible_to tier author_agent_id author_role requester_agent_id requester_role =
    if is_visible_to_fleet tier
    then true
    else if same_identity requester_agent_id author_agent_id
    then true
    else if is_agent_tier tier
    then same_identity requester_role author_role
    else false

pub data SystemCondition : Type 0 where
  baseline actioncloud : SystemCondition

-- A value of the JSON that a workflow is, as Python iterates over it. An item is a text, or another
-- value with its str().
pub data Item : Type 0 where
  text_item : String → Item
  other_item : String → Item

-- A list, and also a text or an object, which iterate over their characters and keys; or a value that
-- gives no items, such as a number or None, with its bool().
pub data Part : Type 0 where
  items : List Item → Part
  scalar : Bool → Part

abbrev pub part_of : List String → Part
part_of ts = items (map text_item ts)

-- bool(part)
abbrev pub has_items : Part → Bool
has_items (items []) = false
has_items (items (i ∷ is)) = true
has_items (scalar b) = b

-- The generalised procedure that the extractor derives from an experience: a dict, of which only the
-- steps are looked at before it is stored. A key that is missing is None.
pub record Workflow : Type 0 where
  pub prerequisites : Part
  pub steps : Part
  pub pitfalls : Part

pub record Triple : Type 0 where
  pub subject : String
  pub predicate : String
  pub object : String

pub record ExperienceCreate : Type 0 where
  pub agent_id : String
  pub agent_role : AgentRole
  pub task : String
  pub problem : Option String
  pub action : String
  pub solution : Option String
  pub result : String
  pub tools_used : List String
  pub technologies : List String
  pub success : Bool
  pub tokens_input : ℕ
  pub tokens_output : ℕ
  pub tool_calls : ℕ
  pub execution_time_ms : ℕ
  pub cost_usd : ℕ
  pub run_id : String
  pub system : SystemCondition
  pub task_key : Option String
  pub retrieved_experience_ids : List ℕ

-- A UUID is a number; the caller of `store_experience` gets a fresh one.
pub record Experience : Type 0 where
  pub created : ExperienceCreate
  pub open created use *
  pub id : ℕ
  pub tier : MemoryTier
  pub confidence : ℕ
  pub prior : ℕ
  pub reuse_count : ℕ
  pub reuse_success_count : ℕ
  pub version : ℕ
  pub superseded_by : Option ℕ
  pub workflow : Option Workflow
  pub knowledge_triples : List Triple
  pub embedded : Bool

-- Experience(**payload.model_dump()): the defaults of the governance fields.
unfoldable pub new_experience : ExperienceCreate → ℕ → Experience
new_experience payload id = record {
  created = payload;
  id = id;
  tier = private;
  confidence = 5000;
  prior = 6000;
  reuse_count = 0;
  reuse_success_count = 0;
  version = 1;
  superseded_by = none;
  workflow = none;
  knowledge_triples = [];
  embedded = false;
}

-- The ratio as numerator and denominator: None until the memory was reused once.
unfoldable pub observed_success_rate : Experience → Option (ℕ × ℕ)
observed_success_rate e =
    if e.reuse_count == 0 then none else some (e.reuse_success_count, e.reuse_count)

unfoldable pub total_tokens : Experience → ℕ
total_tokens e = e.tokens_input + e.tokens_output

-- Python's truth value of a text, and of a text or None.
abbrev pub truthy : String → Bool
truthy s = not (s == "")

abbrev pub truthy? : Option String → Bool
truthy? none = false
truthy? (some s) = truthy s
