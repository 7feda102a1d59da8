-- ===== src/Agents/Roles.antt =====
-- src/actioncloud/agents/roles.py with Agent.__init__: the classes of the roles, and build_agent.
use action_cloud.Prelude.{ℕ, arith, ◌≡◌, refl, String, Bool, Option, none, some}
use action_cloud.Floats.{Floats}
use action_cloud.Schema.{
  AgentRole, research, coding, testing, deployment, documentation, data_analysis, security, devops,
  database, ml, cloud, monitoring,
}
use action_cloud.Builder.{MemorySelectionPolicy}
use action_cloud.Agents.{Agent}

-- The class attributes of an agent class.
pub record AgentClass : Type 0 where
  pub role : AgentRole
  pub system_prompt : String

abbrev pub coding_agent : AgentClass
coding_agent = record {
  role = coding;
  system_prompt =
      "You are a coding agent. Write correct, minimal code and briefly explain any non-obvious decision. If prior experience is provided, reuse it rather than re-deriving the solution.";
}

abbrev pub research_agent : AgentClass
research_agent = record {
  role = research;
  system_prompt =
      "You are a research agent. Gather and summarise information accurately and concisely, citing what you relied on. If prior experience is provided, build on it rather than repeating the search.";
}

abbrev pub testing_agent : AgentClass
testing_agent = record {
  role = testing;
  system_prompt =
      "You are a testing agent. Write comprehensive test cases and verify failure modes. If prior experience is provided, build on established test patterns.";
}

abbrev pub deployment_agent : AgentClass
deployment_agent = record {
  role = deployment;
  system_prompt =
      "You are a deployment agent. Automate containerization and infrastructure setups. If prior experience is provided, reuse proven configuration parameters.";
}

abbrev pub documentation_agent : AgentClass
documentation_agent = record {
  role = documentation;
  system_prompt =
      "You are a documentation agent. Write clear, structured documentation and runbooks. If prior experience is provided, synthesize existing knowledge.";
}

abbrev pub data_analysis_agent : AgentClass
data_analysis_agent = record {
  role = data_analysis;
  system_prompt =
      "You are a data analysis agent. Query metrics and evaluate experimental statistical results. If prior experience is provided, build on previous analysis queries.";
}

abbrev pub security_agent : AgentClass
security_agent = record {
  role = security;
  system_prompt =
      "You are a security agent. Audit code, validate sanitization, and enforce authentication protocols. If prior experience is provided, reuse verified security rules.";
}

abbrev pub devops_agent : AgentClass
devops_agent = record {
  role = devops;
  system_prompt =
      "You are a devops agent. Configure CI/CD pipelines, container registries, and build scripts. If prior experience is provided, reuse proven build scripts.";
}

abbrev pub database_agent : AgentClass
database_agent = record {
  role = database;
  system_prompt =
      "You are a database agent. Optimize SQL queries, indexes, and schema migrations. If prior experience is provided, reuse proven database schemas.";
}

abbrev pub ml_agent : AgentClass
ml_agent = record {
  role = ml;
  system_prompt =
      "You are an ML agent. Fine-tune, evaluate, and embed machine learning models. If prior experience is provided, reuse proven model parameters.";
}

abbrev pub cloud_agent : AgentClass
cloud_agent = record {
  role = cloud;
  system_prompt =
      "You are a cloud infrastructure agent. Provision cloud resources across AWS, GCP, and Azure. If prior experience is provided, reuse proven Terraform/CloudFormation templates.";
}

abbrev pub monitoring_agent : AgentClass
monitoring_agent = record {
  role = monitoring;
  system_prompt =
      "You are a monitoring agent. Configure Prometheus metrics, Grafana dashboards, and alerts. If prior experience is provided, reuse proven alert rules.";
}

-- ROLE_REGISTRY
unfoldable pub role_registry : AgentRole → Option AgentClass
role_registry coding = some coding_agent
role_registry research = some research_agent
role_registry testing = some testing_agent
role_registry deployment = some deployment_agent
role_registry documentation = some documentation_agent
role_registry data_analysis = some data_analysis_agent
role_registry security = some security_agent
role_registry devops = some devops_agent
role_registry database = some database_agent
role_registry ml = some ml_agent
role_registry cloud = some cloud_agent
role_registry monitoring = some monitoring_agent

-- What __init__ is given. A policy that is missing is the one of the environment.
module _ (F : Floats) where
  pub record AgentOptions : Type 0 where
    pub agent_id : String
    pub run_id : String
    pub use_memory : Bool
    pub policy : Option (MemorySelectionPolicy F)
    pub report_reuse : Bool
    pub feedback_rate : F.Float
    pub scope_run_id : Option String
    pub memory_limit : Option ℕ

  abbrev pub or_else {ℓ} : {A : Type ℓ} → Option A → A → A
  or_else none a = a
  or_else (some b) a = b

  -- Agent.__init__
  unfoldable pub init : MemorySelectionPolicy F → AgentClass → AgentOptions → Agent F
  init from_env c o =
      let policy : MemorySelectionPolicy F = or_else o.policy from_env in
      record {
        agent_id = o.agent_id;
        role = c.role;
        system_prompt = c.system_prompt;
        run_id = o.run_id;
        use_memory = o.use_memory;
        policy = elim o.memory_limit [
          | none ↦ policy
          | some limit ↦ record policy { max_context_memories = limit }
        ];
        report_reuse = o.report_reuse;
        feedback_rate = o.feedback_rate;
        scope_run_id = o.scope_run_id;
      }

  -- `none` is the ValueError of a role without a class.
  unfoldable pub build_agent : MemorySelectionPolicy F → AgentRole → AgentOptions → Option (Agent F)
  unfolding role_registry init
  build_agent from_env role o = elim (role_registry role) [
    | none ↦ none
    | some c ↦ some (record (init from_env c o) { role = role })
  ]

-- Every role has a class, and the class is that role's.
registered : (role : AgentRole) → (c : AgentClass) × (role_registry role ≡ some c) × (c.role ≡ role)
unfolding role_registry
registered coding = (coding_agent, refl, refl)
registered research = (research_agent, refl, refl)
registered testing = (testing_agent, refl, refl)
registered deployment = (deployment_agent, refl, refl)
registered documentation = (documentation_agent, refl, refl)
registered data_analysis = (data_analysis_agent, refl, refl)
registered security = (security_agent, refl, refl)
registered devops = (devops_agent, refl, refl)
registered database = (database_agent, refl, refl)
registered ml = (ml_agent, refl, refl)
registered cloud = (cloud_agent, refl, refl)
registered monitoring = (monitoring_agent, refl, refl)

-- No role is refused, and an agent acts in the role that was asked for: `build_agent` gives for every
-- role the agent that __init__ makes of the role's own class.
pub build_agent_role :
    (F : Floats) (from_env : MemorySelectionPolicy F) (role : AgentRole) (o : AgentOptions F)
    → (c : AgentClass) × (role_registry role ≡ some c)
      × (build_agent F from_env role o ≡ some (init F from_env c o))
      × ((init F from_env c o).role ≡ role)
unfolding build_agent init
build_agent_role F from_env role o =
    let (c, hit, same) = registered role in (c, hit, ground (arith, hit, same), same)
