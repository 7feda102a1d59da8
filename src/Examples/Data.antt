-- ===== src/Examples/Data.antt =====
-- Concrete agents, memories and interfaces for the examples.
use action_cloud.Prelude.{
  ℕ, ◌+◌, ◌*◌, ◌≡◌, String, string_eq, if◌then◌else◌, nat_eq, true, false, Option, none, some, [],
  ◌∷◌, ◌==◌, leb, arith,
}
use action_cloud.Floats.{Floats}
use action_cloud.Schema.{coding, ExperienceCreate, new_experience, actioncloud, Experience}
use action_cloud.Store.{Row, Store, empty, record_injections}
use action_cloud.Store.Search.{Engine}
use action_cloud.Pipeline.{Enrichers, process_experience}
use action_cloud.Service.{Result, ok, err, ReuseReply, record_reuse}
use action_cloud.Api.{Http, response, http_error}
use action_cloud.Examples.Rounding.{half_up}

pub nat_total : (x y : ℕ) → leb x y ≡ false → leb y x ≡ true
nat_total x y h = ground arith

pub nat_trans : (x y z : ℕ) → leb x y ≡ true → leb y z ≡ true → leb x z ≡ true
nat_trans x y z h k = ground arith

-- Scores in ten-thousandths.
abbrev pub decimals : Floats
decimals = record {
  Float = ℕ;
  zero_float = 0;
  of_ten_thousandths = λ n. n;
  add = λ a b. a + b;
  mul = λ a b. a * b;
  le = leb;
  le_total = nat_total;
  le_trans = nat_trans;
}

abbrev pub plain : Enrichers
plain = record { extract = λ e. (none, []); embed = λ s. []; answers = λ e. true }

-- Every row matches, with its id as score.
abbrev pub by_id : Engine decimals
by_id = record {
  matches = λ q e. true;
  vec_score = λ v e. e.id;
  fts_score = λ q e. e.id;
  combined = λ a b. a + b;
  neighbours = λ s v k. [];
}

abbrev pub ratio : String → String → ℕ
ratio a b = if a == b then 10000 else 0

abbrev pub payload : ExperienceCreate
payload = record {
  agent_id = "alice";
  agent_role = coding;
  task = "rotate the certificates";
  problem = some "the chain had expired";
  action = "renewed them";
  solution = some "renew with the new root";
  result = "the service is up";
  tools_used = [];
  technologies = "tls" ∷ [];
  success = true;
  tokens_input = 10;
  tokens_output = 20;
  tool_calls = 1;
  execution_time_ms = 30;
  cost_usd = 0;
  run_id = "r1";
  system = actioncloud;
  task_key = some "certs";
  retrieved_experience_ids = [];
}

abbrev pub exp : Experience
exp = new_experience payload 7

abbrev pub or_store : Option Store → Store → Store
or_store none s = s
or_store (some t) s = t

abbrev pub store_of : Result (Store × ReuseReply) → Store → Store
store_of (err e) s = s
store_of (ok (t, reply)) s = t

-- Alice stores memory 7, it is injected to Bob, and Bob reports that it worked.
abbrev pub stored : Store
stored = (process_experience half_up plain empty exp true true 0).0

abbrev pub injected : Store
injected = or_store (record_injections stored (7 ∷ []) "bob" 1) stored

abbrev pub reported_once : Store
reported_once = store_of (record_reuse half_up injected 7 true (some "bob") 2) injected

-- A row that a table holds.
abbrev pub row_or : Option Row → Row
row_or none = record { exp = exp; embedding = none; created_at = 0 }
row_or (some row) = row

-- Alice fails at another attempt, and Bob is given the record of it.
abbrev pub failed_payload : ExperienceCreate
failed_payload = record payload { success = false }

abbrev pub failed_attempt : Store
failed_attempt =
    (process_experience half_up plain empty (new_experience failed_payload 8) true true 0).0

abbrev pub failed_injected : Store
failed_injected = or_store (record_injections failed_attempt (8 ∷ []) "bob" 1) failed_attempt

abbrev pub or_system {ℓ} : {A : Type ℓ} → Http A → A → A
or_system (response a) b = a
or_system (http_error n) b = b
