-- ===== src/Examples/Access.antt =====
-- Visibility, keys and identities of concrete agents.
use action_cloud.Prelude.{
  ◌≡◌, ◌≢◌, ◌⊎◌, refl, String, string_eq, true, false, Option, none, some, List, [], ◌∷◌, ◌==◌,
  arith,
}
use action_cloud.Schema.{AgentRole, coding, testing, agent, is_visible_to, truthy?}
use action_cloud.Schema.Visibility.{keeps, visibility_sql, keeps-visibility_sql}
use action_cloud.Service.{record_reuse, store_experience, Options, System, Stored}
use action_cloud.Auth.{
  Principal, Agent, admin, is_admin_key, register_agent, resolve_key, revoke_agent,
}
use action_cloud.Auth.Keys.{revoked_locked_out, registered_resolves, rotated_locked_out}
use action_cloud.Api.{
  Http, response, http_error, Settings, authenticate, presented, report_experience_reuse,
  reuse_response, store_experience_route, or_status,
}
use action_cloud.Api.Identity.{
  report_experience_reuse_own, store_experience_route_own, authenticate_sound,
}
use action_cloud.Examples.Rounding.{half_up}
use action_cloud.Store.{empty}
use action_cloud.Examples.Data.{stored, payload, plain, or_system}

keeps-visibility_sql_example :
    keeps (visibility_sql agent "alice" coding (some "bob") (some testing))
    ≡ is_visible_to agent "alice" coding (some "bob") (some testing)
keeps-visibility_sql_example = keeps-visibility_sql agent "alice" coding (some "bob") (some testing)

-- A folding that keeps every text.
abbrev keep : String → String
keep s = s

abbrev alice : Agent
alice = record {
  agent_id = "alice";
  agent_role = coding;
  key_hash = "k1";
  created_at = 0;
  revoked_at = none;
}

abbrev bob : Agent
bob = record {
  agent_id = "bob";
  agent_role = testing;
  key_hash = "k2";
  created_at = 1;
  revoked_at = none;
}

abbrev agents : List Agent
agents = alice ∷ bob ∷ []

abbrev principal_of : String → AgentRole → Principal
principal_of agent_id role = record { agent_id = agent_id; role = role; is_admin = false }

bob_resolves :
    resolve_key keep (revoke_agent agents "alice" 5).0 (some "k2") none
    ≡ some (principal_of "bob" testing)
unfolding resolve_key revoke_agent
bob_resolves = refl

revoked_locked_out_example :
    ((is_admin_key "k2" none ≡ true) × (principal_of "bob" testing ≡ admin))
    ⊎ ((principal_of "bob" testing).agent_id ≢ "alice")
revoked_locked_out_example =
    revoked_locked_out keep agents "alice" "k2" none 5 (principal_of "bob" testing) bob_resolves

abbrev rotated : List Agent
rotated = record alice { key_hash = "k3" } ∷ bob ∷ []

rotation : register_agent keep agents "alice" coding true "k3" 6 ≡ some rotated
unfolding register_agent
rotation = refl

registered_resolves_example :
    resolve_key keep rotated (some "k3") none ≡ some (principal_of "alice" coding)
registered_resolves_example =
    registered_resolves keep agents "alice" coding true "k3" none 6 rotated (ground arith) refl
      rotation

hashes_differ : keep "k2" ≢ keep "k3"
hashes_differ e =
    let no_ : (keep "k2" == keep "k3") ≡ false = refl in
    ground (arith, string_eq.same_iff (keep "k2") (keep "k3"))

rotated_locked_out_example : (principal_of "bob" testing).agent_id ≢ "alice"
unfolding resolve_key
rotated_locked_out_example =
    rotated_locked_out keep agents "alice" coding "k3" "k2" none 6 rotated
      (principal_of "bob" testing) refl hashes_differ refl rotation refl

report_experience_reuse_own_example :
    (report_experience_reuse half_up stored (some (principal_of "bob" testing)) 7 true none 3
      ≡ reuse_response (record_reuse half_up stored 7 true (some "bob") 3))
    ⊎ (report_experience_reuse half_up stored (some (principal_of "bob" testing)) 7 true none 3
        ≡ http_error 403)
report_experience_reuse_own_example =
    report_experience_reuse_own half_up stored (principal_of "bob" testing) 7 true none 3 refl

abbrev locked : Settings
locked = record { auth_required = true; admin_key = none }

bob_authenticates :
    authenticate keep (λ h. none) locked agents (some "k2") none
    ≡ response (some (principal_of "bob" testing))
unfolding authenticate
bob_authenticates = refl

authenticate_sound_example :
    (((Path (Option Principal) (some (principal_of "bob" testing)) none)
        × (locked.auth_required ≡ false)
        × (truthy? (presented (λ h. none) (some "k2") none) ≡ false))
      ⊎ ((p : Principal) × (Path (Option Principal) (some (principal_of "bob" testing)) (some p))
          × (resolve_key keep agents (presented (λ h. none) (some "k2") none) none ≡ some p)))
authenticate_sound_example =
    authenticate_sound keep (λ h. none) locked agents (some "k2") none
      (some (principal_of "bob" testing)) bob_authenticates

abbrev queued : Options
queued = record { sync_write = false; governance = true; author_prior = true }

abbrev idle : System
idle = record { store = empty; queue = [] }

abbrev after_store : Http (System × Stored)
after_store =
    store_experience_route half_up plain queued idle (some (principal_of "alice" coding)) payload
      none none 9 true 3

abbrev reached : System × Stored
reached = or_system after_store (idle, record { id = 0; queued = false })

store_accepted : after_store ≡ response reached
unfolding store_experience_route store_experience
store_accepted = refl

store_experience_route_own_example :
    or_status 503 (
      store_experience half_up plain queued idle
        (record payload { agent_id = "alice"; agent_role = coding })
        9
        true
        3)
    ≡ response reached
store_experience_route_own_example =
    store_experience_route_own half_up plain queued idle (principal_of "alice" coding) payload none
      none 9 true 3 reached refl store_accepted
