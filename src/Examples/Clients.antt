-- ===== src/Examples/Clients.antt =====
-- The same context over HTTP and in the process.
use action_cloud.Prelude.{◌≡◌, refl, String, string_eq, false, none, some, [], Option}
use action_cloud.Schema.{coding}
use action_cloud.Service.{System}
use action_cloud.Api.{Settings}
use action_cloud.Client.{ContextReply, reply_of, in_process_context}
use action_cloud.Client.Http.{answered, Caller, http_context}
use action_cloud.Client.Http.Agreement.{AgreesOn, http_context-in_process_context}
use action_cloud.Examples.Rounding.{half_up}
use action_cloud.Examples.Data.{decimals, plain, by_id, ratio}
use action_cloud.Examples.Context.{policy, no_vector, after, prepared_ok}
use action_cloud.Examples.Agents.{sync, same_text, system}

abbrev me : Caller
me = record { agent_id = "inprocess"; agent_role = coding; api_key = none }

abbrev open_settings : Settings
open_settings = record { auth_required = false; admin_key = none }

abbrev no_bearer : String → Option String
no_bearer s = none

abbrev ctx : ContextReply
ctx = reply_of decimals by_id ratio no_vector half_up plain sync same_text "inprocess" after.1

abbrev afterwards : System
afterwards = record system { store = after.0 }

in_process_ok :
    in_process_context decimals by_id ratio no_vector half_up plain sync same_text "inprocess"
      system "certs" "alice" coding [] policy none 4
    ≡ some (afterwards, ctx)
unfolding in_process_context
in_process_ok = rw prepared_ok refl

agrees : AgreesOn decimals policy policy
agrees = record {
  trust_weight = refl;
  min_confidence = refl;
  ann_candidates = refl;
  min_tier = refl;
}

http_context-in_process_context_example :
    http_context same_text no_bearer open_settings [] me decimals by_id no_vector ratio answered
      system policy "certs"
      (some "alice")
      (some coding)
      []
      (some policy)
      none
      4
    ≡ (afterwards, ctx)
http_context-in_process_context_example =
    http_context-in_process_context same_text no_bearer open_settings [] me decimals by_id no_vector
      ratio half_up plain sync same_text system afterwards policy policy "certs" "alice" coding []
      none 4 ctx refl refl agrees in_process_ok
