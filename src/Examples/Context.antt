-- ===== src/Examples/Context.antt =====
-- A search and a context over a small store.
use action_cloud.Prelude.{false, String, ◌≡◌, refl, All, none, some, List, [], ◌∷◌, map}
use action_cloud.Prelude.Int.{pos}
use action_cloud.Schema.{private, coding, new_experience}
use action_cloud.Schema.Visibility.{visibility_sql}
use action_cloud.Table.{find}
use action_cloud.Pipeline.{process_experience}
use action_cloud.Render.{count_tokens, format_single_memory}
use action_cloud.Store.Search.{common_filters, SearchParams, hybrid_search_experiences}
use action_cloud.Store.Search.Answers.{IsAnswer, hybrid_search_experiences-IsAnswer}
use action_cloud.Store.{insert_enriched_experience, author_evidence, Vector, Store}
use action_cloud.Service.{memory_of, Result, ok, err, Prepared, prepare_context, policy_params}
use action_cloud.Service.Prompt.{Allowed, Logged, prepare_context_governed}
use action_cloud.Builder.{MemorySelectionPolicy, Scored, start, assemble, shortlist, build_context}
use action_cloud.Builder.Selection.{IsShortlist, shortlist-IsShortlist}
use action_cloud.Builder.Budget.{IsBounded, assembled-IsBounded, IsContext, build_context-IsContext}
use action_cloud.Prelude.{Option}
use action_cloud.Builder.{Assembly, Context}
use action_cloud.Auth.{Principal}
use action_cloud.Store.Search.{Candidate}
use action_cloud.Api.{Http, response, http_error, get_experience_route}
use action_cloud.Api.Retrieval.{search_route}
use action_cloud.Api.Agreement.{search_route-get_experience_route}
use action_cloud.Examples.Governance.{stored-IsConsistent}
use action_cloud.Examples.Data.{decimals, by_id, ratio, stored}

abbrev params : SearchParams
params = record {
  limit = 5;
  min_tier = private;
  requester_id = some "alice";
  requester_role = some coding;
  scope_run_id = none;
}

hybrid_search_experiences-IsAnswer_example :
    IsAnswer decimals stored params
      (hybrid_search_experiences decimals by_id stored "certs" (pos 1 ∷ []) params 20)
hybrid_search_experiences-IsAnswer_example =
    hybrid_search_experiences-IsAnswer decimals by_id stored "certs" params (pos 1 ∷ []) 20

abbrev pub policy : MemorySelectionPolicy decimals
policy = record {
  candidate_k = 10;
  max_context_memories = 2;
  similarity_threshold = 0;
  redundancy_threshold = 7000;
  context_token_budget = 400;
  trust_weight = 1;
  min_confidence = 4500;
  ann_candidates = 20;
  min_tier = private;
}

abbrev candidates : List (Scored decimals)
candidates =
    map (memory_of decimals by_id ratio (λ s. []))
      (hybrid_search_experiences decimals by_id stored "certs" (pos 1 ∷ []) params 20)

abbrev pub no_vector : String → Vector
no_vector t = []

shortlist-IsShortlist_example :
    IsShortlist decimals ratio policy candidates (shortlist decimals ratio policy candidates)
shortlist-IsShortlist_example = shortlist-IsShortlist decimals ratio policy candidates

abbrev alice : Principal
alice = record { agent_id = "alice"; role = coding; is_admin = false }

abbrev searched : Http (List (Candidate decimals))
searched =
    search_route decimals by_id no_vector stored (some alice) "certs" 5 private none none [] none

abbrev found_of : Http (List (Candidate decimals)) → List (Candidate decimals)
found_of (response cs) = cs
found_of (http_error n) = []

it_is_found : searched ≡ response (found_of searched)
unfolding search_route
it_is_found = refl

search_route-get_experience_route_example :
    All
      (λ (c : Candidate decimals).
        get_experience_route stored (some alice) c.row.id ≡ response c.row)
      (found_of searched)
search_route-get_experience_route_example =
    search_route-get_experience_route decimals by_id no_vector stored (some alice) "certs" 5 private
      none none [] none (found_of searched) stored-IsConsistent it_is_found

abbrev assembling : Option (Assembly decimals ratio)
assembling =
    assemble decimals ratio policy (start decimals ratio)
      (shortlist decimals ratio policy candidates)

abbrev assembled : Assembly decimals ratio
assembled = elim assembling [ none ↦ start decimals ratio | some a ↦ a ]

it_assembles : assembling ≡ some assembled
unfolding assemble shortlist hybrid_search_experiences process_experience insert_enriched_experience
    find common_filters new_experience visibility_sql memory_of author_evidence start count_tokens
it_assembles = refl

assembled-IsBounded_example : IsBounded decimals ratio policy assembled
assembled-IsBounded_example =
    assembled-IsBounded decimals ratio policy candidates assembled it_assembles

abbrev building : Option (Context decimals ratio)
building = build_context decimals ratio candidates policy

abbrev built : Context decimals ratio
built = elim building [
  | none ↦ record { text = ""; injected_ids = []; candidate_count = 0; final_count = 0 }
  | some x ↦ x
]

it_is_built : building ≡ some built
unfolding build_context hybrid_search_experiences process_experience insert_enriched_experience find
    common_filters new_experience visibility_sql memory_of author_evidence count_tokens
it_is_built = refl

build_context-IsContext_example : IsContext decimals ratio policy candidates built
build_context-IsContext_example =
    build_context-IsContext decimals ratio policy candidates built it_is_built

abbrev prepared_for_alice : Result (Store × Prepared decimals by_id ratio no_vector)
prepared_for_alice =
    prepare_context decimals by_id ratio no_vector stored "certs" (some "alice") (some coding)
      policy [] none 4

abbrev or_result {ℓ} : {A : Type ℓ} → Result A → A → A
or_result (ok a) b = a
or_result (err e) b = b

abbrev nothing : Store × Prepared decimals by_id ratio no_vector
nothing = (
  stored,
  record {
    context = record { text = ""; injected_ids = []; candidate_count = 0; final_count = 0 };
    injected_task_keys = [];
    context_tokens = 0;
  },
)

abbrev pub after : Store × Prepared decimals by_id ratio no_vector
after = or_result prepared_for_alice nothing

pub prepared_ok : prepared_for_alice ≡ ok (after.0, after.1)
unfolding prepare_context process_experience insert_enriched_experience find common_filters
    new_experience visibility_sql author_evidence count_tokens format_single_memory
prepared_ok = refl

prepare_context_governed_example :
    All
      (Allowed decimals by_id ratio no_vector stored
        (policy_params decimals by_id ratio no_vector policy (some "alice") (some coding) none))
      after.1.context.injected_ids
    × Logged stored (some "alice") 4 after.1.context.injected_ids after.0
prepare_context_governed_example =
    prepare_context_governed decimals by_id ratio no_vector stored "certs" (some "alice")
      (some coding) policy [] none 4 after.0 after.1 prepared_ok
