-- ===== src/Examples/Program.antt =====
-- Alice stores a memory over REST, Bob is given it and reports that it worked.
use action_cloud.Prelude.{
  ℕ, ◌≤◌, ◌≡◌, ◌≢◌, refl, String, string_eq, true, none, some, List, [], ◌∷◌, Option, count, arith,
}
use mathlib.Core.List.{Memᴰ}
use action_cloud.Table.{find, replace}
use action_cloud.Schema.{coding, rank, new_experience}
use action_cloud.Schema.Visibility.{visibility_sql}
use action_cloud.Judge.{decide}
use action_cloud.Render.{count_tokens, format_single_memory}
use action_cloud.Store.Search.{common_filters}
use action_cloud.Store.{Row, ReuseEvent, empty, insert_enriched_experience, author_evidence}
use action_cloud.Store.Ledger.{is_reported}
use action_cloud.Store.Consistency.{at_id}
use action_cloud.Service.{System, record_reuse, prepare_context, store_experience}
use action_cloud.Mcp.{Value}
use action_cloud.Api.Retrieval.{Overrides, overridden}
use action_cloud.Governance.Program.{Event, posts, asks, judges, calls, delivers, handle_all}
use action_cloud.Governance.Program.Histories.{Lawful}
use action_cloud.Governance.Program.Whole.{handle_all-Lawful, program_vouched}
use action_cloud.Examples.Rounding.{half_up}
use action_cloud.Examples.Data.{decimals, plain, by_id, ratio, payload, row_or}
use action_cloud.Examples.Context.{policy, no_vector}
use action_cloud.Examples.Agents.{sync, same_text}

abbrev no_overrides : Overrides decimals
no_overrides = record {
  candidate_k = none;
  max_context_memories = none;
  similarity_threshold = none;
  context_token_budget = none;
  redundancy_threshold = none;
}

abbrev no_uuid : Value → Option ℕ
no_uuid v = none

abbrev no_int : String → Option ℕ
no_int s = none

abbrev events : List (Event decimals)
events =
    posts none payload (some "alice") (some coding) 7 true 0
    ∷ asks none no_overrides "certs" (some "bob") (some coding) [] none 1
    ∷ judges none 7 true (some "bob") 2
    ∷ delivers 0 1 true 3
    ∷ calls none "get_memory_metrics" [] 8 true 4
    ∷ []

abbrev nothing : System
nothing = record { store = empty; queue = [] }

abbrev final : System
final =
    handle_all decimals by_id ratio no_vector half_up plain sync same_text no_uuid no_int policy 5
      nothing events

handle_all-Lawful_example :
    Lawful decimals by_id ratio no_vector half_up plain sync refl nothing final
handle_all-Lawful_example =
    handle_all-Lawful decimals by_id ratio no_vector half_up plain sync same_text no_uuid no_int
      policy 5 refl nothing events tt

abbrev shared_row : Row
shared_row = row_or (at_id final.store 7)

there : at_id final.store 7 ≡ some shared_row
unfolding handle_all find record_reuse prepare_context overridden store_experience
    insert_enriched_experience common_filters new_experience visibility_sql author_evidence
    count_tokens format_single_memory replace decide
there = refl

tier_rank : rank shared_row.tier ≡ 2
unfolding handle_all find record_reuse prepare_context overridden store_experience
    insert_enriched_experience common_filters new_experience visibility_sql author_evidence
    count_tokens format_single_memory replace decide
tier_rank = refl

visible : 2 ≤ rank shared_row.tier
visible = omega (arith, tier_rank)

program_vouched_example :
    (e : ReuseEvent) × Memᴰ e final.store.reuse_events
    × (e.experience_id ≡ 7)
    × (e.counted ≡ true)
    × (e.success ≡ true)
    × (e.reporter_agent_id ≢ shared_row.agent_id)
    × (1 ≤ count (is_reported 7 e.reporter_agent_id) final.store.injections)
program_vouched_example =
    program_vouched decimals by_id ratio no_vector half_up plain sync same_text no_uuid no_int
      policy 5 refl events 7 shared_row there visible
