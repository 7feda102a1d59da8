-- ===== src/Governance/Program/Whole.antt =====
-- The guarantees of governance for the program as a whole.
use action_cloud.Prelude.{
  ℕ, ◌≤◌, ◌≡◌, ◌≢◌, refl, String, string_eq, Bool, true, Option, none, some, List, [], ◌∷◌, All,
  count, if_either,
}
use mathlib.Core.List.{Memᴰ}
use action_cloud.Floats.{Floats}
use action_cloud.Schema.{rank}
use action_cloud.Judge.{Rounding}
use action_cloud.Store.{Vector, Row, Store, ReuseEvent, empty}
use action_cloud.Store.Ledger.{is_reported}
use action_cloud.Store.Consistency.{at_id}
use action_cloud.Store.Search.{Engine}
use action_cloud.Pipeline.{Enrichers}
use action_cloud.Builder.{MemorySelectionPolicy}
use action_cloud.Service.{Body, System, Options}
use action_cloud.Api.{Http, response, http_error, store_experience_route, report_experience_reuse}
use action_cloud.Api.Retrieval.{prepare_context_route}
use action_cloud.Mcp.{Value, Tool, answered, refused}
use action_cloud.Mcp.Tools.{call_tool}
use action_cloud.Worker.{dispatch}
use action_cloud.Governance.{Reach, here}
use action_cloud.Governance.Fleet.{fleet_visible_vouched}
use action_cloud.Governance.Histories.{Reach-trans}
use action_cloud.Governance.Program.{
  Event, posts, asks, judges, calls, delivers, body_at, after_route, after_write, after_tool,
  after_delivery, handle, handle_all,
}
use action_cloud.Governance.Program.Histories.{
  IsPublished, Answers, Gives, Lawful, route-Lawful, report_route-Reach, context_route-Reach,
  dispatch-Leaves, Leaves, body_at-IsPublished, remove_at-IsPublished,
}
use action_cloud.Governance.Program.Tools.{call_tool-Lawful}

module _ (F : Floats) (engine : Engine F) (ratio : String → String → F.Float)
    (embed : String → Vector) (r : Rounding) (enrichers : Enrichers) (options : Options)
    (fold : String → String) (uuid_of : Value → Option ℕ) (int_of_text : String → Option ℕ)
    (from_env : MemorySelectionPolicy F) (max_receives : ℕ)
    (governed : options.governance ≡ true) where
  abbrev IsLawful : System → System → Type 0
  IsLawful s t = Lawful F engine ratio embed r enrichers options governed s t

  after_route-IsLawful {ℓ} :
      {A : Type ℓ} (s : System) (h : Http (System × A))
      → All IsPublished s.queue
      → Answers (λ ((t, a) : System × A). IsLawful s t) h
      → IsLawful s (after_route s h)
  after_route-IsLawful s (response a) q h = h
  after_route-IsLawful s (http_error n) q h = (here, q)

  after_write-IsLawful {ℓ} :
      {A : Type ℓ} (s : System) (h : Http (Store × A))
      → All IsPublished s.queue
      → Answers (λ ((t, a) : Store × A). Reach r s.store t) h
      → IsLawful s (after_write s h)
  after_write-IsLawful s (response a) q h = (h, q)
  after_write-IsLawful s (http_error n) q h = (here, q)

  after_tool-IsLawful {ℓ} :
      {A : Type ℓ} (s : System) (h : Tool (System × A))
      → All IsPublished s.queue
      → Gives (λ ((t, a) : System × A). IsLawful s t) h
      → IsLawful s (after_tool s h)
  after_tool-IsLawful s (answered a) q h = h
  after_tool-IsLawful s (refused f) q h = (here, q)

  after_delivery-IsLawful :
      (s : System) (place : ℕ) (answer : Option (Store × Bool))
      → All IsPublished s.queue
      → Leaves F engine ratio embed r enrichers options governed options.author_prior max_receives
          s.store answer
      → IsLawful s (after_delivery s place answer)
  after_delivery-IsLawful s place none q h = (here, q)
  after_delivery-IsLawful s place (some (t, deleted)) q h = (
    h,
    if_either (All IsPublished) deleted
        (remove_at-IsPublished F engine ratio embed r enrichers options governed place s.queue q) q,
  )

  abbrev step : System → Event F → System
  step =
      handle F engine ratio embed r enrichers options fold uuid_of int_of_text from_env max_receives

  handle-IsLawful : (s : System) (e : Event F) → All IsPublished s.queue → IsLawful s (step s e)
  unfolding handle
  handle-IsLawful s (posts principal payload claimed_id claimed_role id accepted now) q =
      after_route-IsLawful s
        (store_experience_route r enrichers options s principal payload claimed_id claimed_role id
          accepted now)
        q
        (route-Lawful F engine ratio embed r enrichers options governed s principal payload
          claimed_id claimed_role id accepted now q)
  handle-IsLawful s (asks principal req query claimed_id claimed_role technologies scope_run_id now)
        q =
      after_write-IsLawful s
        (prepare_context_route F engine embed ratio s.store principal from_env req query claimed_id
          claimed_role technologies scope_run_id now)
        q
        (context_route-Reach F engine ratio embed r enrichers options governed s.store principal
          from_env req query claimed_id claimed_role technologies scope_run_id now)
  handle-IsLawful s (judges principal id success claimed_id now) q =
      after_write-IsLawful s (report_experience_reuse r s.store principal id success claimed_id now)
        q
        (report_route-Reach F engine ratio embed r enrichers options governed s.store principal id
          success claimed_id now)
  handle-IsLawful s (calls principal name args id accepted now) q =
      after_tool-IsLawful s
        (call_tool r enrichers options fold uuid_of int_of_text F engine embed ratio principal
          from_env s name args id accepted now)
        q
        (call_tool-Lawful F engine ratio embed r enrichers options governed fold uuid_of int_of_text
          from_env s q principal name args id accepted now)
  handle-IsLawful s (delivers place receives fault now) q = delivered (body_at place s.queue) refl
    where
      delivered :
          (found : Option Body)
          → body_at place s.queue ≡ found
          → IsLawful s (elim found [
            | none ↦ s
            | some body ↦ after_delivery s place (
                dispatch r enrichers options.author_prior max_receives s.store body receives fault
                  now)
          ])
      delivered none e = (here, q)
      delivered (some body) e =
          after_delivery-IsLawful s place
            (dispatch r enrichers options.author_prior max_receives s.store body receives fault now)
            q
            (dispatch-Leaves F engine ratio embed r enrichers options governed options.author_prior
              max_receives s.store body receives fault now
              (body_at-IsPublished F engine ratio embed r enrichers options governed place s.queue
                body q e))

  abbrev run : System → List (Event F) → System
  run =
      handle_all F engine ratio embed r enrichers options fold uuid_of int_of_text from_env
        max_receives

  -- There is no way around the judge: with governance on, whatever requests, tool calls and deliveries
  -- reach the program, in any order, with any faults and by any callers, its store goes through a history
  -- of stored experiences, recorded injections and judged reports.
  pub handle_all-Lawful :
      (s : System) (es : List (Event F))
      → All IsPublished s.queue
      → Lawful F engine ratio embed r enrichers options governed s (run s es)
  unfolding handle_all
  handle_all-Lawful s [] q = (here, q)
  handle_all-Lawful s (e ∷ es) q =
      let (one, q') = handle-IsLawful s e q in
      let (rest, q'') = handle_all-Lawful (step s e) es q' in (Reach-trans one rest, q'')

  -- The promise to the fleet: a program that starts with no memory and no message shows the fleet only
  -- what was vouched for. Whatever reaches it, a memory at SHARED or above has a counted success that
  -- another agent than its author reported, against an injection of the memory to that agent.
  pub program_vouched :
      (es : List (Event F)) (id : ℕ) (row : Row)
      → let t = (run (record { store = empty; queue = [] }) es).store in
        at_id t id ≡ some row
        → 2 ≤ rank row.tier
        → (e : ReuseEvent) × Memᴰ e t.reuse_events
          × (e.experience_id ≡ id)
          × (e.counted ≡ true)
          × (e.success ≡ true)
          × (e.reporter_agent_id ≢ row.agent_id)
          × (1 ≤ count (is_reported id e.reporter_agent_id) t.injections)
  program_vouched es id row hit visible =
      fleet_visible_vouched r _ id row
        (handle_all-Lawful (record { store = empty; queue = [] }) es tt).0 hit visible
