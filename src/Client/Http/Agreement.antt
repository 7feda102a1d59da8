-- ===== src/Client/Http/Agreement.antt =====
-- The two clients give the same context.
use action_cloud.Prelude.{
  ℕ, ◌≡◌, String, string_eq, false, Option, none, some, List, arith, Option-cases, inl, inr,
}
use action_cloud.Floats.{Floats}
use action_cloud.Schema.{AgentRole}
use action_cloud.Judge.{Rounding}
use action_cloud.Store.{Vector}
use action_cloud.Store.Search.{Engine}
use action_cloud.Auth.{Agent}
use action_cloud.Pipeline.{Enrichers}
use action_cloud.Builder.{MemorySelectionPolicy}
use action_cloud.Service.{System, Options, prepare_context}
use action_cloud.Api.{Settings, authenticate, resolve_identity}
use action_cloud.Api.Retrieval.{overridden, prepare_context_route}
use action_cloud.Agents.Governed.{raised-some}
use action_cloud.Client.{ContextReply, or_own, raised, reply_of, in_process_context}
use action_cloud.Client.Http.{answered, send, Caller, overrides_of, http_context}

-- The fields of a policy that a request does not carry.
pub record AgreesOn (F : Floats) (a b : MemorySelectionPolicy F) : Type 0 where
  pub trust_weight : a.trust_weight ≡ b.trust_weight
  pub min_confidence : a.min_confidence ≡ b.min_confidence
  pub ann_candidates : a.ann_candidates ≡ b.ann_candidates
  pub min_tier : a.min_tier ≡ b.min_tier

module _ (hash : String → String) (bearer : String → Option String) (settings : Settings)
    (agents : List Agent) (me : Caller) (F : Floats) (engine : Engine F) (embed : String → Vector)
    (ratio : String → String → F.Float) where
  overridden-AgreesOn :
      (from_env policy : MemorySelectionPolicy F)
      → AgreesOn F from_env policy
      → overridden F engine embed ratio from_env
          (overrides_of hash bearer settings agents me F engine embed ratio (some policy))
        ≡ policy
  unfolding overridden
  overridden-AgreesOn from_env policy h =
      ground (arith, h.trust_weight, h.min_confidence, h.ann_candidates, h.min_tier)

  -- The clients agree: without authentication, and with a server whose policy has the caller's trust
  -- weight, confidence floor, index size and tier floor, a context that the in-process client gives is
  -- the one that the client over HTTP gets when its request is answered, and the memory is left the same.
  pub http_context-in_process_context :
      (r : Rounding) (enrichers : Enrichers) (options : Options) (fold : String → String)
      (sys t : System) (from_env policy : MemorySelectionPolicy F) (query agent_id : String)
      (agent_role : AgentRole) (technologies : List String) (scope_run_id : Option String) (now : ℕ)
      (ctx : ContextReply)
      → settings.auth_required ≡ false
      → me.api_key ≡ none
      → AgreesOn F from_env policy
      → in_process_context F engine ratio embed r enrichers options fold me.agent_id sys query
          agent_id agent_role technologies policy scope_run_id now
        ≡ some (t, ctx)
      → http_context hash bearer settings agents me F engine embed ratio answered sys from_env query
          (some agent_id)
          (some agent_role)
          technologies
          (some policy)
          scope_run_id
          now
        ≡ (t, ctx)
  unfolding http_context in_process_context prepare_context_route send authenticate resolve_identity
  http_context-in_process_context r enrichers options fold sys t from_env policy query agent_id
        agent_role technologies scope_run_id now ctx open_ no_key agrees h =
      let same = overridden-AgreesOn from_env policy agrees in
      let caller = or_own (some agent_id) me.agent_id in
      let answer =
        prepare_context F engine ratio embed sys.store query (some caller) (some agent_role) policy
          technologies scope_run_id now in
      elim (Option-cases (raised answer)) [
        | inl e ↦ absurd (ground (arith, e))
        | inr ((s, p), e) ↦
            let made = raised-some answer e in
            let reply : reply_of F engine ratio embed r enrichers options fold me.agent_id p ≡ ctx =
              ground (arith, e, h) in
            let after : record sys { store = s } ≡ t = ground (arith, e, h) in
            ground (arith, open_, no_key, same, made, reply, after)
      ]
