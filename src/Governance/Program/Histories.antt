-- ===== src/Governance/Program/Histories.antt =====
-- Whatever reaches the program, its store goes through a history of judged reports.
use action_cloud.Prelude.{
  ℕ, zero, suc, ◌≡◌, refl, subst, String, string_eq, Bool, true, false, Option, none, some, List,
  [], ◌∷◌, ◌==◌, All, All-append, arith, Bool-cases, inl, inr, if_either,
}
use action_cloud.Floats.{Floats}
use action_cloud.Schema.{AgentRole, ExperienceCreate, new_experience}
use action_cloud.Judge.{Rounding}
use action_cloud.Store.{Vector, Store}
use action_cloud.Store.Search.{Engine}
use action_cloud.Auth.{Principal}
use action_cloud.Pipeline.{Enrichers}
use action_cloud.Builder.{MemorySelectionPolicy}
use action_cloud.Service.{
  Result, ok, err, Body, event, not_an_object, other_type, unhashable_type, unparseable, experience,
  invalid, System, Options, Stored, ReuseReply, Prepared, store_experience, record_reuse,
  prepare_context,
}
use action_cloud.Api.{
  Http, response, http_error, reuse_response, or_status, resolve_identity, store_payload,
  report_experience_reuse, store_experience_route, ◌>>=◌,
}
use action_cloud.Api.Retrieval.{Overrides, overridden, prepare_context_route}
use action_cloud.Mcp.{Tool, answered, refused}
use action_cloud.Mcp.Tools.{or_failure}
use action_cloud.Worker.{dispatch, settle, handle_experience_created}
use action_cloud.Governance.{stores, reports, Reach, here, next}
use action_cloud.Governance.Histories.{prepare-Reach}
use action_cloud.Governance.Program.{body_at, remove_at}

-- A message that the service publishes.
abbrev pub IsPublished : Body → Type 0
IsPublished (event event_type (experience exp)) =
    (payload : ExperienceCreate) × (id : ℕ) × (exp ≡ new_experience payload id)
IsPublished _ = Unit

-- What holds of the answer, if there is one.
abbrev pub Answers {ℓ} : {A : Type ℓ} → (A → Type 0) → Http A → Type 0
Answers P (response a) = P a
Answers P (http_error n) = Unit

abbrev pub Yields {ℓ} : {A : Type ℓ} → (A → Type 0) → Result A → Type 0
Yields P (ok a) = P a
Yields P (err e) = Unit

abbrev pub Gives {ℓ} : {A : Type ℓ} → (A → Type 0) → Tool A → Type 0
Gives P (answered a) = P a
Gives P (refused f) = Unit

Answers-bind {ℓ κ} :
    {A : Type ℓ} {B : Type κ} (P : B → Type 0) (m : Http A) (f : A → Http B)
    → ((a : A) → Answers P (f a))
    → Answers P (m >>= f)
Answers-bind P (response a) f h = h a
Answers-bind P (http_error n) f h = tt

Yields-status {ℓ} :
    {A : Type ℓ} (P : A → Type 0) (n : ℕ) (m : Result A) → Yields P m → Answers P (or_status n m)
Yields-status P n (ok a) h = h
Yields-status P n (err e) h = tt

Yields-reuse {ℓ} :
    {A : Type ℓ} (P : A → Type 0) (m : Result A) → Yields P m → Answers P (reuse_response m)
Yields-reuse P (ok a) h = h
Yields-reuse P (err e) h = tt

pub Yields-failure {ℓ} :
    {A : Type ℓ} (P : A → Type 0) (m : Result A) → Yields P m → Gives P (or_failure m)
Yields-failure P (ok a) h = h
Yields-failure P (err e) h = tt

Yields-of {ℓ} :
    {A : Type ℓ} (P : A → Type 0) (m : Result A) → ((a : A) → m ≡ ok a → P a) → Yields P m
Yields-of P (ok a) h = h a refl
Yields-of P (err e) h = tt

module _ (F : Floats) (engine : Engine F) (ratio : String → String → F.Float)
    (embed : String → Vector) (r : Rounding) (enrichers : Enrichers) (options : Options)
    (governed : options.governance ≡ true) where
  -- From `s` to `t` by a history, with nothing but the service's messages in the queue.
  abbrev pub Lawful : System → System → Type 0
  Lawful s t = Reach r s.store t.store × All IsPublished t.queue

  pub record_reuse-Reach :
      (s : Store) (id : ℕ) (success : Bool) (agent : Option String) (now : ℕ)
      → Yields
          (λ ((t, reply) : Store × ReuseReply). Reach r s t)
          (record_reuse r s id success agent now)
  record_reuse-Reach s id success agent now =
      Yields-of (λ ((t, reply) : Store × ReuseReply). Reach r s t)
        (record_reuse r s id success agent now)
        (λ (t, reply) e. next here (reports id success agent now e))

  pub prepare_context-Reach :
      (s : Store) (query : String) (agent_id : Option String) (role : Option AgentRole)
      (policy : MemorySelectionPolicy F) (technologies : List String) (scope_run_id : Option String)
      (now : ℕ)
      → Yields
          (λ ((t, p) : Store × Prepared F engine ratio embed). Reach r s t)
          (prepare_context F engine ratio embed s query agent_id role policy technologies
            scope_run_id now)
  prepare_context-Reach s query agent_id role policy technologies scope_run_id now =
      Yields-of (λ ((t, p) : Store × Prepared F engine ratio embed). Reach r s t) _
        (λ (t, p) e.
          prepare-Reach F engine ratio embed r s t query agent_id role policy technologies
            scope_run_id now p e)

  pub store_experience-Lawful :
      (sys : System) (payload : ExperienceCreate) (id : ℕ) (accepted : Bool) (now : ℕ)
      → All IsPublished sys.queue
      → Yields
          (λ ((t, stored) : System × Stored). Lawful sys t)
          (store_experience r enrichers options sys payload id accepted now)
  unfolding store_experience
  store_experience-Lawful sys payload id accepted now h = elim (Bool-cases options.sync_write) [
    | inl sync ↦ rw sync (elim (Bool-cases (enrichers.answers (new_experience payload id))) [
      | inl yes_ ↦
          rw yes_
            (rw governed (next here (stores enrichers payload id options.author_prior now), h))
      | inr no_ ↦ rw no_ tt
    ])
    | inr async ↦ rw async (elim (Bool-cases accepted) [
      | inl yes_ ↦ rw yes_ (here, All-append IsPublished sys.queue _ h ((payload, id, refl), tt))
      | inr no_ ↦ rw no_ tt
    ])
  ]

  pub route-Lawful :
      (sys : System) (principal : Option Principal) (payload : ExperienceCreate)
      (claimed_id : Option String) (claimed_role : Option AgentRole) (id : ℕ) (accepted : Bool)
      (now : ℕ)
      → All IsPublished sys.queue
      → Answers
          (λ ((t, stored) : System × Stored). Lawful sys t)
          (store_experience_route r enrichers options sys principal payload claimed_id claimed_role
            id accepted now)
  unfolding store_experience_route
  route-Lawful sys principal payload claimed_id claimed_role id accepted now h =
      let P : System × Stored → Type 0 = λ ((t, stored) : System × Stored). Lawful sys t in
      Answers-bind P (resolve_identity principal claimed_id claimed_role) _ λ identity.
        Answers-bind P (store_payload payload identity) _
          λ data_. Yields-status P 503 _ (store_experience-Lawful sys data_ id accepted now h)

  pub report_route-Reach :
      (s : Store) (principal : Option Principal) (id : ℕ) (success : Bool)
      (claimed_id : Option String) (now : ℕ)
      → Answers
          (λ ((t, reply) : Store × ReuseReply). Reach r s t)
          (report_experience_reuse r s principal id success claimed_id now)
  unfolding report_experience_reuse
  report_route-Reach s principal id success claimed_id now =
      let P : Store × ReuseReply → Type 0 = λ ((t, reply) : Store × ReuseReply). Reach r s t in
      Answers-bind P (resolve_identity principal claimed_id none) _
        λ (reporter, _). Yields-reuse P _ (record_reuse-Reach s id success reporter now)

  pub context_route-Reach :
      (s : Store) (principal : Option Principal) (from_env : MemorySelectionPolicy F)
      (req : Overrides F) (query : String) (claimed_id : Option String)
      (claimed_role : Option AgentRole) (technologies : List String) (scope_run_id : Option String)
      (now : ℕ)
      → Answers
          (λ ((t, p) : Store × Prepared F engine ratio embed). Reach r s t)
          (prepare_context_route F engine embed ratio s principal from_env req query claimed_id
            claimed_role technologies scope_run_id now)
  unfolding prepare_context_route
  context_route-Reach s principal from_env req query claimed_id claimed_role technologies
        scope_run_id now =
      let P : Store × Prepared F engine ratio embed → Type 0 =
        λ ((t, p) : Store × Prepared F engine ratio embed). Reach r s t in
      Answers-bind P (resolve_identity principal claimed_id claimed_role) _ λ (agent_id, role).
        Yields-status P 500 _ (
          prepare_context-Reach s query agent_id role (overridden F engine embed ratio from_env req)
            technologies scope_run_id now)

  module _ (author_prior : Bool) (max_receives : ℕ) where
    -- What holds of the store after a delivery, if process_one returns.
    abbrev pub Leaves : Store → Option (Store × Bool) → Type 0
    Leaves s none = Unit
    Leaves s (some (t, deleted)) = Reach r s t

    pub dispatch-Leaves :
        (s : Store) (body : Body) (receives : ℕ) (fault : Bool) (now : ℕ)
        → IsPublished body
        → Leaves s (dispatch r enrichers author_prior max_receives s body receives fault now)
    unfolding dispatch settle handle_experience_created
    dispatch-Leaves s unparseable receives fault now h = here
    dispatch-Leaves s other_type receives fault now h = here
    dispatch-Leaves s unhashable_type receives fault now h = tt
    dispatch-Leaves s (event event_type invalid) receives fault now h =
        if_either (λ (x : Store × Bool). Reach r s x.0) (event_type == "experience.created") here
          here
    dispatch-Leaves s (event event_type not_an_object) receives fault now h =
        if_either (λ (x : Store × Bool). Reach r s x.0) (event_type == "experience.created") here
          here
    dispatch-Leaves s (event event_type (experience exp)) receives true now h =
        if_either (λ (x : Store × Bool). Reach r s x.0) (event_type == "experience.created") here
          here
    dispatch-Leaves s (event event_type (experience exp)) receives false now (payload, id, same) =
        if_either (λ (x : Store × Bool). Reach r s x.0) (event_type == "experience.created")
          (rw same (next here (stores enrichers payload id author_prior now))) here

  pub body_at-IsPublished :
      (n : ℕ) (bs : List Body) (b : Body)
      → All IsPublished bs
      → body_at n bs ≡ some b
      → IsPublished b
  body_at-IsPublished n [] b h e = absurd (ground (arith, e))
  body_at-IsPublished zero (x ∷ bs) b (k, h) e =
      let same : x ≡ b = ground (arith, e) in subst IsPublished same k
  body_at-IsPublished (suc n) (x ∷ bs) b (k, h) e = body_at-IsPublished n bs b h e

  pub remove_at-IsPublished :
      (n : ℕ) (bs : List Body) → All IsPublished bs → All IsPublished (remove_at n bs)
  remove_at-IsPublished n [] h = tt
  remove_at-IsPublished zero (b ∷ bs) (k, h) = h
  remove_at-IsPublished (suc n) (b ∷ bs) (k, h) = (k, remove_at-IsPublished n bs h)
