-- ===== src/Worker/Delivery.antt =====
-- src/actioncloud/worker.py: what the deliveries of one message come to.
use action_cloud.Prelude.{
  ℕ, ◌<◌, ◌≡◌, ◌==◌, ◌⊎◌, inl, inr, refl, ap, ◌∙◌, subst, string_eq, nat_eq, String, Bool, true,
  false, Option, none, some, arith, leb, Bool-cases,
}
use action_cloud.Table.{find}
use action_cloud.Schema.{Experience}
use action_cloud.Judge.{Rounding}
use action_cloud.Store.{Row, Store, get_experience, insert_enriched_experience}
use action_cloud.Pipeline.{Enrichers, governed, process_experience}
use action_cloud.Service.{
  experience, invalid, not_an_object, event, other_type, unhashable_type, unparseable, Body,
  Message,
}
use action_cloud.Store.Consistency.Insert.{stored_row}
use action_cloud.Governance.{Reach}
use action_cloud.Governance.Persistence.{IsKnown, Reach-Keeps}
use action_cloud.Worker.{dispatch, process_one, settle, handle_experience_created}

-- Whether `run` deletes the message.
abbrev pub is_deleted : Option (Store × Bool) → Bool
is_deleted none = false
is_deleted (some (t, deleted)) = deleted

module _ (r : Rounding) (enrichers : Enrichers) (author_prior : Bool) where
  pub stored_process :
      (s : Store) (exp : Experience) (now : ℕ)
      → (row : Row) × (get_experience
            (process_experience r enrichers s exp true author_prior now).0
            exp.id
          ≡ some row)
  unfolding process_experience governed get_experience
  stored_process s exp now = stored_row s (governed r s exp true author_prior) _ _ _ _ _ now

  process_experience_again :
      (t : Store) (exp : Experience) (row : Row) (now : ℕ)
      → get_experience t exp.id ≡ some row
      → process_experience r enrichers t exp true author_prior now ≡ (t, false)
  unfolding process_experience insert_enriched_experience governed
  process_experience_again t exp row now hit = ground (arith, hit)

  module _ (max_receives : ℕ) where
    dispatch_stored :
        (s t : Store) (event_type : String) (exp : Experience) (n : ℕ) (now : ℕ) (deleted : Bool)
        → dispatch r enrichers author_prior max_receives s
            (event event_type (experience exp))
            n
            false
            now
          ≡ some (t, deleted)
        → (event_type == "experience.created") ≡ true
        → IsKnown t exp.id
    unfolding dispatch settle handle_experience_created get_experience find
    dispatch_stored s t event_type exp n now deleted h created =
        let after : (process_experience r enrichers s exp true author_prior now).0 ≡ t =
          ground (arith, h, created) in
        subst (λ u. IsKnown u exp.id) after (stored_process s exp now)

    dispatch_again :
        (s t u : Store) (body : Body) (n m : ℕ) (fault : Bool) (now later : ℕ) (deleted : Bool)
        → dispatch r enrichers author_prior max_receives s body n false now ≡ some (t, deleted)
        → Reach r t u
        → (deleted' : Bool) × (dispatch r enrichers author_prior max_receives u body m fault later
            ≡ some (u, deleted'))
    unfolding dispatch settle handle_experience_created get_experience find
    dispatch_again s t u unparseable n m fault now later deleted h path = (true, refl)
    dispatch_again s t u other_type n m fault now later deleted h path = (true, refl)
    dispatch_again s t u unhashable_type n m fault now later deleted h path = absurd (ground arith)
    dispatch_again s t u (event event_type invalid) n m fault now later deleted h path =
        (true, ground arith)
    dispatch_again s t u (event event_type not_an_object) n m fault now later deleted h path =
        elim (Bool-cases (event_type == "experience.created")) [
          | inl created ↦ (leb max_receives m, ground (arith, created))
          | inr other ↦ (true, ground (arith, other))
        ]
    dispatch_again s t u (event event_type (experience exp)) n m fault now later deleted h path =
        elim (Bool-cases (event_type == "experience.created")) [
          | inr other ↦ (true, ground (arith, other))
          | inl created ↦
              let (row, hit) =
                Reach-Keeps r t u path exp.id
                  (dispatch_stored s t event_type exp n now deleted h created) in
              let again = process_experience_again u exp row later hit in
              elim (Bool-cases fault) [
                | inl on ↦ (leb max_receives m, ground (arith, created, on))
                | inr off ↦ (true, ground (arith, created, off, again))
              ]
        ]

    -- Once a message was processed without a fault, every later delivery of its body changes nothing,
    -- with or without a fault: whatever experiences were stored, memories injected and reports judged
    -- in between, it ends normally and leaves the store that it found.
    pub redelivery_harmless :
        (s t u : Store) (msg again : Message) (fault deleted : Bool) (now later : ℕ)
        → process_one r enrichers author_prior max_receives s msg false now ≡ some (t, deleted)
        → Reach r t u
        → again.body ≡ msg.body
        → (deleted' : Bool) × (process_one r enrichers author_prior max_receives u again fault later
            ≡ some (u, deleted'))
    unfolding process_one
    redelivery_harmless s t u msg again fault deleted now later first path same = rw same (
        dispatch_again s t u msg.body msg.receives again.receives fault now later deleted first
          path)

    -- Why a handler gets a message again: it failed on a valid experience, or on JSON that is no object.
    abbrev pub IsRetried : Body → Bool → Type 0
    IsRetried body fault =
        ((fault ≡ true)
          × ((exp : Experience) × (body ≡ event "experience.created" (experience exp))))
        ⊎ (body ≡ event "experience.created" not_an_object)

    pub dispatch-IsRetried :
        (s t : Store) (body : Body) (receives : ℕ) (fault : Bool) (now : ℕ)
        → dispatch r enrichers author_prior max_receives s body receives fault now ≡ some (t, false)
        → (receives < max_receives) × (t ≡ s) × IsRetried body fault
    unfolding dispatch settle handle_experience_created
    dispatch-IsRetried s t unparseable receives fault now kept = absurd (ground arith)
    dispatch-IsRetried s t other_type receives fault now kept = absurd (ground arith)
    dispatch-IsRetried s t unhashable_type receives fault now kept = absurd (ground arith)
    dispatch-IsRetried s t (event event_type invalid) receives fault now kept =
        absurd (ground arith)
    dispatch-IsRetried s t (event event_type not_an_object) receives fault now kept =
        let created : event_type ≡ "experience.created" =
          ground (arith, string_eq.same_iff event_type "experience.created") in
        (ground arith, ground arith, inr (ap (λ k. event k not_an_object) created))
    dispatch-IsRetried s t (event event_type (experience exp)) receives fault now kept =
        let created : event_type ≡ "experience.created" =
          ground (arith, string_eq.same_iff event_type "experience.created") in
        (
          ground arith,
          ground arith,
          inl (ground arith, (exp, ap (λ k. event k (experience exp)) created)),
        )

    pub dispatch_raises :
        (s : Store) (body : Body) (receives : ℕ) (fault : Bool) (now : ℕ)
        → dispatch r enrichers author_prior max_receives s body receives fault now ≡ none
        → body ≡ unhashable_type
    unfolding dispatch
    dispatch_raises s unparseable receives fault now h = absurd (ground arith)
    dispatch_raises s other_type receives fault now h = absurd (ground arith)
    dispatch_raises s unhashable_type receives fault now h = refl
    dispatch_raises s (event event_type payload) receives fault now h = absurd (ground arith)

    -- A message stays on the queue in three cases only, and then the store is as it was: its type is a
    -- list or an object, on which process_one itself raises; or it has deliveries left, and it is a
    -- valid experience whose processing raised; or it has deliveries left, and its payload is no object.
    pub process_one_kept :
        (s : Store) (msg : Message) (fault : Bool) (now : ℕ)
        → is_deleted (process_one r enrichers author_prior max_receives s msg fault now) ≡ false
        → ((msg.body ≡ unhashable_type)
            × (process_one r enrichers author_prior max_receives s msg fault now ≡ none))
          ⊎ ((msg.receives < max_receives)
              × (process_one r enrichers author_prior max_receives s msg fault now
                  ≡ some (s, false))
              × (((fault ≡ true)
                    × ((exp : Experience) × (msg.body
                          ≡ event "experience.created" (experience exp))))
                  ⊎ (msg.body ≡ event "experience.created" not_an_object)))
    unfolding process_one
    process_one_kept s msg fault now kept =
        go (dispatch r enrichers author_prior max_receives s msg.body msg.receives fault now) refl
      where
        go :
            (answer : Option (Store × Bool))
            → dispatch r enrichers author_prior max_receives s msg.body msg.receives fault now
              ≡ answer
            → ((msg.body ≡ unhashable_type)
                × (process_one r enrichers author_prior max_receives s msg fault now ≡ none))
              ⊎ ((msg.receives < max_receives)
                  × (process_one r enrichers author_prior max_receives s msg fault now
                      ≡ some (s, false))
                  × IsRetried msg.body fault)
        go none e = inl (dispatch_raises s msg.body msg.receives fault now e, e)
        go (some (t, true)) e = absurd (ground (arith, e, kept))
        go (some (t, false)) e =
            let (left, same, why) = dispatch-IsRetried s t msg.body msg.receives fault now e in
            inr (left, e ∙ ap (λ u. some (u, false)) same, why)
