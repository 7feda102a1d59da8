-- ===== src/Worker/Liveness.antt =====
-- src/actioncloud/worker.py: what comes of one message under the redeliveries that SQS promises, each
-- with a receive count one higher than the last.
use action_cloud.Prelude.{
  ℕ, suc, ◌+◌, ◌≤◌, ◌<◌, ◌≡◌, refl, ◌⊎◌, inl, inr, string_eq, nat_eq, Bool, true, false, Option,
  none, some, List, [], ◌∷◌, if◌then◌else◌, length, arith, subst,
}
use action_cloud.Schema.{Experience}
use action_cloud.Judge.{Rounding}
use action_cloud.Store.{Row, Store, get_experience}
use action_cloud.Pipeline.{Enrichers, process_experience}
use action_cloud.Service.{experience, event, unhashable_type, Body, Message}
use action_cloud.Worker.{dispatch, settle, handle_experience_created, process_one}
use action_cloud.Worker.Delivery.{dispatch-IsRetried, dispatch_raises, stored_process}

module _ (r : Rounding) (enrichers : Enrichers) (author_prior : Bool) (max_receives : ℕ) where
  -- The deliveries of one body from receive count n on, each with its fault and its time: the store
  -- that they leave, and whether one of them deleted the message. None comes after that one, and one
  -- that raises leaves the message for the next.
  unfoldable pub deliveries : Store → Body → ℕ → List (Bool × ℕ) → Store × Bool
  deliveries s body n [] = (s, false)
  deliveries s body n ((fault, now) ∷ rest) =
      elim (dispatch r enrichers author_prior max_receives s body n fault now) [
        | none ↦ deliveries s body (suc n) rest
        | some (t, deleted) ↦
            let more = deliveries t body (suc n) rest in if deleted then (t, true) else more
      ]

  deliveries_from :
      (s : Store) (body : Body) (n : ℕ) (ds : List (Bool × ℕ))
      → n ≤ max_receives
      → max_receives < n + length ds
      → ((deliveries s body n ds).1 ≡ true) ⊎ (body ≡ unhashable_type)
  unfolding deliveries
  deliveries_from s body n [] le lt = absurd (omega arith)
  deliveries_from s body n ((fault, now) ∷ rest) le lt =
      go (dispatch r enrichers author_prior max_receives s body n fault now) refl
        (λ t left. deliveries_from t body (suc n) rest left (omega arith))
    where
      go :
          (answer : Option (Store × Bool))
          → dispatch r enrichers author_prior max_receives s body n fault now ≡ answer
          → ((t : Store)
              → n < max_receives
              → ((deliveries t body (suc n) rest).1 ≡ true) ⊎ (body ≡ unhashable_type))
          → ((deliveries s body n ((fault, now) ∷ rest)).1 ≡ true) ⊎ (body ≡ unhashable_type)
      go none e later =
          inr (dispatch_raises r enrichers author_prior max_receives s body n fault now e)
      go (some (t, true)) e later = inl (ground (arith, e))
      go (some (t, false)) e later =
          let left : n < max_receives =
            (dispatch-IsRetried r enrichers author_prior max_receives s t body n fault now e).0 in
          elim (later t left) [
            | inl deleted ↦ inl (ground (arith, e, deleted))
            | inr unhashable ↦ inr unhashable
          ]

  unhashable_stays :
      (s : Store) (n : ℕ) (ds : List (Bool × ℕ)) → (deliveries s unhashable_type n ds).1 ≡ false
  unfolding deliveries dispatch
  unhashable_stays s n [] = refl
  unhashable_stays s n (d ∷ ds) = unhashable_stays s (suc n) ds

  -- No message is delivered for ever but one kind: whatever faults its processing meets, one of the
  -- first `max_receives` deliveries of a message deletes it, if that many may be made at all, unless
  -- the type of the message is a list or an object; and such a message none of them deletes.
  pub deliveries_end :
      (s : Store) (body : Body) (ds : List (Bool × ℕ))
      → 1 ≤ max_receives
      → length ds ≡ max_receives
      → ((deliveries s body 1 ds).1 ≡ true)
        ⊎ ((body ≡ unhashable_type) × ((deliveries s body 1 ds).1 ≡ false))
  deliveries_end s body ds some_delivery enough =
      elim (deliveries_from s body 1 ds some_delivery (omega arith)) [
        | inl deleted ↦ inl deleted
        | inr same ↦ inr (same, rw same (unhashable_stays s 1 ds))
      ]

  -- An experience is not lost by a deletion: after a delivery that deletes the message of a valid
  -- experience, the experience is stored, or the delivery's processing raised and it was the last
  -- that the worker allows.
  pub process_one_stored :
      (s t : Store) (msg : Message) (exp : Experience) (fault : Bool) (now : ℕ)
      → msg.body ≡ event "experience.created" (experience exp)
      → process_one r enrichers author_prior max_receives s msg fault now ≡ some (t, true)
      → ((row : Row) × (get_experience t exp.id ≡ some row))
        ⊎ ((fault ≡ true) × (max_receives ≤ msg.receives))
  unfolding process_one dispatch settle handle_experience_created
  process_one_stored s t msg exp true now e deleted =
      let last = rw e at deleted in inr (refl, ground (arith, last))
  process_one_stored s t msg exp false now e deleted =
      let (row, hit) = stored_process r enrichers author_prior s exp now in
      let last = rw e at deleted in
      let after : (process_experience r enrichers s exp true author_prior now).0 ≡ t =
        ground (arith, last) in
      inl (row, subst (λ u. get_experience u exp.id ≡ some row) after hit)
