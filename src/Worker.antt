-- ===== src/Worker.antt =====
-- src/actioncloud/worker.py: the consumer of the queue. What a round receives is SQS's choice, and
-- so is which message comes again; `fault` is whether the extractor, the embedding or the database
-- raises in this delivery.
pub mod Delivery
pub mod Liveness
use action_cloud.Prelude.{
  ℕ, suc, ◌+◌, String, string_eq, Bool, true, false, Option, none, some, List, [], ◌∷◌, ◌++◌, ◌==◌,
  if◌then◌else◌, leb,
}
use action_cloud.Schema.{Experience}
use action_cloud.Judge.{Rounding}
use action_cloud.Store.{Store}
use action_cloud.Pipeline.{Enrichers, process_experience}
use action_cloud.Service.{
  Payload, experience, invalid, not_an_object, Body, event, other_type, unhashable_type,
  unparseable, Message,
}

-- WORKER_MAX_RECEIVES, by default.
abbrev pub default_max_receives : ℕ
default_max_receives = 5

-- How a handler ends: it returns, it raises PermanentError, or it raises anything else.
pub data Handled : Type 0 where
  done : Store → Handled
  permanent_error : Handled
  failed : Handled

pub data Round : Type 0 where
  -- `queue.receive` raised; the worker backs off
  receive_failed : Round
  -- the messages of one receive, each with the fault that its transaction meets
  batch : List (Message × Bool) → Round

-- The store, the receipt handles that were deleted, and whether an exception ended the worker.
pub record Consumed : Type 0 where
  pub store : Store
  pub deleted : List ℕ
  pub crashed : Bool

module _ (r : Rounding) (enrichers : Enrichers) (author_prior : Bool) (max_receives : ℕ) where
  unfoldable pub handle_experience_created : Store → Payload → Bool → ℕ → Handled
  unfolding process_experience
  handle_experience_created s invalid fault now = permanent_error
  handle_experience_created s not_an_object fault now = failed
  handle_experience_created s (experience exp) fault now =
      if fault then failed else done (process_experience r enrichers s exp true author_prior now).0

  -- What is left of the store, and whether the message is to be deleted.
  unfoldable pub settle : Store → Handled → ℕ → Store × Bool
  settle s (done t) receives = (t, true)
  settle s permanent_error receives = (s, true)
  settle s failed receives = (s, leb max_receives receives)

  -- `none` is the TypeError of HANDLERS.get(event_type), which stands in no try.
  unfoldable pub dispatch : Store → Body → ℕ → Bool → ℕ → Option (Store × Bool)
  unfolding handle_experience_created settle
  dispatch s unparseable receives fault now = some (s, true)
  dispatch s other_type receives fault now = some (s, true)
  dispatch s unhashable_type receives fault now = none
  dispatch s (event event_type payload) receives fault now = some (
      if event_type == "experience.created"
      then settle s (handle_experience_created s payload fault now) receives
      else (s, true))

  unfoldable pub process_one : Store → Message → Bool → ℕ → Option (Store × Bool)
  unfolding dispatch
  process_one s msg fault now = dispatch s msg.body msg.receives fault now

  -- One batch; an exception of process_one leaves the loop, and with it the worker.
  unfoldable pub process_batch : Store → List (Message × Bool) → ℕ → Consumed
  unfolding process_one
  process_batch s [] now = record { store = s; deleted = []; crashed = false }
  process_batch s ((msg, fault) ∷ rest) now = elim (process_one s msg fault now) [
    | none ↦ record { store = s; deleted = []; crashed = true }
    | some (t, delete) ↦
        let more = process_batch t rest now in
        record more { deleted = if delete then msg.receipt_handle ∷ more.deleted else more.deleted }
  ]

  -- `run` over the rounds until the shutdown signal.
  unfoldable pub run : Store → List Round → ℕ → Consumed
  unfolding process_batch
  run s [] now = record { store = s; deleted = []; crashed = false }
  run s (receive_failed ∷ rounds) now = run s rounds (now + 1)
  run s (batch msgs ∷ rounds) now =
      let first = process_batch s msgs now in
      let more = run first.store rounds (now + 1) in
      if first.crashed then first else record more { deleted = first.deleted ++ more.deleted }
