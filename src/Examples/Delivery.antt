-- ===== src/Examples/Delivery.antt =====
-- A message of the queue, delivered twice, and one whose transaction fails.
use action_cloud.Prelude.{
  Bool, Option, none, some, ◌≤◌, ◌⊎◌, [], ◌∷◌, arith, ◌<◌, ◌≡◌, refl, string_eq, nat_eq, true,
  false,
}
use action_cloud.Schema.{Experience}
use action_cloud.Store.{Store, empty, Row, get_experience}
use action_cloud.Service.{experience, not_an_object, event, unhashable_type, Message}
use action_cloud.Worker.{process_one}
use action_cloud.Worker.Liveness.{deliveries, deliveries_end, process_one_stored}
use action_cloud.Worker.Delivery.{is_deleted, redelivery_harmless, process_one_kept}
use action_cloud.Governance.{here}
use action_cloud.Examples.Rounding.{half_up}
use action_cloud.Examples.Data.{plain, exp}

abbrev first : Message
first = record {
  body = event "experience.created" (experience exp);
  receipt_handle = 1;
  receives = 1;
}

abbrev second : Message
second = record first { receipt_handle = 2; receives = 2 }

abbrev store_of : Option (Store × Bool) → Store
store_of none = empty
store_of (some (t, _)) = t

abbrev after : Store
after = store_of (process_one half_up plain true 5 empty first false 0)

stored_once : process_one half_up plain true 5 empty first false 0 ≡ some (after, true)
unfolding process_one
stored_once = refl

redelivery_harmless_example :
    (deleted : Bool) × (process_one half_up plain true 5 after second true 9
      ≡ some (after, deleted))
redelivery_harmless_example =
    redelivery_harmless half_up plain true 5 empty after after first second true true 0 9
      stored_once here refl

kept : is_deleted (process_one half_up plain true 5 empty first true 0) ≡ false
unfolding process_one
kept = refl

process_one_kept_example :
    ((first.body ≡ unhashable_type) × (process_one half_up plain true 5 empty first true 0 ≡ none))
    ⊎ ((first.receives < 5)
        × (process_one half_up plain true 5 empty first true 0 ≡ some (empty, false))
        × (((true ≡ true)
              × ((e : Experience) × (first.body ≡ event "experience.created" (experience e))))
            ⊎ (first.body ≡ event "experience.created" not_an_object)))
process_one_kept_example = process_one_kept half_up plain true 5 empty first true 0 kept

-- Five deliveries, each of which fails.
deliveries_end_example :
    ((deliveries half_up plain true 5 empty first.body 1
        ((true, 0) ∷ (true, 30) ∷ (true, 60) ∷ (true, 90) ∷ (true, 120) ∷ [])).1
      ≡ true)
    ⊎ ((first.body ≡ unhashable_type)
        × ((deliveries half_up plain true 5 empty first.body 1
              ((true, 0) ∷ (true, 30) ∷ (true, 60) ∷ (true, 90) ∷ (true, 120) ∷ [])).1
            ≡ false))
deliveries_end_example =
    deliveries_end half_up plain true 5 empty first.body
      ((true, 0) ∷ (true, 30) ∷ (true, 60) ∷ (true, 90) ∷ (true, 120) ∷ []) (omega arith) refl

process_one_stored_example :
    ((row : Row) × (get_experience after exp.id ≡ some row))
    ⊎ ((false ≡ true) × (5 ≤ first.receives))
process_one_stored_example =
    process_one_stored half_up plain true 5 empty after first exp false 0 refl stored_once
