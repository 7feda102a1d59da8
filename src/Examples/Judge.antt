-- ===== src/Examples/Judge.antt =====
-- The Memory Judge at concrete counts.
use action_cloud.Prelude.{◌≡◌, refl, some, arith}
use action_cloud.Schema.{shared, validated, private}
use action_cloud.Judge.{
  decide, posterior_confidence, default_prior, quarantined, promoted_to_validated,
}
use action_cloud.Judge.Ladder.{Moves, to_validated, Decides, decide_sound, decide_complete}
use action_cloud.Examples.Rounding.{half_up}

-- The values that the comment of MemorySelectionPolicy names.
confidence_table :
    (posterior_confidence half_up 0 1 default_prior ≡ 4000)
    × (posterior_confidence half_up 1 1 default_prior ≡ 7333)
    × (posterior_confidence half_up 1 2 default_prior ≡ 5500)
unfolding posterior_confidence
confidence_table = (refl, refl, refl)

quarantine_of_one_in_three : decide half_up shared 6000 3 1 ≡ some (private, 4400, quarantined 1 3)
unfolding decide
quarantine_of_one_in_three = refl

four_of_five : Decides half_up 6000 5 4 shared validated
unfolding decide
four_of_five = (7429, promoted_to_validated 5 4, refl)

decide_sound_example : Moves 5 4 shared validated
decide_sound_example = decide_sound half_up 6000 5 4 shared four_of_five

decide_complete_example : Decides half_up 6000 5 4 shared validated
decide_complete_example =
    decide_complete half_up 6000 5 4 shared (omega arith) (to_validated (omega arith) (omega arith))
