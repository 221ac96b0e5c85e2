-- ===== src/Reduce/Tests.antt =====
-- A test of the reduction, on a rank with two children.
use circle.Prelude.{◌≡◌, refl, true, List, [], ◌∷◌, Option, some, none}
use circle.Reduce.{Reply, call_operation, take_reply, take_replies}
use circle.Examples.{started_reduction, no_callbacks}

abbrev both : List (Option Reply)
both =
    some (record { valid = true; objects = 5; bytes = [] })
    ∷ none
    ∷ some (record { valid = true; objects = 6; bytes = [] })
    ∷ []

both_taken : (take_replies no_callbacks started_reduction both).result_objects ≡ 11
unfolding take_replies take_reply call_operation
both_taken = refl
