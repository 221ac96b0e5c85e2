-- ===== src/Loop/Tests.antt =====
-- Tests of the loops.
use circle.Prelude.{refl, true, List, [], ◌∷◌, All}
use circle.Queue.{Queue}
use circle.Loop.{Inputs, work_loop, cleanup_step}
use circle.Loop.Working.{WaitsEmpty, work_loop-WaitsEmpty}
use circle.Loop.Cleaning.{Settles, cleanup_step-Settles}
use circle.Examples.{counter, no_callbacks, idle_rank, waiting_rank, one_request}

abbrev two_rounds : List Inputs
two_rounds = one_request ∷ one_request ∷ []

-- A callback that takes one item, whatever it is.
abbrev drop_one : Queue → Queue
drop_one q = (circle.Queue.pop q []).2

work_loop-WaitsEmpty_example :
    WaitsEmpty (work_loop counter 5 1 true no_callbacks drop_one waiting_rank two_rounds).1
work_loop-WaitsEmpty_example =
    work_loop-WaitsEmpty counter 5 1 true no_callbacks drop_one waiting_rank two_rounds (λ e. refl)

cleanup_step-Settles_example :
    All Settles (cleanup_step counter 5 1 true no_callbacks drop_one idle_rank one_request).2
cleanup_step-Settles_example =
    cleanup_step-Settles counter 5 1 true no_callbacks drop_one idle_rank one_request
