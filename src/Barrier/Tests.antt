-- ===== src/Barrier/Tests.antt =====
-- Tests of the barrier, on a rank with two children.
use circle.Prelude.{
  update, ◌<◌, ℕ, ◌≡◌, refl, true, false, List, [], ◌∷◌, Option, some, none, arith,
}
use circle.State.{BarrierState}
use circle.Barrier.{barrier_test, barrier_start, take_reply, go_up, is_complete}
use circle.Barrier.System.{Barriers, no_barriers, tested, Reach, here, next, enters, tests}
use circle.Barrier.Safety.{Reach-all_entered}
use circle.Barrier.Completes.{Tests, all_complete}
use circle.Barrier.Rules.{IsOpen}
use circle.Barrier.Runs.{Round}

abbrev half : BarrierState
half = record { barrier_started = true; barrier_up = false; barrier_replies = 1 }

half-IsOpen : IsOpen 2 half
half-IsOpen = record { few = omega arith; all_in = λ e. cc; idle = λ e. cc }

abbrev two_kids : List ℕ
two_kids = 3 ∷ 4 ∷ []

abbrev parent : Option ℕ
parent = some 0

abbrev rounds : List Round
rounds =
    record { starts = false; child_message = true; parent_message = false }
    ∷ record { starts = true; child_message = true; parent_message = false }
    ∷ record { starts = true; child_message = true; parent_message = false }
    ∷ record { starts = true; child_message = true; parent_message = true }
    ∷ record { starts = false; child_message = true; parent_message = false }
    ∷ []

-- Two ranks: both start, rank 1 tells rank 0, and rank 0 completes.
abbrev both_in : Barriers
both_in =
    let w1 : Barriers = record no_barriers {
      entered = update no_barriers.entered 0 true;
      barriers = update no_barriers.barriers 0 (barrier_start (no_barriers.barriers 0));
    } in
    record w1 {
      entered = update w1.entered 1 true;
      barriers = update w1.barriers 1 (barrier_start (w1.barriers 1));
    }

abbrev asked : Barriers
asked = tested 2 2 both_in 1 none false

abbrev answered : Barriers
answered = tested 2 2 asked 0 (some 1) false

both_in-Reach : Reach 2 2 both_in
both_in-Reach = next (next here (enters 0)) (enters 1)

answered-Reach : Reach 2 2 answered
unfolding barrier_test barrier_start take_reply go_up is_complete
answered-Reach =
    next (next both_in-Reach (tests 1 none false (omega arith) refl (tt, λ e. cc)))
      (tests 0 (some 1) false (omega arith) refl ((omega arith, tt), λ e. cc))

Reach-all_entered_example : answered.entered 1 ≡ true
unfolding barrier_test barrier_start take_reply go_up is_complete
Reach-all_entered_example =
    Reach-all_entered 2 2 answered 0 1 (omega arith) answered-Reach refl (omega arith)

all_complete_example :
    (u : Barriers) × Tests 2 2 u both_in × ((j : ℕ) → j < 2 → u.finished j ≡ true)
all_complete_example =
    all_complete 2 2 both_in (omega arith) both_in-Reach (λ j h. ground (arith, h))
