-- ===== src/Abort/Tests.antt =====
-- Tests of the abort broadcast on two ranks.
use circle.Prelude.{ℕ, ◌<◌, ◌≡◌, refl, false, not, ◌&&◌, Option, none, some, arith, ==→eq}
use circle.Abort.{abort_check}
use circle.Gather.Shape.{tree_parent, tree_kids}
use circle.Abort.System.{Aborts, flagged, aborted, Reach, here, next, flags, checks}
use circle.Abort.Agree.{drained_agree}
use circle.Examples.{no_abort}

-- Two ranks: the flag of rank 0 is set, and both enter the abort state.
abbrev fresh_aborts : Aborts
fresh_aborts = record { aborts = λ i. no_abort; requests = λ a b. 0; called = false }

abbrev after_check : Aborts → ℕ → Option ℕ → Aborts
after_check w i source = aborted (tree_parent 2 2) (tree_kids 2 2) w i source false

abbrev asked_one : Aborts
asked_one = after_check (flagged fresh_aborts 0) 0 none

abbrev one_entered : Aborts
one_entered = after_check asked_one 1 (some 0)

abbrev all_entered : Aborts
all_entered = after_check one_entered 0 (some 1)

request_to_one : 0 < asked_one.requests 0 1
unfolding abort_check
request_to_one = omega arith

request_to_zero : 0 < one_entered.requests 1 0
unfolding abort_check
request_to_zero = omega arith

all_drained : (a b : ℕ) → all_entered.requests a b ≡ 0
unfolding abort_check
all_drained a b = ground (arith, ==→eq a 0, ==→eq a 1, ==→eq b 0, ==→eq b 1)

all_entered-Reach : Reach (tree_parent 2 2) (tree_kids 2 2) 2 all_entered
all_entered-Reach =
    next
      (next
        (next (next (here (λ i. no_abort) (λ i. refl) (λ i. refl)) (flags 0 (omega arith)))
          (checks 0 none false (omega arith) (λ s e. cc)))
        (checks 1 (some 0) false (omega arith) (λ s e. ground (arith, request_to_one, e))))
      (checks 0 (some 1) false (omega arith) (λ s e. ground (arith, request_to_zero, e)))

drained_agree_example :
    ((all_entered.aborts 0).abort_state ≡ (all_entered.aborts 1).abort_state)
    × ((all_entered.aborts 0).abort_state && not all_entered.called ≡ false)
drained_agree_example =
    drained_agree 2 2 all_entered 0 1 (omega arith) all_entered-Reach (omega arith) (omega arith)
      all_drained
