-- ===== src/Wave/Tests.antt =====
-- A periodic reduction of two ranks.
use circle.Prelude.{ℕ, ◌<◌, ◌≡◌, refl, true, false, [], Option, some, arith, total}
use circle.Reduce.{
  Result, call_init, start, complete, send_result, deliver, is_asked, reduce_check, take_reply,
  take_replies, call_operation, circle_reduce,
}
use circle.Gather.Shape.{tree_parent, tree_kids}
use circle.Tree.Family.{ranks_from}
use circle.Wave.{Wave, checked, Reach, here, next, checks}
use circle.Wave.Sum.{delivers_sum}
use circle.Examples.{no_reduction, no_callbacks}

abbrev at_start : Wave
at_start = record {
  reduces = λ i. no_reduction;
  starts = λ i. 0;
  results = λ i. [];
  taken = λ i. false;
  gave = λ i. 0;
  given = λ i. 0;
  spoiled = false;
}

abbrev check : Wave → ℕ → ℕ → Wave × Option Result
check w i count =
    checked no_callbacks (tree_parent 2 2) (tree_kids 2 2) w i count false 20 (λ c. true)

abbrev begun : Wave
begun = (check at_start 0 4).0

abbrev passed_on : Wave
passed_on = (check begun 1 6).0

abbrev sent_up : Wave
sent_up = (check passed_on 1 7).0

sent_up-Reach : Reach no_callbacks (tree_parent 2 2) (tree_kids 2 2) 2 sent_up
sent_up-Reach =
    next
      (next
        (next (here (λ i. no_reduction) (λ i. refl))
          (checks 0 4 false 20 (λ c. true) (omega arith)))
        (checks 1 6 false 20 (λ c. true) (omega arith)))
      (checks 1 7 false 20 (λ c. true) (omega arith))

abbrev twelve : Result
twelve = record { total = 12; delivered = some [] }

said : (check sent_up 0 5).1 ≡ some twelve
unfolding call_init start complete send_result deliver is_asked reduce_check take_reply take_replies
    call_operation circle_reduce
said = refl

delivers_sum_example :
    ((j : ℕ) → j < 2 → (check sent_up 0 5).0.gave j ≡ 1)
    × (twelve.total ≡ total (check sent_up 0 5).0.given (ranks_from 0 2))
delivers_sum_example =
    delivers_sum 2 2 no_callbacks sent_up 0 5 false 20 (λ c. true) twelve (omega arith)
      sent_up-Reach (omega arith) said
