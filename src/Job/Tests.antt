-- ===== src/Job/Tests.antt =====
-- Tests of the collective operations: rank 0 with rank 1, and rank 3 below that.
use circle.Prelude.{ℕ, ◌≡◌, Bool, true, false, none, some}
use circle.State.{State}
use circle.Reduce.{Result}
use circle.Job.{Subtree, node, no_more, child, abort_all, final_result}
use circle.Job.Aborts.{any_aborted, EveryFlag, abort_all-agrees}
use circle.Job.Totals.{processed, final_result-processed}
use circle.Examples.{rank_one, no_callbacks}

abbrev busy : ℕ → ℕ → Bool → State
busy rank count flag = record rank_one {
  rank = rank;
  aborts = record rank_one.aborts { abort_flag = flag };
  work = record rank_one.work { local_objects_processed = count };
}

abbrev job : Subtree
job =
    node (busy 0 5 false)
      (child (node (busy 1 6 false) (child (node (busy 3 7 true) no_more) no_more)) no_more)

abort_all-agrees_example : EveryFlag (any_aborted job) (abort_all none false job)
abort_all-agrees_example = abort_all-agrees false job

final_result-processed_example :
    (r : Result) × (final_result no_callbacks job ≡ some r) × (r.total ≡ processed job)
final_result-processed_example = final_result-processed no_callbacks job
