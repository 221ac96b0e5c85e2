-- ===== src/Instance/Execute.antt =====
-- src/circle.cpp, `CircleImpl::execute`, with src/state.cpp, `State::printSummary`.
use circle.Prelude.{
  ℕ, ◌+◌, ◌%◌, ◌^◌, Bool, false, not, ◌||◌, List, [], ◌∷◌, ◌++◌, ltb, ◌==◌, if◌then◌else◌,
}
use circle.State.{Options, State, Send, WorkState, new_state}
use circle.Flags.{has_flag, create_global, split_equal, term_tree, number, info}
use circle.Instance.{CircleImpl}
use circle.Loop.{Inputs}
use circle.Loop.Main.{Last, Run, unfinished, job_ended, finished, main_loop}

-- What `State::State` reads from its `Circle`.
unfoldable pub options_of : CircleImpl → Options
options_of c = record {
  split_equal = has_flag c.runtime_flags split_equal;
  term_tree = has_flag c.runtime_flags term_tree;
  tree_width = c.tree_width;
  reduce_period = c.reduce_period;
}

-- The create callback runs on rank 0, or everywhere.
unfoldable pub creates : CircleImpl → Bool
creates c = c.rank == 0 || has_flag c.runtime_flags create_global

-- A line of the summary, without the share of the total that is printed with the first.
pub data Line : Type 0 where
  processed requested no_work : (rank count : ℕ) → Line
  total_processed : ℕ → Line

-- `for (i = 0; i < size; i++)`, on the gathered counters from rank `i` on.
unfoldable pub rank_lines : ℕ → List WorkState → List Line
rank_lines i [] = []
rank_lines i (w ∷ ws) =
    processed i w.local_objects_processed
    ∷ requested i w.local_work_requested
    ∷ no_work i w.local_no_work_received
    ∷ rank_lines (i + 1) ws

-- MPI_Reduce with MPI_SUM, on 32-bit numbers.
unfoldable pub sum_processed : List WorkState → ℕ
sum_processed [] = 0
sum_processed (w ∷ ws) = (w.local_objects_processed + sum_processed ws) % 2 ^ 32

-- `State::printSummary` on one rank; `all` are the counters of all ranks, in order.
unfoldable pub print_summary : ℕ → List WorkState → List Line
print_summary rank all =
    if rank == 0 then rank_lines 0 all ++ (total_processed (sum_processed all) ∷ []) else []

module _ (rand_r : ℕ → ℕ × ℕ) (fuel page_size : ℕ) (allocates : Bool) where
  -- The state in which the main loop starts: the constructor's, with the first work.
  unfoldable pub start_state : CircleImpl → (size now : ℕ) → State
  start_state c size now =
      let s =
        new_state rand_r fuel (options_of c) c.rank size c.queue now c.reduce_buf
          c.reduce_buf_size in
      if creates c then record s { queue = c.create_callback s.queue } else s

  -- The run, what it sends, and whether the summary is printed.
  unfoldable pub execute :
      CircleImpl → (size now : ℕ) → List Inputs → List Inputs → Last → Run × List Send × Bool
  unfolding number
  execute c size now working cleaning l =
      let (run, sent) =
        main_loop rand_r fuel page_size allocates c.reduce_callbacks c.process_callback
          (start_state c size now) working cleaning l in
      let prints = not (ltb c.log_level (number info)) in
      (run, sent, elim run [ unfinished _ ↦ false | job_ended _ ↦ false | finished _ ↦ prints ])
