-- ===== src/Instance/Tests.antt =====
-- Tests of `execute`: a job of one rank, with tree termination and no work.
use circle.Prelude.{◌≡◌, ◌||◌, ◌==◌, refl, true, false, List, [], ◌∷◌, none}
use circle.Queue.{success}
use circle.Tree.{make_tree, fill}
use circle.State.{State, Send, new_state, is_terminate, get_next_proc, new_tokens}
use circle.Barrier.{no_barrier, barrier_start, barrier_test, take_reply, go_up, is_complete}
use circle.Term.{check_for_term_all_reduce, collect, send_up, receive_down}
use circle.Receive.{request_work, ask}
use circle.Work.{workreq_check, workreceipt_check}
use circle.Abort.{abort_check, abort_start, answer_request}
use circle.Flags.{
  term_tree, has_flag, and_bits, circle_term_tree, circle_split_equal, circle_create_global,
  CircleRuntimeFlags,
}
use circle.Loop.{
  Inputs, Phase, left, work_loop, work_step, serve, take_receipts, check_aborts, check_reduce,
  request_if_idle, ends_job, work_or_check, check_termination, go_on, cleanup_step, start_barrier,
  is_quiet,
}
use circle.Loop.Main.{
  Last, Ending, Run, unfinished, job_ended, finished, main_loop, cleanup_loop, conclude, last_part,
}
use circle.Instance.{CircleImpl, new_simple}
use circle.Instance.C.{c_flags, c_set_runtime_flags}
use circle.Instance.Execute.{options_of, creates, start_state, execute}
use circle.Instance.Rules.{among, c_flags-options, execute-quiet}
use circle.Examples.{good_disk, counter}

abbrev alone : CircleImpl
unfolding new_simple
alone = new_simple 0 0 (λ q. q) (λ q. q) term_tree

abbrev nothing : Inputs
nothing = record {
  requestors = [];
  receipts = 0;
  abort_from = none;
  aborts_done = false;
  now = 1;
  reduce_asked = false;
  reduce_replies = [];
  work_reply = none;
  token = none;
  token_arrived = false;
  term_flags = [];
  term_reply = none;
  barrier_child = false;
  barrier_parent = false;
}

abbrev last_inputs : Last
last_inputs = record {
  disk = good_disk;
  files = λ r. none;
  replies = [];
  abort_flags = [];
  abort_result = false;
}

abbrev begun : State
begun = start_state counter 1 1 true alone 1 0

abbrev worked : Phase × State × List Send
worked =
    work_loop counter 1 1 true alone.reduce_callbacks alone.process_callback begun (nothing ∷ [])

abbrev cleaned : Phase × State × List Send
cleaned =
    cleanup_loop counter 1 1 true alone.reduce_callbacks alone.process_callback worked.1
      (nothing ∷ [])

abbrev ending_of : Run → Ending
ending_of (finished e) = e
ending_of (unfinished s) = record {
  checkpointed = success;
  files = λ r. none;
  state = s;
  result = none;
}
ending_of (job_ended s) = record {
  checkpointed = success;
  files = λ r. none;
  state = s;
  result = none;
}

abbrev ending : Ending
ending = ending_of (last_part alone.reduce_callbacks cleaned.1 last_inputs).0

worked_left : worked.0 ≡ left
unfolding new_simple start_state options_of creates work_loop work_step serve workreq_check
    take_receipts workreceipt_check check_aborts abort_check abort_start answer_request check_reduce
    request_if_idle request_work ask ends_job work_or_check check_termination
    check_for_term_all_reduce collect send_up receive_down is_terminate go_on new_state make_tree
    fill get_next_proc has_flag and_bits
worked_left = refl

cleaned_left : cleaned.0 ≡ left
unfolding new_simple start_state options_of creates work_loop work_step serve workreq_check
    take_receipts workreceipt_check check_aborts abort_check abort_start answer_request check_reduce
    request_if_idle request_work ask ends_job work_or_check check_termination
    check_for_term_all_reduce collect send_up receive_down is_terminate go_on new_state make_tree
    fill get_next_proc has_flag and_bits cleanup_loop cleanup_step start_barrier is_quiet
    barrier_start barrier_test take_reply go_up is_complete new_tokens
cleaned_left = refl

run_finished :
    (execute counter 1 1 true alone 1 0 (nothing ∷ []) (nothing ∷ []) last_inputs).0
    ≡ finished ending
unfolding execute main_loop conclude last_part
run_finished = rw (worked_left, cleaned_left) refl

tree_mode : has_flag alone.runtime_flags term_tree ≡ true
unfolding new_simple has_flag and_bits
tree_mode = refl

execute-quiet_example :
    (ending.state.work.work_requested ≡ false)
    × (ending.state.aborts.abort_outstanding ≡ false)
    × (ending.state.tokens.token_send_pending ≡ false)
    × (ending.state.barriers ≡ no_barrier)
execute-quiet_example =
    execute-quiet counter 1 1 true alone 1 0 (nothing ∷ []) (nothing ∷ []) last_inputs ending
      tree_mode run_finished

abbrev two_flags : List CircleRuntimeFlags
two_flags = circle_split_equal ∷ circle_term_tree ∷ []

c_flags-options_example :
    let c1 = c_set_runtime_flags (c_flags two_flags) alone in
    ((options_of c1).split_equal ≡ among circle_split_equal two_flags)
    × ((options_of c1).term_tree ≡ among circle_term_tree two_flags)
    × (creates c1 ≡ (alone.rank == 0) || among circle_create_global two_flags)
c_flags-options_example = c_flags-options two_flags alone
