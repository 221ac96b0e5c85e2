-- ===== src/Loop.antt =====
-- src/state.cpp, `mainLoop`: the working loop and the cleaning loop of one rank. What a round finds
-- in its probes, its clock and its requests is an `Inputs`; the user's callback is a function on the
-- queue, since the queue is all of this state that it can change.
pub mod Working
pub mod Cleaning
pub mod Calm
pub mod Quiet
pub mod Main
pub mod Keeps
pub mod Whole
mod Tests
use circle.Prelude.{
  ℕ, zero, suc, ◌+◌, Bool, true, false, not, ◌&&◌, List, [], ◌∷◌, ◌++◌, Option, none, some, ltb,
  ◌==◌, if◌then◌else◌,
}
use circle.Queue.{Queue, Status, success}
use circle.Tree.{children}
use circle.State.{Color, is_terminate, State, Send}
use circle.Token.{token_check, check_for_term}
use circle.Term.{check_for_term_all_reduce}
use circle.Barrier.{barrier_start, barrier_test}
use circle.Abort.{abort_check, abort_reduce}
use circle.Reduce.{Callbacks, Reply, Result, reduce_check, reduce_sync}
use circle.Work.{workreq_check, workreceipt_check}
use circle.Receive.{Outcome, job_ends, WorkReply, request_work}
use circle.Checkpoint.{Disk, checkpoint}

-- What the probes of one round find.
pub record Inputs : Type 0 where
  pub requestors : List ℕ
  pub receipts : ℕ
  pub abort_from : Option ℕ
  pub aborts_done : Bool
  pub now : ℕ
  pub reduce_asked : Bool
  pub reduce_replies : List (Option Reply)
  pub work_reply : Option WorkReply
  pub token : Option Color
  pub token_arrived : Bool
  pub term_flags : List Bool
  pub term_reply : Option Bool
  pub barrier_child : Bool
  pub barrier_parent : Bool

-- Does a loop go on, is it left, or has the job been ended?
pub data Phase : Type 0 where
  again left ended : Phase

-- What a loop comes to: the result of its other rounds, if it goes on.
unfoldable pub go_on :
    Phase → State → List Send → Phase × State × List Send → Phase × State × List Send
go_on again s sent rest = rest
go_on left s sent rest = (left, s, sent)
go_on ended s sent rest = (ended, s, sent)

-- "process any incoming work receipt messages"
unfoldable pub take_receipts : State → Inputs → State
take_receipts s i = record s { terms = workreceipt_check s.terms i.receipts }

unfoldable pub check_aborts : State → Inputs → Bool → State × List Send
check_aborts s i cleanup =
    let (a, sent) =
      abort_check s.tree.parent_rank (children s.tree) cleanup s.aborts i.abort_from
        i.aborts_done in
    (record s { aborts = a }, sent)

-- "Make progress on any outstanding reduction"
unfoldable pub check_reduce : Callbacks → State → Inputs → Bool → State × List Send
check_reduce callbacks s i cleanup =
    let (r, sent, _) =
      reduce_check callbacks s.tree.parent_rank (children s.tree) s.reduces
        s.work.local_objects_processed cleanup i.reduce_replies i.now i.reduce_asked in
    if s.reduces.reduce_enabled then (record s { reduces = r }, sent) else (s, [])

-- One item of work.
unfoldable pub process_one : (Queue → Queue) → State → State
process_one process s = record s {
  queue = process s.queue;
  work = record s.work { local_objects_processed = s.work.local_objects_processed + 1 };
}

-- "check whether we have terminated"
unfoldable pub check_termination : State → Inputs → Color × State × List Send
check_termination s i =
    let (color1, terms1, sent1) =
      check_for_term_all_reduce s.tree.parent_rank (children s.tree) s.terms i.term_flags
        i.term_reply in
    let (color2, tokens2, sent2) =
      check_for_term s.rank s.size s.aborts.abort_flag s.tokens i.token in
    if s.term_tree_enabled
    then (color1, record s { terms = terms1 }, sent1)
    else (color2, record s { tokens = tokens2 }, sent2)

unfoldable pub ends_job : Outcome → Bool
ends_job Outcome.received = false
ends_job Outcome.aborted = false
ends_job Outcome.bad_count = false
ends_job Outcome.job_ends = true

-- "start a non-blocking barrier once we have no outstanding items"
unfoldable pub is_quiet : State → Bool
is_quiet s =
    not s.work.work_requested
    && not s.reduces.reduce_outstanding
    && not s.aborts.abort_outstanding
    && not s.tokens.token_send_pending

unfoldable pub start_barrier : State → State
start_barrier s = if is_quiet s then record s { barriers = barrier_start s.barriers } else s

-- The token of the ring is drained, and its pending send is tested.
unfoldable pub drain_token : State → Inputs → State × List Send
drain_token s i =
    let (t, sent) = token_check s.rank s.size s.aborts.abort_flag s.tokens i.token in
    let t1 = if i.token_arrived then record t { token_send_pending = false } else t in
    if s.term_tree_enabled then (s, []) else (record s { tokens = t1 }, sent)

module _ (rand_r : ℕ → ℕ × ℕ) (fuel page_size : ℕ) (allocates : Bool) (callbacks : Callbacks)
    (process : Queue → Queue) where
  -- "Check for and service work requests"
  unfoldable pub serve : State → Inputs → Bool → State × List Send
  serve s i cleanup = workreq_check rand_r allocates s i.requestors cleanup

  -- "If I have no work, request work from another rank"
  unfoldable pub request_if_idle : State → Inputs → Outcome × State × List Send
  request_if_idle s i =
      let asked = request_work rand_r fuel page_size allocates s false i.work_reply in
      if s.queue.count == 0 then asked else (Outcome.received, s, [])

  -- The last part of a round: one item of work, or the check for termination.
  unfoldable pub work_or_check : State → Inputs → Phase × State × List Send
  work_or_check s i =
      let (color, s1, sent) = check_termination s i in
      if ltb 0 s.queue.count && not s.aborts.abort_flag
      then (again, process_one process s, [])
      else (if is_terminate color then left else again, s1, sent)

  -- One round of "Loop until done".
  unfoldable pub work_step : State → Inputs → Phase × State × List Send
  work_step s i =
      let (s1, sent1) = serve s i false in
      let (s2, sent2) = check_aborts (take_receipts s1 i) i false in
      let (s3, sent3) = check_reduce callbacks s2 i false in
      let (outcome, s4, sent4) = request_if_idle s3 i in
      let (phase, s5, sent5) = work_or_check s4 i in
      let before = sent1 ++ sent2 ++ sent3 ++ sent4 in
      if ends_job outcome then (ended, s4, before) else (phase, s5, before ++ sent5)

  unfoldable pub work_loop : State → List Inputs → Phase × State × List Send
  work_loop s [] = (again, s, [])
  work_loop s (i ∷ rounds) =
      let (phase, s1, sent) = work_step s i in
      let (phase2, s2, sent2) = work_loop s1 rounds in
      go_on phase s1 sent (phase2, s2, sent ++ sent2)

  -- The rest of a round of the second loop, if the barrier is not complete.
  unfoldable pub drain : State → Inputs → Phase × State × List Send
  drain s i =
      let (s1, sent1) = serve s i true in
      let (s2, sent2) = check_reduce callbacks s1 i true in
      let (outcome, s3, sent3) =
        request_work rand_r fuel page_size allocates s2 true i.work_reply in
      let (s4, sent4) = check_aborts s3 i true in
      let (s5, sent5) = drain_token s4 i in
      let before = sent1 ++ sent2 ++ sent3 in
      if ends_job outcome then (ended, s3, before) else (again, s5, before ++ sent4 ++ sent5)

  -- One round of "clear up any MPI messages that may still be outstanding".
  unfoldable pub cleanup_step : State → Inputs → Phase × State × List Send
  cleanup_step s i =
      let s1 = start_barrier s in
      let (complete, b, sent) =
        barrier_test s1.tree.parent_rank (children s1.tree) s1.barriers i.barrier_child
          i.barrier_parent in
      let s2 : State = record s1 { barriers = b } in
      let (phase, s3, sent3) = drain s2 i in
      if complete then (left, s2, sent) else (phase, s3, sent ++ sent3)

-- What follows the loops: the last reduction, the common abort state, and the checkpoint.
unfoldable pub finish :
    Callbacks
    → Disk
    → (ℕ → Option (List ℕ))
    → State
    → List Reply
    → List Bool
    → Bool
    → Status × (ℕ → Option (List ℕ)) × State × List Send × Option Result
finish callbacks d files s replies flags abort_result =
    let (r, sent1, result) =
      reduce_sync callbacks s.tree.parent_rank s.reduces s.work.local_objects_processed replies in
    let (a, sent2) =
      abort_reduce s.tree.parent_rank (children s.tree) s.aborts flags abort_result in
    let reduced = s.reduces.reduce_enabled in
    let s1 : State = record s { reduces = if reduced then r else s.reduces; aborts = a } in
    let (status, files1, q) = checkpoint d files s.rank s.queue in
    let sent = (if reduced then sent1 else []) ++ sent2 in
    let result1 = if reduced then result else none in
    if a.abort_flag
    then (status, files1, record s1 { queue = q }, sent, result1)
    else (success, files, s1, sent, result1)
