-- ===== src/Loop/Quiet.antt =====
-- `mainLoop`, the cleaning loop: nothing is outstanding once the barrier has been entered.
use circle.Prelude.{ℕ, ◌≡◌, ◌≢◌, refl, sym, subst, ◌∙◌, Bool, true, false, [], ◌++◌, arith}
use circle.Queue.{Queue}
use circle.Tree.{children}
use circle.State.{State, BarrierState}
use circle.Barrier.{barrier_test, no_barrier}
use circle.Reduce.{Callbacks}
use circle.Receive.{Outcome, request_work}
use circle.Loop.{
  Inputs, again, left, ended, serve, check_aborts, check_reduce, is_quiet, start_barrier,
  drain_token, drain, cleanup_step, ends_job,
}
use circle.Loop.Cleaning.{serve_cleanup}
use circle.Loop.Calm.{
  EntersQuiet, start_barrier-EntersQuiet, start_barrier-Keeps, request_work-Keeps,
  barrier_test-started, Quiet, is_quiet→Quiet, Calm, check_reduce-Calm, check_aborts-Calm,
  drain_token-Calm, cond-Calm, Calm→EntersQuiet, is_quiet-barriers, barrier_test_complete,
}

module _ (rand_r : ℕ → ℕ × ℕ) (fuel page_size : ℕ) (allocates : Bool) (callbacks : Callbacks)
    (process : Queue → Queue) where
  check_work :
      (s : State) (i : Inputs)
      → s.work.work_requested ≡ false
      → request_work rand_r fuel page_size allocates s true i.work_reply ≡ (Outcome.received, s, [])
  unfolding request_work
  check_work s i e = ground (arith, e)

  serve-Calm :
      (b : BarrierState) (s : State) (i : Inputs)
      → Calm b s
      → Calm b (serve rand_r fuel page_size allocates callbacks process s i true).0
  serve-Calm b s i calm =
      subst (λ r. Calm b r.0)
        (sym (serve_cleanup rand_r fuel page_size allocates callbacks process s i)) calm

  request_work-Calm :
      (b : BarrierState) (s : State) (i : Inputs)
      → Calm b s
      → Calm b (request_work rand_r fuel page_size allocates s true i.work_reply).1
  request_work-Calm b s i calm =
      let kept = request_work-Keeps rand_r fuel page_size allocates s i.work_reply in
      (
        λ e. subst (λ r. Quiet r.1) (sym (check_work s i (calm.0 e).0)) (calm.0 e),
        kept.1 ∙ calm.1,
        kept.0 ∙ calm.2,
      )

  drain-Calm :
      (b : BarrierState) (s : State) (i : Inputs)
      → Calm b s
      → Calm b (drain rand_r fuel page_size allocates callbacks process s i).1
  unfolding drain
  drain-Calm b s i calm =
      let (s1, sent1) = serve rand_r fuel page_size allocates callbacks process s i true in
      let (s2, sent2) = check_reduce callbacks s1 i true in
      let calm2 = check_reduce-Calm b callbacks s1 i (serve-Calm b s i calm) in
      let (outcome, s3, sent3) =
        request_work rand_r fuel page_size allocates s2 true i.work_reply in
      let calm3 = request_work-Calm b s2 i calm2 in
      let (s4, sent4) = check_aborts s3 i true in
      let calm4 = check_aborts-Calm b s3 i calm3 in
      let (s5, sent5) = drain_token s4 i in
      cond-Calm b (ends_job outcome) (ended, s3, sent1 ++ sent2 ++ sent3)
        (again, s5, sent1 ++ sent2 ++ sent3 ++ sent4 ++ sent5) calm3 (drain_token-Calm b s4 i calm4)

  drain-phase :
      (s : State) (i : Inputs)
      → (drain rand_r fuel page_size allocates callbacks process s i).0 ≢ left
  unfolding drain
  drain-phase s i h = ground (arith, h)

  -- In tree mode, once the barrier is entered with nothing outstanding, every round of the cleaning
  -- loop leaves it so: no work reply, reduction, abort reply or token is waited for while it runs,
  -- whatever the probes find.
  pub cleanup_step-EntersQuiet :
      (s : State) (i : Inputs)
      → s.term_tree_enabled ≡ true
      → EntersQuiet s
      → EntersQuiet (cleanup_step rand_r fuel page_size allocates callbacks process s i).1
  unfolding cleanup_step
  cleanup_step-EntersQuiet s i tree quiet =
      let s1 : State = start_barrier s in
      let entered = start_barrier-EntersQuiet s quiet in
      let test =
        barrier_test s1.tree.parent_rank (children s1.tree) s1.barriers i.barrier_child
          i.barrier_parent in
      let started =
        barrier_test-started s1.tree.parent_rank (children s1.tree) s1.barriers i.barrier_child
          i.barrier_parent in
      let s2 : State = record s1 { barriers = test.1 } in
      let calm : Calm test.1 s2 =
        (λ e. is_quiet→Quiet s1 (entered (started e).0), (start_barrier-Keeps s).1 ∙ tree, refl) in
      let drained = drain-Calm test.1 s2 i calm in
      ground (
        arith,
        Calm→EntersQuiet test.1 s2 calm,
        Calm→EntersQuiet test.1 (drain rand_r fuel page_size allocates callbacks process s2 i).1
            drained,
      )

  -- The same, with what the loop needs of it: the mode does not change, and the loop is left only
  -- with nothing outstanding.
  pub cleanup_step-Quiet :
      (s : State) (i : Inputs)
      → s.term_tree_enabled ≡ true
      → EntersQuiet s
      → let (phase, s1, _) = cleanup_step rand_r fuel page_size allocates callbacks process s i in
        (phase ≡ left → (is_quiet s1 ≡ true) × (s1.barriers ≡ no_barrier))
        × (s1.term_tree_enabled ≡ true)
  unfolding cleanup_step
  cleanup_step-Quiet s i tree quiet =
      let s1 : State = start_barrier s in
      let entered = start_barrier-EntersQuiet s quiet in
      let test =
        barrier_test s1.tree.parent_rank (children s1.tree) s1.barriers i.barrier_child
          i.barrier_parent in
      let started =
        barrier_test_complete s1.tree.parent_rank (children s1.tree) s1.barriers i.barrier_child
          i.barrier_parent in
      let started_open =
        barrier_test-started s1.tree.parent_rank (children s1.tree) s1.barriers i.barrier_child
          i.barrier_parent in
      let s2 : State = record s1 { barriers = test.1 } in
      let tree2 : s2.term_tree_enabled ≡ true = (start_barrier-Keeps s).1 ∙ tree in
      let calm : Calm test.1 s2 =
        (λ e. is_quiet→Quiet s1 (entered (started_open e).0), tree2, refl) in
      let same : is_quiet s2 ≡ is_quiet s1 = is_quiet-barriers s1 test.1 in
      ground
        (arith, same, entered, started, tree2, drain-phase s2 i, (drain-Calm test.1 s2 i calm).1)
