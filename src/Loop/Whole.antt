-- ===== src/Loop/Whole.antt =====
-- `mainLoop` as a whole: when it is over, nothing is outstanding.
use circle.Prelude.{ℕ, ◌≡◌, refl, ap, ◌∙◌, Bool, true, false, List, [], ◌∷◌, ◌++◌, arith}
use circle.Queue.{Queue}
use circle.State.{State, Send}
use circle.Reduce.{Callbacks}
use circle.Loop.{
  Inputs, Phase, again, left, ended, go_on, work_loop, is_quiet, cleanup_step, finish,
}
use circle.Abort.{abort_reduce}
use circle.Barrier.{no_barrier}
use circle.Loop.Calm.{EntersQuiet}
use circle.Loop.Quiet.{cleanup_step-EntersQuiet, cleanup_step-Quiet}
use circle.Loop.Main.{Last, Ending, Run, finished, cleanup_loop, main_loop, conclude, last_part}
use circle.Loop.Keeps.{work_loop-Keeps}

-- Nothing is outstanding, and the barrier is reset.
abbrev IsDone : State → Type 0
IsDone s = (is_quiet s ≡ true) × (s.barriers ≡ no_barrier)

conclude-finished :
    (phase1 phase2 : Phase) (s1 s2 : State) (run : Run) (e : Ending)
    → conclude phase1 s1 (conclude phase2 s2 run) ≡ finished e
    → (phase1 ≡ left) × (phase2 ≡ left) × (run ≡ finished e)
unfolding conclude
conclude-finished left left s1 s2 run e h = (refl, refl, h)
conclude-finished left again s1 s2 run e h = cc
conclude-finished left ended s1 s2 run e h = cc
conclude-finished again phase2 s1 s2 run e h = cc
conclude-finished ended phase2 s1 s2 run e h = cc

-- The last part does not change what may be outstanding.
last_part-IsDone :
    (callbacks : Callbacks) (s : State) (l : Last) (e : Ending)
    → IsDone s
    → (last_part callbacks s l).0 ≡ finished e
    → (e.state.work.work_requested ≡ false)
      × (e.state.aborts.abort_outstanding ≡ false)
      × (e.state.tokens.token_send_pending ≡ false)
      × (e.state.barriers ≡ no_barrier)
unfolding last_part finish is_quiet abort_reduce
last_part-IsDone callbacks s l e v done = ground (arith, v, done)

go_on-IsDone :
    (phase : Phase) (s1 : State) (sent : List Send) (rest : Phase × State × List Send)
    → (phase ≡ left → IsDone s1)
    → (rest.0 ≡ left → IsDone rest.1)
    → (go_on phase s1 sent rest).0 ≡ left
    → IsDone (go_on phase s1 sent rest).1
unfolding go_on
go_on-IsDone again s1 sent rest here there h = there h
go_on-IsDone left s1 sent rest here there h = here h
go_on-IsDone ended s1 sent rest here there h = here h

clash : {b : Bool} → b ≡ false → b ≡ true → ⊥
clash h k = cc

module _ (rand_r : ℕ → ℕ × ℕ) (fuel page_size : ℕ) (allocates : Bool) where
  module _ (callbacks : Callbacks) (process : Queue → Queue) where
    -- The cleaning loop is left only with nothing outstanding.
    cleanup_loop-IsDone :
        (rounds : List Inputs) (s : State)
        → s.term_tree_enabled ≡ true
        → EntersQuiet s
        → let (phase, s1, _) =
            cleanup_loop rand_r fuel page_size allocates callbacks process s rounds in
          phase ≡ left → IsDone s1
    unfolding cleanup_loop
    cleanup_loop-IsDone [] s tree quiet = λ h. cc
    cleanup_loop-IsDone (i ∷ rounds) s tree quiet =
        let (phase, s1, sent) =
          cleanup_step rand_r fuel page_size allocates callbacks process s i in
        let one =
          cleanup_step-Quiet rand_r fuel page_size allocates callbacks process s i tree quiet in
        let enters =
          cleanup_step-EntersQuiet rand_r fuel page_size allocates callbacks process s i tree
            quiet in
        let later = cleanup_loop rand_r fuel page_size allocates callbacks process s1 rounds in
        go_on-IsDone phase s1 sent (later.0, later.1, sent ++ later.2) one.0
          (cleanup_loop-IsDone rounds s1 one.1 enters)

    -- With tree termination, a run of the main loop that is finished has no work request, no abort
    -- request and no token outstanding, and the barrier is reset. It starts from a state that has
    -- not started the barrier.
    pub main_loop-quiet :
        (s : State) (working cleaning : List Inputs) (l : Last) (e : Ending)
        → s.term_tree_enabled ≡ true
        → s.barriers.barrier_started ≡ false
        → (main_loop rand_r fuel page_size allocates callbacks process s working cleaning l).0
          ≡ finished e
        → (e.state.work.work_requested ≡ false)
          × (e.state.aborts.abort_outstanding ≡ false)
          × (e.state.tokens.token_send_pending ≡ false)
          × (e.state.barriers ≡ no_barrier)
    unfolding main_loop
    main_loop-quiet s working cleaning l e tree fresh done =
        let (phase1, s1, sent1) =
          work_loop rand_r fuel page_size allocates callbacks process s working in
        let (phase2, s2, sent2) =
          cleanup_loop rand_r fuel page_size allocates callbacks process s1 cleaning in
        let c = conclude-finished phase1 phase2 s1 s2 (last_part callbacks s2 l).0 e done in
        let kept = work_loop-Keeps rand_r fuel page_size allocates callbacks process working s in
        last_part-IsDone callbacks s2 l e
          (cleanup_loop-IsDone cleaning s1 (kept.1 ∙ tree)
            (λ h. absurd (clash (ap (λ b. b.barrier_started) kept.0 ∙ fresh) h)) c.1)
          c.2
