-- ===== src/Loop/Calm.antt =====
-- `mainLoop`, the cleaning loop: what its parts do when nothing is outstanding.
use circle.Prelude.{
  ℕ, ◌≡◌, inl, inr, refl, sym, ap, ◌∙◌, if◌then◌else◌, Bool, true, false, List, Option, none, some,
  arith, Option-cases,
}
use circle.Tree.{children}
use circle.State.{State, BarrierState, AbortState, Send}
use circle.Barrier.{barrier_test, barrier_start, go_up, take_reply, no_barrier}
use circle.Abort.{abort_check, abort_start, answer_request}
use circle.Reduce.{Callbacks, complete}
use circle.Reduce.Whole.{reduce_check_cleanup}
use circle.Receive.{WorkReply, check_reply, take_in, work_receive, request_work}
use circle.Loop.{Inputs, Phase, check_aborts, check_reduce, is_quiet, start_barrier, drain_token}

-- The barrier has been entered only with nothing outstanding.
abbrev pub EntersQuiet : State → Type 0
EntersQuiet s = s.barriers.barrier_started ≡ true → is_quiet s ≡ true

pub abort_check-quiet :
    (parent : Option ℕ) (kids : List ℕ) (a : AbortState) (request : Option ℕ) (all_done : Bool)
    → a.abort_outstanding ≡ false
    → (abort_check parent kids true a request all_done).0.abort_outstanding ≡ false
unfolding abort_check answer_request abort_start
abort_check-quiet parent kids a none all_done e = ground (arith, e)
abort_check-quiet parent kids a (some r) all_done e = ground (arith, e)

pub start_barrier-EntersQuiet : (s : State) → EntersQuiet s → EntersQuiet (start_barrier s)
unfolding start_barrier is_quiet barrier_start
start_barrier-EntersQuiet s quiet = ground (arith, quiet)

pub start_barrier-Keeps :
    (s : State)
    → (is_quiet (start_barrier s) ≡ is_quiet s)
      × ((start_barrier s).term_tree_enabled ≡ s.term_tree_enabled)
unfolding start_barrier is_quiet
start_barrier-Keeps s = ground arith

pub request_work-Keeps :
    (rand_r : ℕ → ℕ × ℕ) (fuel page_size : ℕ) (allocates : Bool) (s : State)
    (reply : Option WorkReply)
    → let s1 = (request_work rand_r fuel page_size allocates s true reply).1 in
      (s1.barriers ≡ s.barriers) × (s1.term_tree_enabled ≡ s.term_tree_enabled)
unfolding request_work check_reply work_receive
request_work-Keeps rand_r fuel page_size allocates s none = ground arith
request_work-Keeps rand_r fuel page_size allocates s (some (ints, chars)) =
    elim (Option-cases (take_in page_size s.queue ints chars)) [
      | inl e ↦ ground (arith, e)
      | inr (q, e) ↦ ground (arith, e)
    ]

pub barrier_test-started :
    (parent : Option ℕ) (kids : List ℕ) (b : BarrierState) (child up : Bool)
    → let (complete, b1, _) = barrier_test parent kids b child up in
      b1.barrier_started ≡ true → (b.barrier_started ≡ true) × (complete ≡ false)
unfolding barrier_test go_up take_reply
barrier_test-started none kids b child up started = ground (arith, started)
barrier_test-started (some p) kids b child up started = ground (arith, started)

-- Nothing is outstanding, field by field.
abbrev pub Quiet : State → Type 0
Quiet s =
    (s.work.work_requested ≡ false)
    × (s.reduces.reduce_outstanding ≡ false)
    × (s.aborts.abort_outstanding ≡ false)
    × (s.tokens.token_send_pending ≡ false)

pub is_quiet→Quiet : (s : State) → is_quiet s ≡ true → Quiet s
unfolding is_quiet
is_quiet→Quiet s e = ground (arith, e)

pub Quiet→is-Quiet : (s : State) → Quiet s → is_quiet s ≡ true
unfolding is_quiet
Quiet→is-Quiet s e = ground (arith, e)

-- So it is if the barrier, in the state `b`, is entered; in tree mode.
abbrev pub Calm : BarrierState → State → Type 0
Calm b s = (b.barrier_started ≡ true → Quiet s) × (s.term_tree_enabled ≡ true) × (s.barriers ≡ b)

pub check_reduce-Calm :
    (b : BarrierState) (cb : Callbacks) (s : State) (i : Inputs)
    → Calm b s
    → Calm b (check_reduce cb s i true).0
unfolding check_reduce
check_reduce-Calm b cb s i calm =
    let quiet = λ (q : Quiet s).
      reduce_check_cleanup cb s.tree.parent_rank (children s.tree) s.reduces
        s.work.local_objects_processed i.reduce_replies i.now i.reduce_asked q.1 in
    ground (arith, calm, quiet)

pub check_aborts-Calm :
    (b : BarrierState) (s : State) (i : Inputs) → Calm b s → Calm b (check_aborts s i true).0
unfolding check_aborts
check_aborts-Calm b s i calm = (
  λ e.
      let q = calm.0 e in
      (
        q.0,
        q.1,
        abort_check-quiet s.tree.parent_rank (children s.tree) s.aborts i.abort_from i.aborts_done
            q.2,
        q.3,
      ),
  calm.1,
  calm.2,
)

pub drain_token-Calm :
    (b : BarrierState) (s : State) (i : Inputs) → Calm b s → Calm b (drain_token s i).0
unfolding drain_token
drain_token-Calm b s i calm = ground (arith, calm)

pub cond-Calm :
    (b : BarrierState) (t : Bool) (p q : Phase × State × List Send)
    → Calm b p.1
    → Calm b q.1
    → Calm b (if t then p else q).1
cond-Calm b true p q h k = h
cond-Calm b false p q h k = k

pub Calm→EntersQuiet : (b : BarrierState) (s : State) → Calm b s → EntersQuiet s
Calm→EntersQuiet b s calm e =
    Quiet→is-Quiet s (calm.0 (ap (λ x. x.barrier_started) (sym calm.2) ∙ e))

pub is_quiet-barriers :
    (s : State) (b : BarrierState) → is_quiet (record s { barriers = b }) ≡ is_quiet s
unfolding is_quiet
is_quiet-barriers s b = refl

pub barrier_test_complete :
    (parent : Option ℕ) (kids : List ℕ) (b : BarrierState) (child up : Bool)
    → (barrier_test parent kids b child up).0 ≡ true
    → (b.barrier_started ≡ true) × ((barrier_test parent kids b child up).1 ≡ no_barrier)
unfolding barrier_test
barrier_test_complete parent kids b child up h = ground (arith, h)
