-- ===== src/Barrier/Runs.antt =====
-- Any number of tests of one rank in a row, counted.
use circle.Prelude.{
  bit, ℕ, suc, ◌+◌, ◌*◌, ◌≡◌, refl, ap, Bool, true, false, List, [], ◌∷◌, some, arith, length,
}
use circle.State.{BarrierState}
use circle.Barrier.{barrier_start, barrier_test, no_barrier}
use circle.Barrier.Rules.{
  IsOpen, takes, barrier_start-IsOpen, barrier_test-IsOpen, barrier_test_counts,
}

-- A rank's tests, one for each pair of probe results; before each it may start the barrier again.
pub record Round : Type 0 where
  pub starts : Bool
  pub child_message : Bool
  pub parent_message : Bool

pub record Totals : Type 0 where
  pub completed : ℕ
  pub received : ℕ
  pub sent : ℕ
  pub last : BarrierState

abbrev pub started : BarrierState → Bool → BarrierState
started b true = barrier_start b
started b false = b

unfoldable pub run_barrier : ℕ → List ℕ → BarrierState → List Round → Totals
run_barrier p kids b [] = record { completed = 0; received = 0; sent = 0; last = b }
run_barrier p kids b (r ∷ rs) =
    let b0 = started b r.starts in
    let (done, b1, sent) = barrier_test (some p) kids b0 r.child_message r.parent_message in
    let rest = run_barrier p kids b1 rs in
    record {
      completed = bit done + rest.completed;
      received = bit (takes (length kids) b0 r.child_message) + rest.received;
      sent = length sent + rest.sent;
      last = rest.last;
    }

started-lem :
    (nchildren : ℕ) (b : BarrierState) (s : Bool)
    → IsOpen nchildren b
    → IsOpen nchildren (started b s)
      × ((started b s).barrier_replies ≡ b.barrier_replies)
      × ((started b s).barrier_up ≡ b.barrier_up)
unfolding barrier_start
started-lem nchildren b true v = (barrier_start-IsOpen nchildren b v, refl, refl)
started-lem nchildren b false v = (v, refl, refl)

-- The same from any state, with what it has received and sent before on the left.
run_barrier_from :
    (p : ℕ) (kids : List ℕ) (rs : List Round) (b : BarrierState)
    → IsOpen (length kids) b
    → let t = run_barrier p kids b rs in
      (b.barrier_replies + t.received ≡ t.completed * length kids + t.last.barrier_replies)
      × (bit b.barrier_up + t.sent ≡ t.completed * suc (length kids) + bit t.last.barrier_up)
unfolding run_barrier
run_barrier_from p kids [] b v = (omega arith, omega arith)
run_barrier_from p kids (r ∷ rs) b v =
    let (w, same_replies, same_up) = started-lem (length kids) b r.starts v in
    let one = barrier_test_counts p kids (started b r.starts) r.child_message r.parent_message w in
    let ih =
      run_barrier_from p kids rs
        (barrier_test (some p) kids (started b r.starts) r.child_message r.parent_message).1
        (barrier_test-IsOpen (some p) kids (started b r.starts) r.child_message r.parent_message
          w) in
    (omega (arith, one.0, ih.0, same_replies), omega (arith, one.1, ih.1, ap bit same_up))

pub no_barrier-IsOpen : (nchildren : ℕ) → IsOpen nchildren no_barrier
no_barrier-IsOpen nchildren = record {
  few = omega arith;
  all_in = λ e. cc;
  idle = λ e. (refl, refl);
}

-- Over any number of tests of a rank that is not the root, from the reset state: each completed
-- barrier has taken one message of every child, and has sent one message up and one to every child.
-- What is beyond that belongs to the barrier that is under way.
pub run_barrier_counts :
    (p : ℕ) (kids : List ℕ) (rs : List Round)
    → let t = run_barrier p kids no_barrier rs in
      (t.received ≡ t.completed * length kids + t.last.barrier_replies)
      × (t.sent ≡ t.completed * suc (length kids) + bit t.last.barrier_up)
run_barrier_counts p kids rs =
    let from = run_barrier_from p kids rs no_barrier (no_barrier-IsOpen (length kids)) in
    (omega (arith, from.0), omega (arith, from.1))
