-- ===== src/Barrier/Rules.antt =====
-- What the barrier does on one rank.
use circle.Prelude.{
  bit, ℕ, suc, ◌+◌, ◌*◌, ◌≤◌, ◌≡◌, ◌↔◌, ◌⊎◌, Bool, true, false, ◌&&◌, List, Option, none, some,
  arith, length, ltb,
}
use circle.State.Sends.{length-to_children}
use circle.State.{BarrierState, Message}
use circle.Barrier.{barrier_start, barrier_test}

-- A rank never counts more replies than it has children, goes up only with all of them, and counts
-- none before it has started.
pub record IsOpen (nchildren : ℕ) (b : BarrierState) : Type 0 where
  pub few : b.barrier_replies ≤ nchildren
  pub all_in : b.barrier_up ≡ true → b.barrier_replies ≡ nchildren
  pub idle : b.barrier_started ≡ false → (b.barrier_up ≡ false) × (b.barrier_replies ≡ 0)

-- Does this test receive a child's message?
abbrev pub takes : ℕ → BarrierState → Bool → Bool
takes nchildren b m = b.barrier_started && (ltb b.barrier_replies nchildren && m)

pub barrier_start-IsOpen :
    (nchildren : ℕ) (b : BarrierState) → IsOpen nchildren b → IsOpen nchildren (barrier_start b)
unfolding barrier_start
barrier_start-IsOpen nchildren b v = record { few = v.few; all_in = v.all_in; idle = λ e. cc }

pub barrier_test-IsOpen :
    (parent : Option ℕ) (kids : List ℕ) (b : BarrierState) (m pm : Bool)
    → IsOpen (length kids) b
    → IsOpen (length kids) (barrier_test parent kids b m pm).1
unfolding barrier_test
barrier_test-IsOpen none kids b m pm v = record {
  few = ground (arith, v.few);
  all_in = λ e. ground (arith, v.all_in);
  idle = λ e. ground (arith, v.idle);
}
barrier_test-IsOpen (some p) kids b m pm v = record {
  few = ground (arith, v.few);
  all_in = λ e. ground (arith, v.all_in);
  idle = λ e. ground (arith, v.idle);
}

-- A test completes the barrier exactly when the rank has started it, all its children have replied,
-- and, away from the root, the parent's message is there.
pub barrier_test_completes :
    (parent : Option ℕ) (kids : List ℕ) (b : BarrierState) (m pm : Bool)
    → IsOpen (length kids) b
    → ((barrier_test parent kids b m pm).0 ≡ true) ↔ (
        (b.barrier_started ≡ true)
        × (b.barrier_replies + bit (takes (length kids) b m) ≡ length kids)
        × ((parent ≡ none) ⊎ (pm ≡ true)))
unfolding barrier_test
barrier_test_completes none kids b m pm v = ground (arith, v.all_in)
barrier_test_completes (some p) kids b m pm v = ground (arith, v.all_in)

-- One test in numbers: replies received, barriers completed, messages sent.
pub barrier_test_counts :
    (p : ℕ) (kids : List ℕ) (b : BarrierState) (m pm : Bool)
    → IsOpen (length kids) b
    → let (done, b1, sent) = barrier_test (some p) kids b m pm in
      (b.barrier_replies + bit (takes (length kids) b m)
        ≡ b1.barrier_replies + bit done * length kids)
      × (length sent + bit b.barrier_up ≡ bit b1.barrier_up + bit done * suc (length kids))
unfolding barrier_test
barrier_test_counts p kids b m pm v =
    ground (arith, v.all_in, v.idle, length-to_children kids Message.barrier)
