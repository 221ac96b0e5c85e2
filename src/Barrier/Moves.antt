-- ===== src/Barrier/Moves.antt =====
-- A test of the barrier as a call of the protocol.
use circle.Prelude.{
  ℕ, ◌+◌, ◌≤◌, ◌≡◌, ◌⊎◌, Bool, true, false, not, ◌&&◌, ◌||◌, List, [], ◌++◌, Option, none, some,
  arith, length, ◌==◌, if◌then◌else◌,
}
use circle.State.{BarrierState, Message, to_children}
use circle.Barrier.{barrier_test}
use circle.Barrier.Rules.{IsOpen}
use circle.Barrier.System.{is_heard, messages}
use circle.Gather.Post.{to_parent}

-- Does the test go up?
abbrev pub goes : ℕ → BarrierState → List ℕ → Bool
goes nchildren b cs =
    b.barrier_started && (not b.barrier_up && (b.barrier_replies + length cs == nchildren))

pub messages-room :
    (nchildren : ℕ) (b : BarrierState) (heard : Option ℕ)
    → IsOpen nchildren b
    → b.barrier_replies + length (messages nchildren b heard) ≤ nchildren
messages-room nchildren b none v = ground (arith, v.few)
messages-room nchildren b (some c) v = ground (arith, v.few)

pub barrier_test-goes :
    (parent : Option ℕ) (kids : List ℕ) (b : BarrierState) (heard : Option ℕ) (told : Bool)
    → IsOpen (length kids) b
    → let (done, b1, sends) = barrier_test parent kids b (is_heard heard) told in
      let cs = messages (length kids) b heard in
      (done ≡ true
        → (b.barrier_up || goes (length kids) b cs ≡ true) × ((parent ≡ none) ⊎ (told ≡ true)))
      × (done ≡ false
          → (b1.barrier_replies ≡ b.barrier_replies + length cs)
            × (b1.barrier_started ≡ b.barrier_started)
            × (b1.barrier_up ≡ (b.barrier_up || goes (length kids) b cs)))
      × (sends
          ≡ (if goes (length kids) b cs then to_parent parent Message.barrier else [])
            ++ (if done then to_children kids Message.barrier else []))
unfolding barrier_test
barrier_test-goes none kids b none told v = ground (arith, v.idle)
barrier_test-goes none kids b (some c) told v = ground (arith, v.idle)
barrier_test-goes (some p) kids b none told v = ground (arith, v.idle)
barrier_test-goes (some p) kids b (some c) told v = ground (arith, v.idle)

pub barrier_test-started :
    (parent : Option ℕ) (kids : List ℕ) (b : BarrierState) (m told : Bool)
    → (barrier_test parent kids b m told).1.barrier_started ≡ true
    → b.barrier_started ≡ true
unfolding barrier_test
barrier_test-started none kids b m told h = ground (arith, h)
barrier_test-started (some p) kids b m told h = ground (arith, h)
