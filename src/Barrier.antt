-- ===== src/Barrier.antt =====
-- src/state.cpp, `barrierStart` and `barrierTest`: the non-blocking barrier over the tree of ranks.
-- `parent` and `kids` are the rank's place in the tree; `child_message` and `parent_message` say
-- whether the probes find a barrier message of a child and of the parent.
pub mod Rules
pub mod Runs
pub mod System
pub mod Moves
pub mod Safety
pub mod Amount
pub mod Completes
mod Tests
use circle.Prelude.{
  ℕ, ◌+◌, Bool, true, false, not, ◌&&◌, List, [], ◌∷◌, ◌++◌, Option, none, some, ltb, ◌==◌,
  if◌then◌else◌, length,
}
use circle.State.{BarrierState, Message, Send, to_children}

unfoldable pub barrier_start : BarrierState → BarrierState
barrier_start b = record b { barrier_started = true }

-- One message of a child is received, if one is missing and one is there.
unfoldable pub take_reply : ℕ → BarrierState → Bool → BarrierState
take_reply nchildren b child_message =
    if ltb b.barrier_replies nchildren && child_message
    then record b { barrier_replies = b.barrier_replies + 1 }
    else b

-- Once all children have replied, the parent is told.
unfoldable pub go_up : Option ℕ → ℕ → BarrierState → BarrierState × List Send
go_up parent nchildren b =
    let sent : List Send = elim parent [ none ↦ [] | some p ↦ (p, Message.barrier) ∷ [] ] in
    if not b.barrier_up && (b.barrier_replies == nchildren)
    then (record b { barrier_up = true }, sent)
    else (b, [])

-- Is the barrier complete?
unfoldable pub is_complete : Option ℕ → BarrierState → Bool → Bool
is_complete none b parent_message = b.barrier_up
is_complete (some _) b parent_message = b.barrier_up && parent_message

abbrev pub no_barrier : BarrierState
no_barrier = record { barrier_started = false; barrier_up = false; barrier_replies = 0 }

unfoldable pub barrier_test :
    Option ℕ → List ℕ → BarrierState → Bool → Bool → Bool × BarrierState × List Send
unfolding take_reply go_up is_complete
barrier_test parent kids b child_message parent_message =
    let b1 = take_reply (length kids) b child_message in
    let (b2, up) = go_up parent (length kids) b1 in
    if not b.barrier_started
    then (false, b, [])
    else if is_complete parent b2 parent_message
    then (true, no_barrier, up ++ to_children kids Message.barrier)
    else (false, b2, up)
