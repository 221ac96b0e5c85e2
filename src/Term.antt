-- ===== src/Term.antt =====
-- src/state.cpp, `checkForTermAllReduce`: termination by an allreduce over the tree of ranks.
-- `parent` and `kids` are the rank's place in the tree, `flags` the messages of children that the
-- probes find, in order, and `reply` the parent's message, if a probe finds one.
pub mod Rules
pub mod System
pub mod Moves
pub mod Flags
pub mod Invariant
pub mod Safety
pub mod Completes
mod Tests
use circle.Prelude.{
  ℕ, ◌+◌, Bool, true, false, not, ◌&&◌, List, [], ◌∷◌, ◌++◌, Option, none, some, ltb, ◌==◌,
  if◌then◌else◌, length,
}
use circle.State.{Color, white, terminate, TermState, Message, Send, to_children}

-- `while (term_replies < nchildren)`: receive flags until none is found. What is left stays in
-- the mailbox.
unfoldable pub collect : ℕ → TermState → List Bool → TermState × List Bool
collect nchildren t [] = (t, [])
collect nchildren t (f ∷ flags) =
    let t1 : TermState = record t {
      term_flag = t.term_flag && f;
      term_replies = t.term_replies + 1;
    } in
    let rest = collect nchildren t1 flags in
    if ltb t.term_replies nchildren then rest else (t, f ∷ flags)

-- The step up. The first part is the local variable `term_flag`, which hides the field of that
-- name: it is 0 when it is sent, and 1 afterwards.
unfoldable pub send_up : Option ℕ → ℕ → TermState → Bool × TermState × List Send
send_up parent nchildren t =
    let sent : List Send = elim parent [ none ↦ [] | some p ↦ (p, Message.term false) ∷ [] ] in
    if not t.term_up && (t.term_replies == nchildren)
    then (true, record t { term_up = true }, sent)
    else (false, t, [])

-- The step down: the result, if the allreduce is complete.
unfoldable pub receive_down : Option ℕ → Bool → TermState → Option Bool → Option Bool
receive_down none local_flag t reply = if t.term_up then some local_flag else none
receive_down (some _) local_flag t reply = if t.term_up then reply else none

-- The result, sent to the children, and the state for another allreduce.
unfoldable pub finish : List ℕ → TermState → Option Bool → Color × TermState × List Send
finish kids t none = (white, t, [])
finish kids t (some result) = (
  if result then terminate else white,
  record t { term_up = false; term_replies = 0 },
  to_children kids (Message.term result),
)

unfoldable pub check_for_term_all_reduce :
    Option ℕ → List ℕ → TermState → List Bool → Option Bool → Color × TermState × List Send
unfolding send_up receive_down finish
check_for_term_all_reduce parent kids t flags reply =
    let (t1, _) = collect (length kids) t flags in
    let (local_flag, t2, up) = send_up parent (length kids) t1 in
    let (color, t3, down) = finish kids t2 (receive_down parent local_flag t2 reply) in
    if ltb 0 t1.work_outstanding then (white, t1, []) else (color, t3, up ++ down)
