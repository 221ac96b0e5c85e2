-- ===== src/Abort.antt =====
-- src/state.cpp, `abortStart`, `abortCheck`, `abortReduce`: the abort flag, and the request and
-- reply messages that spread it over the tree of ranks.
pub mod Rules
pub mod System
pub mod Spread
pub mod Agree
mod Tests
use circle.Prelude.{
  ℕ, ◌*◌, Bool, true, false, ◌&&◌, ◌||◌, List, [], ◌∷◌, ◌++◌, Option, none, some, ltb,
  if◌then◌else◌, length,
}
use circle.State.{AbortState, Message, Send, to_children}

-- The parent, if there is one, and the children.
abbrev pub neighbours : Option ℕ → List ℕ → List ℕ
neighbours none kids = kids
neighbours (some p) kids = p ∷ kids

-- The requests go out with a receive posted for each reply: two entries of `abort_req` each.
unfoldable pub abort_start : Option ℕ → List ℕ → Bool → AbortState → AbortState × List Send
abort_start parent kids cleanup a =
    let a1 : AbortState = record a { abort_flag = true } in
    let a2 : AbortState = record a1 { abort_state = true } in
    let around = neighbours parent kids in
    let k = 2 * length around in
    if a.abort_state then (a1, []) else if cleanup then (a2, []) else (
      if ltb 0 k then record a2 { abort_outstanding = true } else a2,
      to_children around Message.abort_request,
    )

-- The second half of a check: a request of another rank is answered and taken over.
unfoldable pub answer_request :
    Option ℕ → List ℕ → Bool → AbortState → Option ℕ → AbortState × List Send
answer_request parent kids cleanup a none = (a, [])
answer_request parent kids cleanup a (some source) =
    let (a1, sent) = abort_start parent kids cleanup a in (a1, (source, Message.abort_reply) ∷ sent)

-- `request` is the rank of which a request is found, and `all_done` the result of MPI_Testall.
unfoldable pub abort_check :
    Option ℕ → List ℕ → Bool → AbortState → Option ℕ → Bool → AbortState × List Send
unfolding abort_start answer_request
abort_check parent kids cleanup a request all_done =
    let (started, spread) = abort_start parent kids cleanup a in
    let a1 = if a.abort_flag then started else a in
    let sent1 = if a.abort_flag then spread else [] in
    let (a2, sent2) = answer_request parent kids cleanup a1 request in
    let a3 =
      if a2.abort_outstanding && all_done then record a2 { abort_outstanding = false } else a2 in
    (a3, sent1 ++ sent2)

-- `flag |= child_flag` over the children's messages
unfoldable pub join_flags : Bool → List Bool → Bool
join_flags flag [] = flag
join_flags flag (f ∷ flags) = join_flags (flag || f) flags

-- `flags` are the children's messages, one for each, and `result` is what the parent sends back.
unfoldable pub abort_reduce :
    Option ℕ → List ℕ → AbortState → List Bool → Bool → AbortState × List Send
unfolding join_flags
abort_reduce parent kids a flags result =
    let flag = join_flags a.abort_flag flags in
    let up : List Send = elim parent [ none ↦ [] | some p ↦ (p, Message.abort_reduce flag) ∷ [] ] in
    let final : Bool = elim parent [ none ↦ flag | some _ ↦ result ] in
    (
      record a { abort_flag = final; abort_state = final },
      up ++ to_children kids (Message.abort_reduce final),
    )
