-- ===== src/Reduce.antt =====
-- src/state.cpp, `reduceCheck` and `reduceSync`, with `Circle::reduce` of src/circle.cpp: sums of
-- counters and of the user's data up the tree of ranks, in the background and at the end. The user's
-- callbacks are functions on the reduction buffer; a callback that is not set is `none`.
pub mod Rules
pub mod Whole
mod Tests
use circle.Prelude.{
  ℕ, ◌+◌, ◌≤◌, Bool, true, false, not, ◌&&◌, ◌||◌, List, [], ◌∷◌, ◌++◌, Option, none, some, take,
  ltb, leb, ◌==◌, if◌then◌else◌, length,
}
use circle.State.{ReduceState, Message, Send, to_children}

-- `Circle::reduce`: the old buffer is freed, and a new one of `size > 0` bytes is stored. The size
-- of the old one stays if there is no new one.
unfoldable pub circle_reduce : List ℕ → ReduceState → ReduceState
circle_reduce buf r =
    if ltb 0 (length buf)
    then record r { reduce_buf = buf; reduce_buf_size = length buf }
    else record r { reduce_buf = [] }

-- The callbacks: what they pass to `Circle::reduce`, given the buffer, and for the operation also
-- the data of a child. `finalize` says whether there is one.
pub record Callbacks : Type 0 where
  pub init : Option (List ℕ → List ℕ)
  pub operation : Option (List ℕ → List ℕ → List ℕ)
  pub finalize : Bool

-- A child's message: the three numbers, the last of them the length of the data that follows.
pub record Reply : Type 0 where
  pub valid : Bool
  pub objects : ℕ
  pub bytes : List ℕ

-- What the root delivers: the number of objects, and the buffer if there is a callback for it.
pub record Result : Type 0 where
  pub total : ℕ
  pub delivered : Option (List ℕ)

unfoldable pub call_init : Callbacks → ReduceState → ReduceState
call_init cb r = elim cb.init [ none ↦ r | some f ↦ circle_reduce (f r.reduce_buf) r ]

unfoldable pub call_operation : Callbacks → List ℕ → ReduceState → ReduceState
call_operation cb data_in r = elim cb.operation [
  | none ↦ r
  | some f ↦ circle_reduce (f r.reduce_buf data_in) r
]

-- A child's reply is counted, and combined if it is valid.
unfoldable pub take_reply : Callbacks → ReduceState → Reply → ReduceState
take_reply cb r m =
    let r1 : ReduceState = record r { reduce_replies = r.reduce_replies + 1 } in
    let r2 : ReduceState = record r1 { result_objects = r1.result_objects + m.objects } in
    if not m.valid
    then record r1 { result_valid = false }
    else if r2.result_valid
    then call_operation cb m.bytes r2
    else r2

-- The loop over the children; each has a reply or not.
unfoldable pub take_replies : Callbacks → ReduceState → List (Option Reply) → ReduceState
take_replies cb r [] = r
take_replies cb r (none ∷ ms) = take_replies cb r ms
take_replies cb r (some m ∷ ms) = take_replies cb (take_reply cb r m) ms

-- The data that goes up with a result.
unfoldable pub send_result : ℕ → Bool → ReduceState → List Send
send_result p checked r =
    (p, Message.reduce_result r.result_valid r.result_objects r.reduce_buf_size)
    ∷ (if ltb 0 r.reduce_buf_size && (not checked || r.result_valid)
        then (p, Message.reduce_bytes (take r.reduce_buf_size r.reduce_buf)) ∷ []
        else [])

unfoldable pub deliver : Callbacks → ReduceState → Result
deliver cb r = record {
  total = r.result_objects;
  delivered = if cb.finalize then some (take r.reduce_buf_size r.reduce_buf) else none;
}

-- With a reply of every child the result goes to the parent, or is delivered on the root.
unfoldable pub complete :
    Callbacks → Option ℕ → ℕ → ℕ → ReduceState → ReduceState × List Send × Option Result
complete cb parent nchildren count r =
    let r1 : ReduceState = record r { result_objects = r.result_objects + count } in
    let r2 : ReduceState = elim parent [
      | none ↦ r1
      | some _ ↦ record r1 { result_bytes = r1.reduce_buf_size }
    ] in
    let sent : List Send = elim parent [ none ↦ [] | some p ↦ send_result p true r2 ] in
    let result : Option Result = elim parent [
      | none ↦ if r1.result_valid then some (deliver cb r1) else none
      | some _ ↦ none
    ] in
    if r.reduce_replies == nchildren
    then (record r2 { reduce_outstanding = false }, sent, result)
    else (r, [], none)

-- A new reduction: reset, the user's contribution, and a message to every child.
unfoldable pub start :
    Callbacks → List ℕ → ℕ → ReduceState → ReduceState × List Send × Option Result
start cb kids now r =
    let r1 : ReduceState = record r {
      reduce_time_last = now;
      reduce_outstanding = true;
      reduce_replies = 0;
      result_valid = true;
      result_objects = 0;
      result_bytes = 0;
    } in
    (call_init cb r1, to_children kids Message.reduce_start, none)

-- Is it time, and does the root, or the parent's message, ask for a reduction?
unfoldable pub is_asked : Option ℕ → Bool → ℕ → Bool → ReduceState → Bool
is_asked parent cleanup now parent_message r =
    let due = leb (r.reduce_time_last + r.reduce_time_interval) now || cleanup in
    due && (elim parent [ none ↦ true | some _ ↦ parent_message ])

-- In cleanup no reduction is started: the parent gets an invalid result instead.
unfoldable pub refuse : Option ℕ → ReduceState → ReduceState × List Send × Option Result
refuse none r = (r, [], none)
refuse (some p) r =
    let r1 : ReduceState = record r { result_valid = false } in
    (r1, (p, Message.reduce_result false r1.result_objects r1.result_bytes) ∷ [], none)

unfoldable pub reduce_check :
    Callbacks
    → Option ℕ
    → List ℕ
    → ReduceState
    → ℕ
    → Bool
    → List (Option Reply)
    → ℕ
    → Bool
    → ReduceState × List Send × Option Result
unfolding is_asked refuse start complete
reduce_check cb parent kids r count cleanup replies now parent_message =
    if r.reduce_outstanding
    then complete cb parent (length kids) count (take_replies cb r replies)
    else if is_asked parent cleanup now parent_message r
    then (if cleanup then refuse parent r else start cb kids now r)
    else (r, [], none)

-- The loop of `reduceSync`: a reply of every child, taken as it comes.
unfoldable pub take_all_replies : Callbacks → ReduceState → List Reply → ReduceState
take_all_replies cb r [] = r
take_all_replies cb r (m ∷ ms) =
    let r1 : ReduceState = record r { result_objects = r.result_objects + m.objects } in
    take_all_replies cb (call_operation cb m.bytes r1) ms

-- `replies` has one message for each child.
unfoldable pub reduce_sync :
    Callbacks → Option ℕ → ReduceState → ℕ → List Reply → ReduceState × List Send × Option Result
reduce_sync cb parent r count replies =
    let fresh : ReduceState = record r {
      result_valid = true;
      result_objects = count;
      result_bytes = 0;
    } in
    let r1 = take_all_replies cb (call_init cb fresh) replies in
    elim parent [
      | none ↦ (r1, [], some (deliver cb r1))
      | some p ↦ (record r1 { result_bytes = r1.reduce_buf_size }, send_result p false r1, none)
    ]
