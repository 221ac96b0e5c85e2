-- ===== src/Reduce/Rules.antt =====
-- What a reduction adds up on one rank.
use circle.Prelude.{
  ℕ, ◌+◌, ◌≡◌, refl, ap, Bool, true, ◌&&◌, List, [], ◌∷◌, ◌++◌, Option, none, some, arith, length,
  if◌then◌else◌, ◌∙◌, sym, length-append, and-true, and_assoc,
}
use circle.State.{ReduceState}
use circle.Reduce.{
  Reply, Callbacks, circle_reduce, call_operation, call_init, take_reply, take_replies, start,
}

-- The replies that are there.
abbrev pub present : List (Option Reply) → List Reply
present [] = []
present (none ∷ ms) = present ms
present (some m ∷ ms) = m ∷ present ms

abbrev pub all_valid : List Reply → Bool
all_valid [] = true
all_valid (m ∷ ms) = m.valid && all_valid ms

-- The objects of the valid replies.
abbrev pub objects_of : List Reply → ℕ
objects_of [] = 0
objects_of (m ∷ ms) = (if m.valid then m.objects else 0) + objects_of ms

-- The callbacks change the user's buffer and nothing else.
pub record SameButBuffer (r u : ReduceState) : Type 0 where
  pub outstanding : u.reduce_outstanding ≡ r.reduce_outstanding
  pub replies : u.reduce_replies ≡ r.reduce_replies
  pub valid : u.result_valid ≡ r.result_valid
  pub objects : u.result_objects ≡ r.result_objects

call_operation-same :
    (cb : Callbacks) (d : List ℕ) (r : ReduceState) → SameButBuffer r (call_operation cb d r)
unfolding call_operation circle_reduce
call_operation-same cb d r = ground arith

pub call_init-same : (cb : Callbacks) (r : ReduceState) → SameButBuffer r (call_init cb r)
unfolding call_init circle_reduce
call_init-same cb r = ground arith

-- What the replies of a list add to the state.
pub record Adds (r u : ReduceState) (ms : List Reply) : Type 0 where
  pub outstanding : u.reduce_outstanding ≡ r.reduce_outstanding
  pub replies : u.reduce_replies ≡ r.reduce_replies + length ms
  pub valid : u.result_valid ≡ r.result_valid && all_valid ms
  pub objects : u.result_objects ≡ r.result_objects + objects_of ms

pub take_reply-Adds :
    (cb : Callbacks) (r : ReduceState) (m : Reply) → Adds r (take_reply cb r m) (m ∷ [])
unfolding take_reply
take_reply-Adds cb r m = ground (
  arith,
  call_operation-same cb m.bytes (record r {
    reduce_replies = r.reduce_replies + 1;
    result_objects = r.result_objects + m.objects;
  }),
)

pub take_replies-Adds :
    (cb : Callbacks) (ms : List (Option Reply)) (r : ReduceState)
    → Adds r (take_replies cb r ms) (present ms)
unfolding take_replies
take_replies-Adds cb [] r = ground (arith, and-true r.result_valid)
take_replies-Adds cb (none ∷ ms) r = take_replies-Adds cb ms r
take_replies-Adds cb (some m ∷ ms) r = ground (
  arith,
  take_reply-Adds cb r m,
  take_replies-Adds cb ms (take_reply cb r m),
  and-true m.valid,
  and_assoc r.result_valid m.valid (all_valid (present ms)),
)

-- What an outstanding reduction has received since it started.
pub record Progress (r : ReduceState) (received : List Reply) : Type 0 where
  pub outstanding : r.reduce_outstanding ≡ true
  pub replies : r.reduce_replies ≡ length received
  pub valid : r.result_valid ≡ all_valid received
  pub objects : r.result_objects ≡ objects_of received

all_valid-append : (ms ns : List Reply) → all_valid (ms ++ ns) ≡ all_valid ms && all_valid ns
all_valid-append [] ns = refl
all_valid-append (m ∷ ms) ns =
    ap (◌&&◌ m.valid) (all_valid-append ms ns)
    ∙ sym (and_assoc m.valid (all_valid ms) (all_valid ns))

objects_of-append : (ms ns : List Reply) → objects_of (ms ++ ns) ≡ objects_of ms + objects_of ns
objects_of-append [] ns = omega arith
objects_of-append (m ∷ ms) ns = omega (arith, objects_of-append ms ns)

pub take_replies-Progress :
    (cb : Callbacks) (r : ReduceState) (received : List Reply) (ms : List (Option Reply))
    → Progress r received
    → Progress (take_replies cb r ms) (received ++ present ms)
take_replies-Progress cb r received ms p = ground (
  arith,
  take_replies-Adds cb ms r,
  all_valid-append received (present ms),
  objects_of-append received (present ms),
  length-append received (present ms),
)

-- A reduction starts with nothing received.
pub start-Progress :
    (cb : Callbacks) (kids : List ℕ) (now : ℕ) (r : ReduceState)
    → Progress (start cb kids now r).0 []
unfolding start
start-Progress cb kids now r = ground (
  arith,
  call_init-same cb (record r {
    reduce_time_last = now;
    reduce_outstanding = true;
    reduce_replies = 0;
    result_valid = true;
    result_objects = 0;
    result_bytes = 0;
  }),
)
