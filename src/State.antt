-- ===== src/State.antt =====
-- include/token.hpp, src/state.cpp: the data of `State`, what one rank keeps while it works, in the
-- groups of the class's comments, and the messages that ranks exchange. A flag that only ever holds
-- 0 or 1 is a `Bool`; MPI_PROC_NULL is `none`. A handler takes what its probes find as arguments and
-- returns the messages that it sends, in order.
pub mod Sends
use circle.Prelude.{
  ℕ, zero, suc, ◌+◌, ◌-◌, ◌*◌, ◌%◌, Bool, true, false, List, [], Option, none, some, map, ltb, ◌==◌,
  if◌then◌else◌,
}
use circle.Queue.{Queue}
use circle.Tree.{TreeState, make_tree}

-- WHITE, BLACK and TERMINATE of `enum tags`: the colour of a token or of a process.
pub data Color : Type 0 where
  white black terminate : Color

unfoldable pub is_white : Color → Bool
is_white white = true
is_white black = false
is_white terminate = false

unfoldable pub is_black : Color → Bool
is_black white = false
is_black black = true
is_black terminate = false

unfoldable pub is_terminate : Color → Bool
is_terminate white = false
is_terminate black = false
is_terminate terminate = true

-- What is sent, by tag. A work reply is a message of `int`s (32-bit patterns), and one of bytes if
-- it carries work.
pub data Message : Type 0 where
  work_request : Message
  work_reply : List ℕ → Message
  work_chars : List ℕ → Message
  work_receipt : Message
  token : Color → Message
  reduce_start : Message
  reduce_result : (valid : Bool) (objects bytes : ℕ) → Message
  reduce_bytes : List ℕ → Message
  barrier : Message
  term : Bool → Message
  abort_request : Message
  abort_reply : Message
  abort_reduce : Bool → Message

-- A message and the rank that it goes to.
abbrev pub Send : Type 0
Send = ℕ × Message

-- A message to each of some ranks, as the loops over the children send it.
abbrev pub to_children : List ℕ → Message → List Send
to_children ranks m = map (λ r. (r, m)) ranks

-- "tracks state of token"
pub record TokenState : Type 0 where
  pub token_is_local : Bool
  pub token_proc : Color
  pub token_buf : Color
  pub token_src : ℕ
  pub token_dest : ℕ
  pub token_send_pending : Bool

-- "manage state for termination allreduce operations"
pub record TermState : Type 0 where
  pub work_outstanding : ℕ
  pub term_flag : Bool
  pub term_up : Bool
  pub term_replies : ℕ

-- "manage state for barrier operations"
pub record BarrierState : Type 0 where
  pub barrier_started : Bool
  pub barrier_up : Bool
  pub barrier_replies : ℕ

-- "manage state for abort broadcast tree", with the global abort variable
pub record AbortState : Type 0 where
  pub abort_flag : Bool
  pub abort_state : Bool
  pub abort_outstanding : Bool
  pub abort_num_req : ℕ

-- "manage state for reduction operations"; times are numbers of one clock, and the user's data is
-- the buffer that `Circle::reduce` fills, with its size.
pub record ReduceState : Type 0 where
  pub reduce_enabled : Bool
  pub reduce_time_last : ℕ
  pub reduce_time_interval : ℕ
  pub reduce_outstanding : Bool
  pub reduce_replies : ℕ
  pub result_valid : Bool
  pub result_objects : ℕ
  pub result_bytes : ℕ
  pub reduce_buf : List ℕ
  pub reduce_buf_size : ℕ

-- Requests for work, the offset arrays' length, and the counters.
pub record WorkState : Type 0 where
  pub offsets_count : ℕ
  pub seed : ℕ
  pub next_processor : Option ℕ
  pub work_requested : Bool
  pub work_requested_rank : ℕ
  pub local_objects_processed : ℕ
  pub local_work_requested : ℕ
  pub local_no_work_received : ℕ

pub record State : Type 0 where
  pub rank : ℕ
  pub size : ℕ
  pub queue : Queue
  pub split_equal : Bool
  pub term_tree_enabled : Bool
  pub tree : TreeState
  pub tokens : TokenState
  pub terms : TermState
  pub barriers : BarrierState
  pub aborts : AbortState
  pub reduces : ReduceState
  pub work : WorkState

-- `rand_r` takes a seed to a number and the next seed.
module _ (rand_r : ℕ → ℕ × ℕ) where
  -- `do next_processor = rand_r(&seed) % size; while (next_processor == rank)`, on fuel.
  unfoldable pub pick_proc : ℕ → ℕ → ℕ → WorkState → WorkState
  pick_proc zero size rank w = w
  pick_proc (suc fuel) size rank w =
      let (number, next_seed) = rand_r w.seed in
      let w1 = record w { seed = next_seed; next_processor = some (number % size) } in
      let rest = pick_proc fuel size rank w1 in if number % size == rank then rest else w1

  unfoldable pub get_next_proc : ℕ → ℕ → ℕ → WorkState → WorkState
  get_next_proc fuel size rank w =
      if ltb 1 size then pick_proc fuel size rank w else record w { next_processor = none }

unfoldable pub new_tokens : ℕ → ℕ → TokenState
new_tokens rank size = record {
  token_is_local = rank == 0;
  token_proc = white;
  token_buf = black;
  token_src = (rank + size - 1) % size;
  token_dest = (rank + 1 + size) % size;
  token_send_pending = false;
}

-- What the constructor reads from its `Circle`.
pub record Options : Type 0 where
  pub split_equal : Bool
  pub term_tree : Bool
  pub tree_width : ℕ
  pub reduce_period : ℕ

-- "parent + nchildren", twice
unfoldable pub num_requests : TreeState → ℕ
num_requests t = (t.nchildren + (elim t.parent_rank [ none ↦ 0 | some _ ↦ 1 ])) * 2

-- `State::State`, at time `now`; the user's reduction buffer is the one of the `Circle`.
unfoldable pub new_state :
    (rand_r : ℕ → ℕ × ℕ) (fuel : ℕ) → Options → ℕ → ℕ → Queue → ℕ → List ℕ → ℕ → State
new_state rand_r fuel o rank size queue now buf buf_size =
    let tree = make_tree rank size o.tree_width in
    let fresh : WorkState = record {
      offsets_count = queue.strings.size;
      seed = rank;
      next_processor = none;
      work_requested = false;
      work_requested_rank = 0;
      local_objects_processed = 0;
      local_work_requested = 0;
      local_no_work_received = 0;
    } in
    record {
      rank = rank;
      size = size;
      queue = queue;
      split_equal = o.split_equal;
      term_tree_enabled = o.term_tree;
      tree = tree;
      tokens = new_tokens rank size;
      terms = record { work_outstanding = 0; term_flag = true; term_up = false; term_replies = 0 };
      barriers = record { barrier_started = false; barrier_up = false; barrier_replies = 0 };
      aborts = record {
        abort_flag = false;
        abort_state = false;
        abort_outstanding = false;
        abort_num_req = num_requests tree;
      };
      reduces = record {
        reduce_enabled = ltb 0 o.reduce_period;
        reduce_time_last = now;
        reduce_time_interval = o.reduce_period;
        reduce_outstanding = false;
        reduce_replies = 0;
        result_valid = false;
        result_objects = 0;
        result_bytes = 0;
        reduce_buf = buf;
        reduce_buf_size = buf_size;
      };
      work = get_next_proc rand_r fuel size rank fresh;
    }
