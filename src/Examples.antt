-- ===== src/Examples.antt =====
-- Concrete data for the tests: queues, ranks and what their probes find.
use circle.Prelude.{ℕ, zero, suc, ◌+◌, refl, true, false, [], ◌∷◌, none, some, arith}
use circle.Queue.{Queue, new_queue}
use circle.Queue.Layout.{IsValid}
use circle.State.{white, black, TokenState, TermState, AbortState, ReduceState, State}
use circle.Barrier.{no_barrier}
use circle.Reduce.{Callbacks}
use circle.Checkpoint.{Disk}
use circle.Loop.{Inputs}

-- The strings "ab" and "c".
abbrev pub two_bytes : ℕ → ℕ
two_bytes i = 97 + i

abbrev pub two_offsets : ℕ → ℕ
two_offsets zero = 0
two_offsets (suc i) = 2

abbrev pub two_items : Queue
two_items = record {
  base = record { size = 4096; cell = two_bytes };
  head = 3;
  strings = record { size = 512; cell = two_offsets };
  count = 2;
}

pub two_items-IsValid : IsValid two_items
two_items-IsValid = record {
  layout = (omega arith, (omega arith, refl));
  base_in = omega arith;
  strings_in = omega arith;
  small = omega arith;
}

abbrev pub good_disk : Disk
good_disk = record { opens = true; prints = λ i. true; closes = true }

-- A generator whose numbers count up.
abbrev pub counter : ℕ → ℕ × ℕ
counter seed = (seed, seed + 1)

abbrev pub no_token : TokenState
no_token = record {
  token_is_local = false;
  token_proc = white;
  token_buf = white;
  token_src = 0;
  token_dest = 2;
  token_send_pending = false;
}

abbrev pub black_rank : TokenState
black_rank = record no_token { token_proc = black }

abbrev pub holder : TokenState
holder = record no_token { token_is_local = true }

abbrev pub fresh_term : TermState
fresh_term = record { work_outstanding = 0; term_flag = true; term_up = false; term_replies = 0 }

abbrev pub no_abort : AbortState
no_abort = record {
  abort_flag = false;
  abort_state = false;
  abort_outstanding = false;
  abort_num_req = 4;
}

abbrev pub no_reduction : ReduceState
no_reduction = record {
  reduce_enabled = true;
  reduce_time_last = 0;
  reduce_time_interval = 10;
  reduce_outstanding = false;
  reduce_replies = 0;
  result_valid = false;
  result_objects = 0;
  result_bytes = 0;
  reduce_buf = [];
  reduce_buf_size = 0;
}

-- A reduction of a rank that has started it, and has no reply so far.
abbrev pub started_reduction : ReduceState
started_reduction = record no_reduction { reduce_outstanding = true; result_valid = true }

abbrev pub no_callbacks : Callbacks
no_callbacks = record { init = none; operation = none; finalize = true }

-- Rank 1 of 4, in a binary tree: its parent is rank 0, its child is rank 3.
abbrev pub rank_one : State
rank_one = record {
  rank = 1;
  size = 4;
  queue = two_items;
  split_equal = true;
  term_tree_enabled = true;
  tree = record {
    rank = 1;
    nranks = 4;
    parent_rank = some 0;
    nchildren = 1;
    children_ranks = some 3 ∷ none ∷ [];
    max_children = 2;
  };
  tokens = no_token;
  terms = fresh_term;
  barriers = no_barrier;
  aborts = no_abort;
  reduces = no_reduction;
  work = record {
    offsets_count = 512;
    seed = 2;
    next_processor = some 0;
    work_requested = false;
    work_requested_rank = 0;
    local_objects_processed = 0;
    local_work_requested = 0;
    local_no_work_received = 0;
  };
}

-- A rank without work, before and after it has asked rank 0 for some.
abbrev pub idle_rank : State
idle_rank = record rank_one { queue = new_queue }

abbrev pub waiting_rank : State
waiting_rank = record idle_rank { work = record idle_rank.work { work_requested = true } }

abbrev pub one_request : Inputs
one_request = record {
  requestors = 3 ∷ [];
  receipts = 0;
  abort_from = none;
  aborts_done = false;
  now = 1;
  reduce_asked = false;
  reduce_replies = [];
  work_reply = none;
  token = none;
  token_arrived = false;
  term_flags = [];
  term_reply = none;
  barrier_child = false;
  barrier_parent = false;
}
