-- ===== src/Instance.antt =====
-- include/circle.hpp and src/circle.cpp: `CircleImpl`, its constructors, options and `execute`, and
-- `Circle`, which passes everything on to it; src/lanl_circle.cpp: the same in C. A callback is a
-- function on the queue, since the queue is what it works on. An `int` option is not negative.
pub mod C
pub mod Execute
pub mod Rules
mod Tests
use circle.Prelude.{
  ℕ, length, ◌≤◌, Bool, true, false, not, ◌||◌, List, [], ◌∷◌, Option, none, some, ltb, ◌==◌,
  if◌then◌else◌,
}
use circle.Queue.{Queue, new_queue, Status}
use circle.Reduce.{Callbacks, circle_reduce}
use circle.State.{Options, ReduceState}
use circle.Checkpoint.{Disk, checkpoint, read_restarts}
use circle.Flags.{LogLevel, number, fatal, has_flag, split_equal, term_tree, label_of}

pub record CircleImpl : Type 0 where
  pub create_callback : Queue → Queue
  pub process_callback : Queue → Queue
  pub reduce_callbacks : Callbacks
  pub reduce_buf : List ℕ
  pub reduce_buf_size : ℕ
  pub reduce_period : ℕ
  pub log_level : ℕ
  pub runtime_flags : ℕ
  pub tree_width : ℕ
  pub rank : ℕ
  pub queue : Queue

-- The constructor for processing and reduction. `comm_rank` is the rank that MPI_Comm_rank finds,
-- and `garbage` what the memory of `reduce_buf_size` holds, which the constructor does not set.
unfoldable pub new_reducing :
    (comm_rank garbage : ℕ) → (Queue → Queue) → (Queue → Queue) → Callbacks → ℕ → CircleImpl
unfolding number
new_reducing comm_rank garbage create process callbacks flags = record {
  create_callback = create;
  process_callback = process;
  reduce_callbacks = callbacks;
  reduce_buf = [];
  reduce_buf_size = garbage;
  reduce_period = 0;
  log_level = number fatal;
  runtime_flags = flags;
  tree_width = 64;
  rank = comm_rank;
  queue = new_queue;
}

-- The constructor for processing: the callbacks of a reduction are null.
unfoldable pub new_simple :
    (comm_rank garbage : ℕ) → (Queue → Queue) → (Queue → Queue) → ℕ → CircleImpl
unfolding number
new_simple comm_rank garbage create process flags = record {
  create_callback = create;
  process_callback = process;
  reduce_callbacks = record { init = none; operation = none; finalize = false };
  reduce_buf = [];
  reduce_buf_size = garbage;
  reduce_period = 0;
  log_level = number fatal;
  runtime_flags = flags;
  tree_width = 64;
  rank = comm_rank;
  queue = new_queue;
}

unfoldable pub get_log_level : CircleImpl → ℕ
get_log_level c = c.log_level

unfoldable pub set_log_level : ℕ → CircleImpl → CircleImpl
set_log_level level c = record c { log_level = level }

unfoldable pub get_runtime_flags : CircleImpl → ℕ
get_runtime_flags c = c.runtime_flags

unfoldable pub set_runtime_flags : ℕ → CircleImpl → CircleImpl
set_runtime_flags flags c = record c { runtime_flags = flags }

unfoldable pub get_tree_width : CircleImpl → ℕ
get_tree_width c = c.tree_width

unfoldable pub set_tree_width : ℕ → CircleImpl → CircleImpl
set_tree_width width c = record c { tree_width = width }

unfoldable pub get_reduce_period : CircleImpl → ℕ
get_reduce_period c = c.reduce_period

unfoldable pub set_reduce_period : ℕ → CircleImpl → CircleImpl
set_reduce_period secs c = record c { reduce_period = secs }

unfoldable pub get_rank : CircleImpl → ℕ
get_rank c = c.rank

-- `Circle::reduce` before a run; in a run the buffer is the one of its state, by reference.
unfoldable pub reduce : List ℕ → CircleImpl → CircleImpl
reduce buf c =
    if ltb 0 (length buf)
    then record c { reduce_buf = buf; reduce_buf_size = length buf }
    else record c { reduce_buf = [] }

-- `Circle::abort` and `bcast_abort`: their bodies are disabled.
unfoldable pub abort : CircleImpl → CircleImpl
abort c = c

-- `Circle::log`: the label of the line, if one is written.
unfoldable pub log : ℕ → CircleImpl → Option LogLevel
unfolding get_log_level
log level c = if ltb (get_log_level c) level then none else some (label_of level)

-- `Circle::readRestarts` and `Circle::checkpoint`, on the files of all ranks.
unfoldable pub restart :
    (page_size : ℕ) (files : ℕ → Option (List ℕ)) → CircleImpl → Status × CircleImpl
restart page_size files c =
    let (s, q) = read_restarts page_size files c.rank c.queue in (s, record c { queue = q })

unfoldable pub save :
    Disk → (ℕ → Option (List ℕ)) → CircleImpl → Status × (ℕ → Option (List ℕ)) × CircleImpl
save d files c =
    let (s, files1, q) = checkpoint d files c.rank c.queue in (s, files1, record c { queue = q })
