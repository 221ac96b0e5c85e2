-- ===== src/Python.antt =====
-- src/python/lanl_circle.cpp: the functions of the Python module on a `Circle`. A callback is a
-- function on the queue; the bytes of an item are a list of numbers.
pub mod Items
mod Tests
use circle.Prelude.{ℕ, Bool, true, List, [], Option, none, some}
use circle.Queue.{Queue, Status}
use circle.Checkpoint.{Disk}
use circle.Reduce.{Callbacks}
use circle.State.{Send}
use circle.Setup.{Answers, MpiCall, init}
use circle.Loop.{Inputs}
use circle.Loop.Main.{Last, Run}
use circle.Api.{enqueue, dequeue, get_local_queue_size}
use circle.Instance.{
  CircleImpl, new_reducing, new_simple, get_log_level, set_log_level, get_runtime_flags,
  set_runtime_flags, get_tree_width, set_tree_width, get_reduce_period, set_reduce_period, get_rank,
  reduce, abort, restart, save,
}
use circle.Instance.Execute.{execute}

-- `create` takes two callbacks, or those of a reduction too.
unfoldable pub py_create :
    (comm_rank garbage : ℕ) → (Queue → Queue) → (Queue → Queue) → Option Callbacks → ℕ → CircleImpl
py_create comm_rank garbage create process none flags =
    new_simple comm_rank garbage create process flags
py_create comm_rank garbage create process (some callbacks) flags =
    new_reducing comm_rank garbage create process callbacks flags

unfoldable pub py_get_log_level : CircleImpl → ℕ
py_get_log_level c = get_log_level c

unfoldable pub py_set_log_level : CircleImpl → ℕ → CircleImpl
py_set_log_level c level = set_log_level level c

-- Two functions are registered as `get_runtime_flags`: the second argument chooses.
unfoldable pub py_get_runtime_flags : CircleImpl → Option ℕ → Option ℕ × CircleImpl
py_get_runtime_flags c none = (some (get_runtime_flags c), c)
py_get_runtime_flags c (some flags) = (none, set_runtime_flags flags c)

unfoldable pub py_get_tree_width : CircleImpl → ℕ
py_get_tree_width c = get_tree_width c

unfoldable pub py_set_tree_width : CircleImpl → ℕ → CircleImpl
py_set_tree_width c width = set_tree_width width c

unfoldable pub py_get_reduce_period : CircleImpl → ℕ
py_get_reduce_period c = get_reduce_period c

unfoldable pub py_set_reduce_period : CircleImpl → ℕ → CircleImpl
py_set_reduce_period c secs = set_reduce_period secs c

unfoldable pub py_get_rank : CircleImpl → ℕ
py_get_rank c = get_rank c

-- The item is not looked at: a null buffer of size 0 is passed on.
unfoldable pub py_reduce : CircleImpl → List ℕ → CircleImpl
py_reduce c item = reduce [] c

unfoldable pub py_execute :
    (ℕ → ℕ × ℕ)
    → ℕ
    → ℕ
    → Bool
    → CircleImpl
    → (size now : ℕ) → List Inputs
    → List Inputs
    → Last
    → Run × List Send × Bool
py_execute rand_r fuel page_size allocates c size now working cleaning l =
    execute rand_r fuel page_size allocates c size now working cleaning l

unfoldable pub py_abort : CircleImpl → CircleImpl
py_abort c = abort c

unfoldable pub py_read_restarts : ℕ → (ℕ → Option (List ℕ)) → CircleImpl → Status × CircleImpl
py_read_restarts page_size files c = restart page_size files c

unfoldable pub py_checkpoint :
    Disk → (ℕ → Option (List ℕ)) → CircleImpl → Status × (ℕ → Option (List ℕ)) × CircleImpl
py_checkpoint d files c = save d files c

unfoldable pub py_enqueue : ℕ → CircleImpl → List ℕ → Status × CircleImpl
unfolding enqueue
py_enqueue page_size c element =
    let (s, q) = enqueue page_size c.queue element in (s, record c { queue = q })

-- The status of `dequeue` is not looked at.
unfoldable pub py_dequeue : CircleImpl → List ℕ × CircleImpl
unfolding dequeue
py_dequeue c = let (_, element, q) = dequeue c.queue [] in (element, record c { queue = q })

unfoldable pub py_get_local_queue_size : CircleImpl → ℕ
unfolding get_local_queue_size
py_get_local_queue_size c = get_local_queue_size c.queue

unfoldable pub py_init : Answers → Status × Bool × List MpiCall
py_init a = init a
