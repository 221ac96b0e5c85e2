-- ===== src/Instance/C.antt =====
-- src/lanl_circle.cpp, the functions of the C interface but for those on the queue: a `Circle` of C
-- is a pointer to one of C++, and enumerations are cast, which keeps the number.
use circle.Prelude.{ℕ, Bool, List, [], ◌∷◌, Option}
use circle.Queue.{Queue, Status}
use circle.Checkpoint.{Disk}
use circle.Reduce.{Callbacks}
use circle.State.{Send}
use circle.Flags.{CircleLogLevel, c_number, CircleRuntimeFlags, c_flag, or_flags}
use circle.Setup.{Answers, MpiCall, init}
use circle.Loop.{Inputs}
use circle.Loop.Main.{Last, Run}
use circle.Instance.{
  CircleImpl, new_reducing, new_simple, get_log_level, set_log_level, get_runtime_flags,
  set_runtime_flags, get_tree_width, set_tree_width, get_reduce_period, set_reduce_period, get_rank,
  reduce, abort, restart, save,
}
use circle.Instance.Execute.{execute}

-- Flags as a C program joins them with `|`.
unfoldable pub c_flags : List CircleRuntimeFlags → ℕ
c_flags [] = 0
c_flags (f ∷ fs) = or_flags (c_flag f) (c_flags fs)

unfoldable pub c_create_simple :
    (comm_rank garbage : ℕ) → (Queue → Queue) → (Queue → Queue) → ℕ → CircleImpl
c_create_simple comm_rank garbage create process flags =
    new_simple comm_rank garbage create process flags

unfoldable pub c_create :
    (comm_rank garbage : ℕ) → (Queue → Queue) → (Queue → Queue) → Callbacks → ℕ → CircleImpl
c_create comm_rank garbage create process callbacks flags =
    new_reducing comm_rank garbage create process callbacks flags

unfoldable pub c_get_log_level : CircleImpl → ℕ
c_get_log_level c = get_log_level c

unfoldable pub c_set_log_level : CircleLogLevel → CircleImpl → CircleImpl
c_set_log_level level c = set_log_level (c_number level) c

unfoldable pub c_get_runtime_flags : CircleImpl → ℕ
c_get_runtime_flags c = get_runtime_flags c

unfoldable pub c_set_runtime_flags : ℕ → CircleImpl → CircleImpl
c_set_runtime_flags flags c = set_runtime_flags flags c

unfoldable pub c_get_tree_width : CircleImpl → ℕ
c_get_tree_width c = get_tree_width c

unfoldable pub c_set_tree_width : ℕ → CircleImpl → CircleImpl
c_set_tree_width width c = set_tree_width width c

unfoldable pub c_get_reduce_period : CircleImpl → ℕ
c_get_reduce_period c = get_reduce_period c

unfoldable pub c_set_reduce_period : ℕ → CircleImpl → CircleImpl
c_set_reduce_period secs c = set_reduce_period secs c

unfoldable pub c_get_rank : CircleImpl → ℕ
c_get_rank c = get_rank c

unfoldable pub c_reduce : List ℕ → CircleImpl → CircleImpl
c_reduce buf c = reduce buf c

unfoldable pub c_execute :
    (ℕ → ℕ × ℕ)
    → ℕ
    → ℕ
    → Bool
    → CircleImpl
    → (size now : ℕ) → List Inputs
    → List Inputs
    → Last
    → Run × List Send × Bool
c_execute rand_r fuel page_size allocates c size now working cleaning l =
    execute rand_r fuel page_size allocates c size now working cleaning l

unfoldable pub c_abort : CircleImpl → CircleImpl
c_abort c = abort c

unfoldable pub c_read_restarts : ℕ → (ℕ → Option (List ℕ)) → CircleImpl → Status × CircleImpl
c_read_restarts page_size files c = restart page_size files c

unfoldable pub c_checkpoint :
    Disk → (ℕ → Option (List ℕ)) → CircleImpl → Status × (ℕ → Option (List ℕ)) × CircleImpl
c_checkpoint d files c = save d files c

unfoldable pub c_init : Answers → Status × Bool × List MpiCall
c_init a = init a
