-- ===== src/Job.antt =====
-- src/state.cpp: the two collective operations that end a run, `abortReduce` and `reduceSync`, over
-- the whole tree of ranks. What a rank receives is read off the messages that its neighbours send.
pub mod Aborts
pub mod Totals
mod Tests
use circle.Prelude.{
  ℕ, ◌+◌, Bool, true, false, ◌||◌, List, [], ◌∷◌, Option, none, some, ◌==◌, if◌then◌else◌,
}
use circle.State.{State, Message, Send}
use circle.Abort.{abort_reduce}
use circle.Reduce.{Callbacks, Reply, Result, reduce_sync}

-- A rank with the subtrees of its children.
mutual
  pub data Subtree : Type 0 where
    node : State → Subtrees → Subtree

  pub data Subtrees : Type 0 where
    no_more : Subtrees
    child : Subtree → Subtrees → Subtrees

abbrev pub root : Subtree → ℕ
root (node s kids) = s.rank

abbrev pub roots : Subtrees → List ℕ
roots no_more = []
roots (child t ts) = root t ∷ roots ts

-- The flag that a message of `abortReduce` carries.
abbrev pub flag_of : Message → Bool → Bool
flag_of (Message.abort_reduce flag) other = flag
flag_of _ other = other

-- What goes up: the first message.
abbrev pub first_flag : List Send → Bool
first_flag [] = false
first_flag (m ∷ sent) = flag_of m.1 false

-- What a rank gets of the messages of another.
abbrev pub flag_for : ℕ → List Send → Bool → Bool
flag_for r [] flag = flag
flag_for r (m ∷ sent) flag = flag_for r sent (if m.0 == r then flag_of m.1 flag else flag)

-- The messages of a child of `parent`, before it has the result, and the flags of all children.
unfoldable mutual
  pub abort_up : ℕ → Subtree → List Send
  abort_up parent (node s kids) =
      (abort_reduce (some parent) (roots kids) s.aborts (abort_flags s.rank kids) false).1

  pub abort_flags : ℕ → Subtrees → List Bool
  abort_flags parent no_more = []
  abort_flags parent (child t ts) = first_flag (abort_up parent t) ∷ abort_flags parent ts

-- All ranks after `abortReduce`.
unfoldable mutual
  pub abort_all : Option ℕ → Bool → Subtree → Subtree
  abort_all parent result (node s kids) =
      let (a, sent) = abort_reduce parent (roots kids) s.aborts (abort_flags s.rank kids) result in
      node (record s { aborts = a }) (abort_below s.rank sent kids)

  pub abort_below : ℕ → List Send → Subtrees → Subtrees
  abort_below parent sent no_more = no_more
  abort_below parent sent (child t ts) =
      child (abort_all (some parent) (flag_for (root t) sent false) t) (abort_below parent sent ts)

-- The data that follow a result.
abbrev pub bytes_of : List Send → List ℕ
bytes_of [] = []
bytes_of (m ∷ sent) = bytes_in m.1
  where
    bytes_in : Message → List ℕ
    bytes_in (Message.reduce_bytes bytes) = bytes
    bytes_in _ = []

-- What a parent receives: the numbers, and the data if there are some.
abbrev pub reply_in : Message → List Send → Reply
reply_in (Message.reduce_result valid objects bytes) sent = record {
  valid = valid;
  objects = objects;
  bytes = bytes_of sent;
}
reply_in _ sent = record { valid = false; objects = 0; bytes = [] }

abbrev pub reply_of : List Send → Reply
reply_of [] = record { valid = false; objects = 0; bytes = [] }
reply_of (m ∷ sent) = reply_in m.1 sent

unfoldable mutual
  pub result_up : Callbacks → ℕ → Subtree → List Send
  result_up cb parent (node s kids) =
      (reduce_sync cb (some parent) s.reduces s.work.local_objects_processed
        (results_up cb s.rank kids)).1

  pub results_up : Callbacks → ℕ → Subtrees → List Reply
  results_up cb parent no_more = []
  results_up cb parent (child t ts) = reply_of (result_up cb parent t) ∷ results_up cb parent ts

-- What the root of all ranks delivers at the end.
unfoldable pub final_result : Callbacks → Subtree → Option Result
final_result cb (node s kids) =
    (reduce_sync cb none s.reduces s.work.local_objects_processed (results_up cb s.rank kids)).2
