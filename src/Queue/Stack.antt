-- ===== src/Queue/Stack.antt =====
-- The contract of `Queue`: a stack of non-empty byte strings, top first.
use circle.Prelude.{ℕ, ◌+◌, List, [], ◌∷◌, length}
use circle.Queue.{Status, success, failure}

pub data Op : Type 0 where
  enqueue : List ℕ → Op
  dequeue : Op

-- What a caller sees of a call: the status, and the string that comes out of it.
abbrev pub Reply : Type 0
Reply = Status × List ℕ

unfoldable pub run_stack : List (List ℕ) → List Op → List Reply
run_stack stack [] = []
run_stack stack (enqueue [] ∷ ops) = (failure, []) ∷ run_stack stack ops
run_stack stack (enqueue (c ∷ x) ∷ ops) = (success, []) ∷ run_stack ((c ∷ x) ∷ stack) ops
run_stack [] (dequeue ∷ ops) = (failure, []) ∷ run_stack [] ops
run_stack (x ∷ stack) (dequeue ∷ ops) = (success, x) ∷ run_stack stack ops

-- The bytes that a list of calls pushes.
abbrev pub bytes : List Op → ℕ
bytes [] = 0
bytes (enqueue x ∷ ops) = length x + bytes ops
bytes (dequeue ∷ ops) = bytes ops
