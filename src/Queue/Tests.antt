-- ===== src/Queue/Tests.antt =====
-- Tests of `Queue`, on the strings "ab" and "c".
use circle.Prelude.{ℕ, elem, true, ◌↔◌, ◌+◌, ◌≤◌, ◌<◌, ◌≡◌, ◌⊎◌, List, [], ◌∷◌, arith, length}
use circle.Queue.{success, grow, push}
use circle.Queue.Dump.{dump, dump-reads}
use circle.Queue.Grow.{grow_bounds}
use circle.Queue.Layout.{contents, IsValid}
use circle.Queue.Push.{grown, push_lem, push_in_bounds}
use circle.Queue.Stack.{Op, enqueue, dequeue, run_stack}
use circle.Queue.Refine.{run, run_refines}
use circle.Examples.{two_items, two_items-IsValid}

abbrev seven : List ℕ
seven = 7 ∷ []

abbrev calls : List Op
calls = enqueue (1 ∷ 2 ∷ []) ∷ dequeue ∷ dequeue ∷ enqueue [] ∷ dequeue ∷ dequeue ∷ []

run_refines_example : run 1 two_items calls ≡ run_stack (contents two_items) calls
run_refines_example =
    run_refines 1 (omega arith) calls two_items two_items-IsValid
      (omega arith, (tt, (tt, (omega arith, (tt, (tt, tt)))))) (omega arith) (omega arith)

push_lem_example :
    ((push 1 two_items seven).0 ≡ success)
    × IsValid (push 1 two_items seven).1
    × (contents (push 1 two_items seven).1 ≡ seven ∷ contents two_items)
    × ((push 1 two_items seven).1.head ≡ two_items.head + length seven)
    × ((push 1 two_items seven).1.count ≡ two_items.count + 1)
push_lem_example =
    push_lem 1 (omega arith) two_items-IsValid seven (omega arith) (omega arith) (omega arith)
      (omega arith)

push_in_bounds_example :
    let q =
      grown 1
        (omega arith)
        two_items-IsValid
        seven
        (omega arith)
        (omega arith)
        (omega arith)
        (omega arith) in
    (q.count < q.strings.size) × (q.head + length seven ≤ q.base.size)
push_in_bounds_example =
    push_in_bounds 1 (omega arith) two_items-IsValid seven (omega arith) (omega arith) (omega arith)
      (omega arith)

grow_bounds_example :
    (1000 ≤ grow 1001 512 0 1000)
    × (0 ≤ grow 1001 512 0 1000)
    × ((grow 1001 512 0 1000 ≡ 0) ⊎ (grow 1001 512 0 1000 < 1000 + 512))
grow_bounds_example = grow_bounds 1001 512 0 1000 (omega arith) (omega arith) (omega arith)

dump-reads_example :
    (elem 4096 (dump two_items) ≡ true) ↔ ((0 < 4096) × (4096 ≤ two_items.base.size))
dump-reads_example = dump-reads two_items 4096
