-- ===== src/Python/Tests.antt =====
-- Tests of the Python module, on a `Circle` with the strings "ab" and "c".
use circle.Prelude.{ℕ, ◌+◌, ◌≡◌, none, some, List, [], ◌∷◌, arith, refl}
use circle.Queue.{success}
use circle.Queue.Layout.{contents, IsValid}
use circle.Instance.{CircleImpl, get_runtime_flags, set_runtime_flags}
use circle.Python.{py_create, py_get_runtime_flags, py_enqueue, py_dequeue, py_get_local_queue_size}
use circle.Python.Items.{py_enqueue_dequeue}
use circle.Examples.{two_items, two_items-IsValid}

abbrev two_queued : CircleImpl
two_queued = record (py_create 0 0 (λ q. q) (λ q. q) none 2) { queue = two_items }

abbrev new_item : List ℕ
new_item = 7 ∷ 8 ∷ []

flags_changed :
    py_get_runtime_flags (py_get_runtime_flags two_queued (some 8)).1 none
    ≡ (some 8, (py_get_runtime_flags two_queued (some 8)).1)
unfolding py_get_runtime_flags get_runtime_flags set_runtime_flags
flags_changed = refl

py_enqueue_dequeue_example :
    let (s, c1) = py_enqueue 1 two_queued new_item in
    let (y, c2) = py_dequeue c1 in
    (s ≡ success)
    × (py_get_local_queue_size c1 ≡ two_items.count + 1)
    × (y ≡ new_item)
    × IsValid c2.queue
    × (contents c2.queue ≡ contents two_items)
py_enqueue_dequeue_example =
    py_enqueue_dequeue 1 two_queued new_item (omega arith) (omega arith) two_items-IsValid
      (omega arith) (omega arith) (omega arith) (omega arith)
