-- ===== src/Python/Items.antt =====
-- The queue as a Python program sees it.
use circle.Prelude.{ℕ, ◌+◌, ◌*◌, ◌^◌, ◌≤◌, ◌<◌, ◌≡◌, sym, ap, ◌∙◌, List, [], arith, length, subst}
use circle.Queue.{Queue, Status, success, push, pop}
use circle.Queue.Layout.{contents, IsValid}
use circle.Queue.Push.{push_lem}
use circle.Queue.Pop.{Pops, pop-Pops}
use circle.Api.{enqueue, dequeue, get_local_queue_size}
use circle.Instance.{CircleImpl}
use circle.Python.{py_enqueue, py_dequeue, py_get_local_queue_size}

-- An item of 1 to 2 ^ 31 - 1 bytes that a Python program adds to a valid queue is counted, and is
-- what it gets back next; the queue then holds what it held before, and is valid. The number of
-- strings and the pool fit an `int`, and the page size is positive.
pub py_enqueue_dequeue :
    (page_size : ℕ) (c : CircleImpl) (x : List ℕ)
    → 0 < page_size
    → 2 ^ 32 + page_size * 4096 ≤ 2 ^ 64
    → IsValid c.queue
    → 0 < length x
    → length x < 2 ^ 31
    → c.queue.count < 2 ^ 31
    → c.queue.head < 2 ^ 31
    → let (s, c1) = py_enqueue page_size c x in
      let (y, c2) = py_dequeue c1 in
      (s ≡ success)
      × (py_get_local_queue_size c1 ≡ c.queue.count + 1)
      × (y ≡ x)
      × IsValid c2.queue
      × (contents c2.queue ≡ contents c.queue)
unfolding py_enqueue py_dequeue py_get_local_queue_size enqueue dequeue get_local_queue_size
py_enqueue_dequeue page_size c x pages room v pos short few small =
    let (done, valid, holds, _, count) =
      push_lem page_size pages v x pos (omega (arith, short)) few
        (omega (arith, small, short, room)) in
    let q = (push page_size c.queue x).1 in
    let (q1, r, v1, held, _, _) = subst (λ l. Pops q [] l (pop q [])) holds (pop-Pops q [] valid) in
    (
      done,
      omega (arith, count, few),
      ap (λ (t : Status × List ℕ × Queue). t.1) r,
      subst IsValid (sym (ap (λ (t : Status × List ℕ × Queue). t.2) r)) v1,
      ap (λ (t : Status × List ℕ × Queue). contents t.2) r ∙ held,
    )
