-- ===== src/Queue/Refine.antt =====
-- No sequence of calls tells a valid `Queue` from the stack of what it holds.
use circle.Prelude.{
  ℕ, ◌+◌, ◌*◌, ◌^◌, ◌≤◌, ◌<◌, ◌≡◌, refl, ◌∙◌, ap, List, [], ◌∷◌, arith, length, All,
}
use circle.Queue.{Queue, success, failure, push, pop}
use circle.Queue.Layout.{contents, IsValid}
use circle.Queue.Push.{push_lem, push_refused}
use circle.Queue.Pop.{Pops, pop-Pops}
use circle.Queue.Stack.{Op, enqueue, dequeue, Reply, run_stack, bytes}

-- The calls on the real queue; a string that `pop` is given to fill is empty before.
unfoldable pub run : ℕ → Queue → List Op → List Reply
run page_size q [] = []
run page_size q (enqueue x ∷ ops) =
    let (s, q1) = push page_size q x in (s, []) ∷ run page_size q1 ops
run page_size q (dequeue ∷ ops) = let (s, out, q1) = pop q [] in (s, out) ∷ run page_size q1 ops

abbrev pub IsShort : Op → Type 0
IsShort (enqueue x) = length x < 2 ^ 32
IsShort dequeue = Unit

module _ (page_size : ℕ) (pages : 0 < page_size) where
  dequeue_refines :
      (ops : List Op) (q : Queue) (stack : List (List ℕ))
      → Pops q [] stack (pop q [])
      → ((q1 : Queue)
          → IsValid q1
          → q1.head ≤ q.head
          → q1.count ≤ q.count
          → run page_size q1 ops ≡ run_stack (contents q1) ops)
      → IsValid q
      → contents q ≡ stack
      → run page_size q (dequeue ∷ ops) ≡ run_stack stack (dequeue ∷ ops)
  unfolding run run_stack
  dequeue_refines ops q [] p ih v e =
      rw p (ap (◌∷◌ (failure, [])) (ih q v (omega arith) (omega arith) ∙ rw e))
  dequeue_refines ops q (x ∷ stack) (q1, r, v1, held, head, count) ih v e =
      rw r (ap (◌∷◌ (success, x)) (ih q1 v1 (omega arith) (omega arith) ∙ rw held))

  -- The replies of a valid queue are those of a stack, if every string has fewer than 2 ^ 32 bytes,
  -- all strings together fit into the address space, and `count` cannot overflow. The page size is
  -- positive.
  pub run_refines :
      (ops : List Op) (q : Queue)
      → IsValid q
      → All IsShort ops
      → q.head + bytes ops + page_size * 4096 ≤ 2 ^ 64
      → q.count + length ops ≤ 2 ^ 31
      → run page_size q ops ≡ run_stack (contents q) ops
  unfolding run run_stack
  run_refines [] q v short room few = refl
  run_refines (enqueue [] ∷ ops) q v short room few =
      rw (push_refused page_size q [] refl)
        (ap (◌∷◌ (failure, [])) (run_refines ops q v short.1 (omega arith) (omega arith)))
  run_refines (enqueue (c ∷ x) ∷ ops) q v short room few =
      let p =
        push_lem page_size pages v (c ∷ x) (omega arith) short.0 (omega arith) (omega arith) in
      let ih =
        run_refines ops (push page_size q (c ∷ x)).1 p.1 short.1 (omega (arith, p.3))
          (omega (arith, p.4)) in
      ground (arith, p.0, p.2, ih)
  run_refines (dequeue ∷ ops) q v short room few =
      dequeue_refines ops q (contents q) (pop-Pops q [] v)
        (λ q1 v1 h c. run_refines ops q1 v1 short.1 (omega arith) (omega arith)) v refl
