-- ===== src/Api.antt =====
-- src/circle.cpp and src/lanl_circle.cpp: the queue as the callbacks see it, in C++ and in C. A C
-- pointer is given or null: of `element` only that counts, and `szelement` is the number that it
-- points to. The bytes that are copied to `element` and the number that is stored are results.
pub mod Items
mod Tests
use circle.Prelude.{
  ℕ, ◌%◌, ◌^◌, Bool, true, false, List, [], ◌∷◌, Option, none, some, length, take, min,
}
use circle.Queue.{Status, success, failure, Queue, push, pop, push_string, pop_string, last_size}

module _ (page_size : ℕ) where
  unfoldable pub enqueue : Queue → List ℕ → Status × Queue
  enqueue q element = push page_size q element

  unfoldable pub enqueue_string : Queue → List ℕ → Status × Queue
  enqueue_string q element = enqueue q element

unfoldable pub dequeue : Queue → List ℕ → Status × List ℕ × Queue
dequeue q element = pop q element

-- As in `pop_string` the string is replaced whatever the result is.
unfoldable pub dequeue_string : Queue → List ℕ → Status × List ℕ × Queue
dequeue_string q element = dequeue q []

unfoldable pub get_local_queue_size : Queue → ℕ
get_local_queue_size q = q.count % 2 ^ 32

-- `circle_enqueue`
unfoldable pub c_enqueue : ℕ → Queue → List ℕ → Status × Queue
c_enqueue page_size q element = enqueue page_size q element

-- `circle_dequeue`: the status, the bytes copied, the number stored, and the queue. The status of
-- `dequeue` is not looked at.
unfoldable pub c_dequeue : Bool → Option ℕ → Queue → Status × List ℕ × Option ℕ × Queue
unfolding dequeue
c_dequeue false none q = (failure, [], none, q)
c_dequeue false (some capacity) q = (success, [], some (last_size q), q)
c_dequeue true none q = let (_, content, q1) = dequeue q [] in (success, content, none, q1)
c_dequeue true (some capacity) q =
    let (_, content, q1) = dequeue q [] in
    (success, take (min capacity (length content)) content, some (length content), q1)

-- `circle_get_local_queue_size`
unfoldable pub c_get_local_queue_size : Queue → ℕ
c_get_local_queue_size q = get_local_queue_size q
