-- ===== src/Pool/Tests.antt =====
-- Tests of the work of a job: rank 0 makes two items, rank 1 asks, and rank 0 serves it.
use circle.Prelude.{ℕ, ◌+◌, ◌≡◌, ◌<◌, refl, false, List, [], ◌∷◌, none, inl, arith, length}
use circle.Queue.{Queue, new_queue, push}
use circle.Queue.Layout.{IsValid, new_queue-IsValid}
use circle.Queue.Push.{push_lem}
use circle.State.{State}
use circle.Pool.{Jobs, Reach, here, next, serves, asks, enqueues, enqueued, received, served}
use circle.Pool.Share.{weight, weigh}
use circle.Pool.Conserve.{in_queues, Reach-conserves}
use circle.Examples.{idle_rank, counter}

abbrev idle_ranks : ℕ → State
idle_ranks i = record idle_rank { rank = i }

abbrev start : Jobs
start = record { ranks = idle_ranks; parcels = []; made = []; processed = [] }

abbrev pub seven : List ℕ
seven = 7 ∷ []

abbrev one_made : Jobs
one_made = enqueued counter 5 1 start 0 seven

abbrev two_made : Jobs
two_made = enqueued counter 5 1 one_made 0 seven

abbrev asked : Jobs
asked = received counter 5 1 two_made 1 false none two_made.parcels

abbrev answered : Jobs
answered = served counter 5 1 asked 0 (1 ∷ []) false

pub pushed :
    (q : Queue)
    → IsValid q
    → q.count < 1000
    → q.head < 1000
    → IsValid (push 1 q seven).1
      × ((push 1 q seven).1.count ≡ q.count + 1)
      × ((push 1 q seven).1.head ≡ q.head + 1)
pushed q v few small =
    let (_, valid, _, head, count) =
      push_lem 1 (omega arith) v seven (omega arith) (omega arith) (omega (arith, few))
        (omega (arith, small)) in
    (valid, count, head)

answered-Reach : Reach counter 5 1 2 answered
answered-Reach =
    let first = pushed new_queue new_queue-IsValid (omega arith) (omega arith) in
    let second =
      pushed (push 1 new_queue seven).1 first.0 (omega (arith, first.1)) (omega (arith, first.2)) in
    next
      (next
        (next
          (next (here idle_ranks (λ i. refl) (λ i. refl)) (
            enqueues 0 seven (omega arith) (omega arith, omega arith) (omega arith) (omega arith)
              refl))
          (enqueues 0 seven (omega arith) (omega (arith, first.1), omega (arith, first.2))
            (omega arith) (omega arith) refl))
        (asks 1 false (omega arith) (inl refl)))
      (serves 0 (1 ∷ []) false (omega arith)
        (omega (arith, first.1, second.1), omega (arith, first.2, second.2)))

Reach-conserves_example :
    in_queues 1 2 length answered.ranks
      + weigh 1 length answered.parcels
      + weight length answered.processed
    ≡ weight length answered.made
Reach-conserves_example =
    Reach-conserves 1 2 length counter 5 answered (omega arith) (omega arith) answered-Reach
