-- ===== src/Traffic/Tests.antt =====
-- Tests of the messages of work: rank 0 makes an item, and rank 1 asks for one.
use circle.Prelude.{
  ℕ, ◌+◌, ◌≤◌, ◌<◌, ◌≡◌, refl, true, false, [], ◌∷◌, none, some, inl, arith, length, ==→eq,
}
use circle.Queue.{new_queue, push, pop}
use circle.Queue.Layout.{IsValid, new_queue-IsValid}
use circle.State.{State, get_next_proc, pick_proc}
use circle.Receive.{request_work, ask}
use circle.Pool.{enqueued, dequeued}
use circle.Pool.Share.{weight}
use circle.Pool.Tests.{seven, pushed}
use circle.Traffic.{
  Traffic, requested, Reach, here, next, asks, enqueues, dequeues, occurrences, requests_to, Moves,
}
use circle.Traffic.Serve.{between, works_from}
use circle.Traffic.Receive.{waits_for}
use circle.Traffic.Pairs.{Reach-paired, Reach-outstanding}
use circle.Traffic.Done.{idle_job_done}
use circle.Traffic.Room.{requestors_fit}
use circle.Traffic.Answer.{waiting_ends}
use circle.Examples.{idle_rank, counter}

abbrev two_ranks : ℕ → State
two_ranks i = record idle_rank {
  rank = i;
  size = 2;
  work = record idle_rank.work { next_processor = some 0 };
}

abbrev none_made : Traffic
none_made = record {
  jobs = record { ranks = two_ranks; parcels = []; made = []; processed = [] };
  requests = λ a b. 0;
  receipts = λ b. 0;
}

abbrev one_made : Traffic
one_made = record none_made { jobs = enqueued counter 5 1 none_made.jobs 0 seven }

abbrev one_asked : Traffic
one_asked = requested counter 5 1 one_made 1 false

abbrev one_taken : Traffic
one_taken = record one_made { jobs = dequeued one_made.jobs 0 }

first :
    IsValid (push 1 new_queue seven).1
    × ((push 1 new_queue seven).1.count ≡ 1)
    × ((push 1 new_queue seven).1.head ≡ 1)
first = pushed new_queue new_queue-IsValid (omega arith) (omega arith)

one_made-Reach : Reach counter 5 1 2 one_made
one_made-Reach =
    next
      (here two_ranks (λ i. refl) (λ i. refl) (λ i. refl) (λ i. refl) (λ i r e. ground (arith, e)))
      (enqueues 0 seven (omega arith) (omega arith, omega arith) (omega arith) (omega arith) refl)

one_asked-Reach : Reach counter 5 1 2 one_asked
one_asked-Reach = next one_made-Reach (asks 1 false (omega arith) (inl refl))

one_taken-Reach : Reach counter 5 1 2 one_taken
one_taken-Reach = next one_made-Reach (dequeues 0 (omega arith) (omega (arith, first.1)))

one_sent : requests_to 0 (request_work counter 5 1 true (two_ranks 1) false none).2 ≡ 1
unfolding request_work ask
one_sent = refl

one_waits : (request_work counter 5 1 true (two_ranks 1) false none).1.work.work_requested ≡ true
unfolding request_work ask get_next_proc pick_proc
one_waits = refl

rank_zero_asked :
    (request_work counter 5 1 true (two_ranks 1) false none).1.work.work_requested_rank ≡ 0
unfolding request_work ask get_next_proc pick_proc
rank_zero_asked = refl

none_left : (pop (push 1 new_queue seven).1 []).2.count ≡ 0
unfolding pop
none_left = ground (arith, first.1)

Reach-paired_example :
    one_asked.requests 1 0 + between 0 1 one_asked.jobs.parcels
    ≡ waits_for (one_asked.jobs.ranks 1) 0
Reach-paired_example =
    Reach-paired 1 2 counter 5 one_asked 1 0 (omega arith) (omega arith) one_asked-Reach

Reach-outstanding_example :
    (one_asked.jobs.ranks 0).terms.work_outstanding
    ≡ works_from 0 one_asked.jobs.parcels + one_asked.receipts 0
Reach-outstanding_example =
    Reach-outstanding 1 2 counter 5 one_asked 0 (omega arith) (omega arith) one_asked-Reach

all_empty : (i : ℕ) → i < 2 → (one_taken.jobs.ranks i).queue.count ≡ 0
all_empty i lt = ground (arith, none_left)

idle_job_done_example : weight length one_taken.jobs.processed ≡ weight length one_taken.jobs.made
idle_job_done_example =
    idle_job_done 1 2 length counter 5 one_taken (omega arith) (omega arith) one_taken-Reach
      (λ i lt. ground arith) all_empty

requestors_fit_example : ((a : ℕ) → occurrences a (1 ∷ []) ≤ 1) × (length {A = ℕ} (1 ∷ []) ≤ 2)
requestors_fit_example =
    requestors_fit 1 2 counter 5 one_asked 0 (1 ∷ []) (omega arith) (omega arith) one_asked-Reach
      (λ a. ground (arith, one_sent, ==→eq a 1))

waiting_ends_example :
    (n : ℕ) × (v : Traffic) × (n ≤ 2)
    × Moves counter 5 1 2 one_asked n v
    × ((v.jobs.ranks 1).work.work_requested ≡ false)
waiting_ends_example =
    waiting_ends 1 2 counter 5 one_asked 1 (omega arith) (omega arith) one_asked-Reach (omega arith)
      (rw rank_zero_asked (omega (arith, first.1), omega (arith, first.2))) one_waits
