-- ===== src/Traffic/Done.antt =====
-- A job that has come to rest has done its work.
use circle.Prelude.{
  total_zero, ℕ, ◌+◌, ◌*◌, ◌^◌, ◌≤◌, ◌<◌, ◌≡◌, refl, ap, ◌∙◌, inl, inr, true, List, [], ◌∷◌, arith,
  subst, All, All-append, All-middle, total_same, Bool-cases,
}
use circle.State.{Message, Send}
use circle.Pool.{Parcel, parcels_of, is_work}
use circle.Pool.Share.{weight, weigh}
use circle.Pool.Receive.{empty_head}
use circle.Pool.Conserve.{in_queues, held, Reach-conserves}
use circle.Tree.Family.{ranks_from, elem-ranks_from}
use circle.Work.{workreq_check}
use circle.Traffic.{Traffic, Reach, here, next, serves, asks, receives, settles, enqueues, dequeues}
use circle.Traffic.Serve.{works_from}
use circle.Traffic.Invariant.{Traffic-Inv, Reach-jobs, kept}

-- A reply comes from a rank of the job.
abbrev InJob : ℕ → Parcel → Type 0
InJob size p = p.from < size

parcels_of-InJob :
    (size i : ℕ) (last : List ℕ) (ms : List Send)
    → i < size
    → All (InJob size) (parcels_of i last ms)
parcels_of-InJob size i last [] lt = tt
parcels_of-InJob size i last ((r, Message.work_reply said) ∷ ms) lt =
    elim (Bool-cases (is_work said)) [
      | inl w ↦ rw w (parcels_of-InJob size i said ms lt)
      | inr n ↦ rw n (lt, parcels_of-InJob size i said ms lt)
    ]
parcels_of-InJob size i last ((r, Message.work_chars cs) ∷ ms) lt =
    (lt, parcels_of-InJob size i last ms lt)
parcels_of-InJob size i last ((r, Message.work_request) ∷ ms) lt =
    parcels_of-InJob size i last ms lt
parcels_of-InJob size i last ((r, Message.work_receipt) ∷ ms) lt =
    parcels_of-InJob size i last ms lt
parcels_of-InJob size i last ((r, Message.token c) ∷ ms) lt = parcels_of-InJob size i last ms lt
parcels_of-InJob size i last ((r, Message.reduce_start) ∷ ms) lt =
    parcels_of-InJob size i last ms lt
parcels_of-InJob size i last ((r, Message.reduce_result v o b) ∷ ms) lt =
    parcels_of-InJob size i last ms lt
parcels_of-InJob size i last ((r, Message.reduce_bytes bs) ∷ ms) lt =
    parcels_of-InJob size i last ms lt
parcels_of-InJob size i last ((r, Message.barrier) ∷ ms) lt = parcels_of-InJob size i last ms lt
parcels_of-InJob size i last ((r, Message.term f) ∷ ms) lt = parcels_of-InJob size i last ms lt
parcels_of-InJob size i last ((r, Message.abort_request) ∷ ms) lt =
    parcels_of-InJob size i last ms lt
parcels_of-InJob size i last ((r, Message.abort_reply) ∷ ms) lt = parcels_of-InJob size i last ms lt
parcels_of-InJob size i last ((r, Message.abort_reduce f) ∷ ms) lt =
    parcels_of-InJob size i last ms lt

Reach-InJob :
    {rand_r : ℕ → ℕ × ℕ} {fuel page_size size : ℕ} {w : Traffic}
    → Reach rand_r fuel page_size size w
    → All (InJob size) w.jobs.parcels
Reach-InJob (here ranks fresh free none_out sizes in_job) = tt
Reach-InJob {rand_r} {size = size} (next {v} r (serves i requestors cleanup lt fits there)) =
    All-append (InJob size) v.jobs.parcels _ (Reach-InJob r) (
      parcels_of-InJob size i [] (workreq_check rand_r true (v.jobs.ranks i) requestors cleanup).1
        lt)
Reach-InJob (next r (asks i cleanup lt may)) = Reach-InJob r
Reach-InJob {size = size} (next r (receives i cleanup before p after lt there to from asked)) =
    (All-middle (InJob size) before after p (subst (All (InJob size)) there (Reach-InJob r))).1
Reach-InJob (next r (settles i n lt there out)) = Reach-InJob r
Reach-InJob (next r (enqueues i x lt fits some_bytes short free)) = Reach-InJob r
Reach-InJob (next r (dequeues i lt some_work)) = Reach-InJob r

-- Without outstanding transfers no reply under way brings work.
no_work_under_way :
    (page_size size : ℕ) (f : List ℕ → ℕ) (ps : List Parcel)
    → All (InJob size) ps
    → ((b : ℕ) → b < size → works_from b ps ≡ 0)
    → weigh page_size f ps ≡ 0
no_work_under_way page_size size f [] h idle = refl
no_work_under_way page_size size f (p ∷ ps) h idle = elim (Bool-cases (is_work p.ints)) [
  | inl w ↦ absurd (ground (arith, w, idle p.from h.0))
  | inr n ↦
      let rest = no_work_under_way page_size size f ps h.1 (λ b lt. ground (arith, n, idle b lt)) in
      rw n (omega (arith, rest))
]

module _ (page_size size : ℕ) (f : List ℕ → ℕ) (rand_r : ℕ → ℕ × ℕ) (fuel : ℕ) (w : Traffic)
    (pages : 0 < page_size) (room : 2 ^ 32 + page_size * 4096 ≤ 2 ^ 64)
    (r : Reach rand_r fuel page_size size w) where
  -- Without outstanding transfers all work is in the queues.
  all_in_queues :
      ((i : ℕ) → i < size → (w.jobs.ranks i).terms.work_outstanding ≡ 0)
      → in_queues page_size size f w.jobs.ranks + weight f w.jobs.processed ≡ weight f w.jobs.made
  all_in_queues idle =
      let inv = Traffic-Inv page_size size rand_r fuel pages room r in
      let under_way =
        no_work_under_way page_size size f w.jobs.parcels (Reach-InJob r)
          (λ b lt. omega (arith, inv.outstanding b, idle b lt)) in
      omega (
        arith,
        Reach-conserves page_size size f rand_r fuel w.jobs pages room (Reach-jobs r),
        under_way,
      )

  queues_empty :
      ((i : ℕ) → i < size → (w.jobs.ranks i).queue.count ≡ 0)
      → in_queues page_size size f w.jobs.ranks ≡ 0
  queues_empty empty =
      let valid = (kept page_size size rand_r fuel pages room r).valid in
      total_same (held page_size size f w.jobs.ranks) (λ i. 0) (ranks_from 0 size)
        (λ i m.
          ap (weight f)
            (empty_head (w.jobs.ranks i).queue (valid i)
              (empty i (omega (arith, (elem-ranks_from i 0 size).0 m)))).1)
      ∙ total_zero (ranks_from 0 size)

-- In every state that a job reaches in which no rank of the job has a transfer outstanding or an
-- item in its queue: for every measure of items the callbacks have taken what they have added, so
-- every item that was made has been processed exactly once. The pools and the numbers of strings fit
-- an `int`, an item has 1 to 2 ^ 31 - 1 bytes, the page size is positive, and the offset arrays can
-- be extended.
pub idle_job_done :
    (page_size size : ℕ) (f : List ℕ → ℕ) (rand_r : ℕ → ℕ × ℕ) (fuel : ℕ) (w : Traffic)
    → 0 < page_size
    → 2 ^ 32 + page_size * 4096 ≤ 2 ^ 64
    → Reach rand_r fuel page_size size w
    → ((i : ℕ) → i < size → (w.jobs.ranks i).terms.work_outstanding ≡ 0)
    → ((i : ℕ) → i < size → (w.jobs.ranks i).queue.count ≡ 0)
    → weight f w.jobs.processed ≡ weight f w.jobs.made
idle_job_done page_size size f rand_r fuel w pages room r idle empty = omega (
  arith,
  all_in_queues page_size size f rand_r fuel w pages room r idle,
  queues_empty page_size size f rand_r fuel w pages room r empty,
)
