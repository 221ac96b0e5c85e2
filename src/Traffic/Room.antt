-- ===== src/Traffic/Room.antt =====
-- `workreqCheck` writes the ranks whose requests it finds to the array `requestors`, which has one
-- element for each rank of the job.
use circle.Prelude.{
  total_zero, total-le_length, ℕ, zero, suc, ◌+◌, ◌*◌, ◌^◌, ◌≤◌, ◌<◌, ◌≡◌, refl, ap, false, List,
  [], ◌∷◌, arith, length, ==→eq, total, total_change, Bool-cases, inl, inr, leb,
}
use circle.Tree.Family.{ranks_from, elem-ranks_from}
use circle.Gather.Shape.{NoDup-ranks_from}
use circle.Traffic.{
  Traffic, occurrences, Reach, here, next, serves, asks, receives, settles, enqueues, dequeues,
}
use circle.Traffic.Invariant.{Traffic-Inv}

-- No number beyond the job's ranks asks.
beyond_idle :
    {rand_r : ℕ → ℕ × ℕ} {fuel page_size size : ℕ} {w : Traffic}
    → Reach rand_r fuel page_size size w
    → (a : ℕ) → size ≤ a
    → (w.jobs.ranks a).work.work_requested ≡ false
beyond_idle (here ranks fresh free none_out sizes in_job) a h = free a
beyond_idle (next {v} r (serves i requestors cleanup lt fits there)) a h =
    ground (arith, beyond_idle r a h, ==→eq a i, lt, h)
beyond_idle (next {v} r (asks i cleanup lt may)) a h =
    ground (arith, beyond_idle r a h, ==→eq a i, lt, h)
beyond_idle (next {v} r (receives i cleanup before p after lt there to from asked)) a h =
    ground (arith, beyond_idle r a h, ==→eq a i, lt, h)
beyond_idle (next {v} r (settles i n lt there out)) a h =
    ground (arith, beyond_idle r a h, ==→eq a i, lt, h)
beyond_idle (next {v} r (enqueues i x lt fits some_bytes short free)) a h =
    ground (arith, beyond_idle r a h, ==→eq a i, lt, h)
beyond_idle (next {v} r (dequeues i lt some_work)) a h =
    ground (arith, beyond_idle r a h, ==→eq a i, lt, h)

length-ranks_from : (l n : ℕ) → length (ranks_from l n) ≡ n
length-ranks_from l zero = refl
length-ranks_from l (suc n) = ap suc (length-ranks_from (l + 1) n)

-- A list whose members are ranks is as long as all their numbers of occurrences together.
length-occurrences :
    (size : ℕ) (rs : List ℕ)
    → ((a : ℕ) → size ≤ a → occurrences a rs ≡ 0)
    → total (λ a. occurrences a rs) (ranks_from 0 size) ≡ length rs
length-occurrences size [] h = total_zero (ranks_from 0 size)
length-occurrences size (r ∷ rs) h =
    let ih = length-occurrences size rs (λ a big. ground (arith, h a big)) in
    let small : r < size = elim (Bool-cases (leb size r)) [
      | inl big ↦ absurd (ground (arith, h r, big))
      | inr lt ↦ ground (arith, lt)
    ] in
    let change =
      total_change (λ a. occurrences a (r ∷ rs)) (λ a. occurrences a rs) r (ranks_from 0 size)
        (NoDup-ranks_from 0 size) ((elem-ranks_from r 0 size).1 (omega arith, omega (arith, small)))
        (λ a ne. ground (arith, ne)) in
    let one : occurrences r (r ∷ rs) ≡ suc (occurrences r rs) = ground arith in
    omega (arith, ih, change, one)

-- In every state that a job reaches, whatever requests `workreqCheck` finds on a rank of it: no rank
-- is among the requestors twice, and together they are at most as many as the ranks of the job, so
-- that the array, which has `size` elements, is not overrun. The pools and the numbers of strings fit
-- an `int`, an item has 1 to 2 ^ 31 - 1 bytes, the page size is positive, and the offset arrays can
-- be extended.
pub requestors_fit :
    (page_size size : ℕ) (rand_r : ℕ → ℕ × ℕ) (fuel : ℕ) (w : Traffic) (i : ℕ) (requestors : List ℕ)
    → 0 < page_size
    → 2 ^ 32 + page_size * 4096 ≤ 2 ^ 64
    → Reach rand_r fuel page_size size w
    → ((a : ℕ) → occurrences a requestors ≤ w.requests a i)
    → ((a : ℕ) → occurrences a requestors ≤ 1) × (length requestors ≤ size)
requestors_fit page_size size rand_r fuel w i requestors pages room r there =
    let inv = Traffic-Inv page_size size rand_r fuel pages room r in
    let once : (a : ℕ) → occurrences a requestors ≤ 1 =
      λ a. ground (arith, there a, inv.pairs a i) in
    let sum =
      length-occurrences size requestors
        (λ a big. ground (arith, there a, inv.pairs a i, beyond_idle r a big)) in
    (
      once,
      omega (
        arith,
        sum,
        total-le_length (λ a. occurrences a requestors) (ranks_from 0 size) once,
        length-ranks_from 0 size,
      ),
    )
