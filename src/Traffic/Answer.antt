-- ===== src/Traffic/Answer.antt =====
-- A rank that waits for work can always be answered.
use circle.Prelude.{
  ℕ, ◌+◌, ◌*◌, ◌^◌, ◌≤◌, ◌<◌, ◌≡◌, inl, inr, refl, ap, true, false, ◌&&◌, List, [], ◌∷◌, ◌++◌,
  arith, ◌==◌, ==→eq, Bool-cases, subst, All, All-middle,
}
use circle.Loop.Working.{workreq_check-requested}
use circle.Pool.{Parcel, Fits}
use circle.Pool.Share.{InOrder}
use circle.Pool.Receive.{empty_head}
use circle.Traffic.{
  Traffic, answered, replied, Reach, next, serves, receives, Step, Moves, stays, moves,
}
use circle.Traffic.Serve.{between}
use circle.Traffic.Receive.{workreq_check-rank, request_work-replies}
use circle.Traffic.Invariant.{Traffic-Inv, kept}
use circle.Traffic.Range.{Reach-InRange}

-- A reply that is counted is there.
find_reply :
    (b a : ℕ) (ps : List Parcel)
    → 0 < between b a ps
    → (before : List Parcel) × (p : Parcel) × (after : List Parcel) × (ps ≡ before ++ (p ∷ after))
      × (p.from ≡ b)
      × (p.to ≡ a)
find_reply b a [] h = absurd (omega (arith, h))
find_reply b a (p ∷ ps) h = elim (Bool-cases ((p.from == b) && (p.to == a))) [
  | inl e ↦ ([], p, ps, refl, ==→eq p.from b (ground (arith, e)), ==→eq p.to a (ground (arith, e)))
  | inr n ↦
      let (before, q, after, split, from, to) = find_reply b a ps (ground (arith, h, n)) in
      (p ∷ before, q, after, ap (◌∷◌ p) split, from, to)
]

module _ (page_size size : ℕ) (rand_r : ℕ → ℕ × ℕ) (fuel : ℕ) (pages : 0 < page_size)
    (room : 2 ^ 32 + page_size * 4096 ≤ 2 ^ 64) where
  -- With the reply under way.
  take_reply :
      (w : Traffic) (a : ℕ)
      → Reach rand_r fuel page_size size w
      → a < size
      → (w.jobs.ranks a).work.work_requested ≡ true
      → 0 < between (w.jobs.ranks a).work.work_requested_rank a w.jobs.parcels
      → (v : Traffic) × Step rand_r fuel page_size size w v
        × ((v.jobs.ranks a).work.work_requested ≡ false)
  take_reply w a r lt asked coming =
      let (before, p, after, there, from, to) =
        find_reply (w.jobs.ranks a).work.work_requested_rank a w.jobs.parcels coming in
      let inv = kept page_size size rand_r fuel pages room r in
      let head = (empty_head (w.jobs.ranks a).queue (inv.valid a) (inv.waits a asked)).0 in
      let o =
        (All-middle (InOrder page_size) before after p
          (subst (All (InOrder page_size)) there inv.in_order)).0 in
      let (over, _, _) =
        request_work-replies rand_r fuel page_size (w.jobs.ranks a) false p asked head o in
      let v = replied rand_r fuel page_size w a false before p after in
      (
        v,
        receives a false before p after lt there to from asked,
        ground (arith, over (v.jobs.ranks a).work.work_requested_rank),
      )

-- From every state that a job reaches, if rank `a` waits for work and the queue of the rank that it
-- has asked fits, at most two moves lead to a state in which `a` does not wait: no request and no
-- reply is missing. A queue fits if its pool and its number of strings fit an `int`; the other
-- conditions are those under which no work is lost: an item has 1 to 2 ^ 31 - 1 bytes, the page size
-- is positive, and the offset arrays can be extended.
pub waiting_ends :
    (page_size size : ℕ) (rand_r : ℕ → ℕ × ℕ) (fuel : ℕ) (w : Traffic) (a : ℕ)
    → 0 < page_size
    → 2 ^ 32 + page_size * 4096 ≤ 2 ^ 64
    → Reach rand_r fuel page_size size w
    → a < size
    → Fits (w.jobs.ranks (w.jobs.ranks a).work.work_requested_rank).queue
    → (w.jobs.ranks a).work.work_requested ≡ true
    → (n : ℕ) × (v : Traffic) × (n ≤ 2)
      × Moves rand_r fuel page_size size w n v
      × ((v.jobs.ranks a).work.work_requested ≡ false)
waiting_ends page_size size rand_r fuel w a pages room r lt fits asked =
    let b = (w.jobs.ranks a).work.work_requested_rank in
    let paired = (Traffic-Inv page_size size rand_r fuel pages room r).pairs a b in
    elim (Bool-cases (w.requests a b == 0)) [
      | inl e ↦
          let (v, step, over) =
            take_reply page_size size rand_r fuel pages room w a r lt asked
              (ground (arith, e, paired, asked)) in
          (1, v, omega arith, moves stays step, over)
      | inr n ↦
          let w1 = answered rand_r fuel page_size w b (a ∷ []) true in
          let first : Step rand_r fuel page_size size w w1 =
            serves b (a ∷ []) true ((Reach-InRange r a).waited asked) fits
              (λ c. ground (arith, n, ==→eq a c)) in
          let r1 = next r first in
          let still : (w1.jobs.ranks a).work.work_requested ≡ true = ground (
            arith,
            asked,
            ==→eq a b,
            workreq_check-requested true rand_r (w.jobs.ranks b) (a ∷ []) true,
          ) in
          let same : (w1.jobs.ranks a).work.work_requested_rank ≡ b =
            ground
              (arith, ==→eq a b, workreq_check-rank true rand_r (w.jobs.ranks b) (a ∷ []) true) in
          let paired1 = (Traffic-Inv page_size size rand_r fuel pages room r1).pairs a b in
          let (v, second, over) =
            take_reply page_size size rand_r fuel pages room w1 a r1 lt still
              (rw same (ground (arith, paired1, paired, still, same, n, asked))) in
          (2, v, omega arith, moves (moves stays first) second, over)
    ]
