-- ===== src/Traffic/Invariant.antt =====
-- The messages of work under way, and what the ranks note of them.
use circle.Prelude.{
  ℕ, ◌+◌, ◌*◌, ◌^◌, ◌≤◌, ◌<◌, ◌≡◌, ap, Bool, true, List, [], ◌∷◌, ◌++◌, arith, subst, ==→eq, All,
  All-middle,
}
use circle.State.{TermState}
use circle.Work.{workreq_check}
use circle.Work.Serve.{workreceipt_check_lem}
use circle.Loop.Working.{workreq_check-requested}
use circle.Pool.{
  Parcel, parcels_of, is_work, Jobs, served, received, enqueued, dequeued, acknowledged, Fits,
}
use circle.Pool.Share.{InOrder}
use circle.Pool.Receive.{empty_head}
use circle.Pool.Conserve.{Reach-Inv}
use circle.Traffic.{
  Traffic, occurrences, answered, requested, replied, settled, Reach, here, next, serves, asks,
  receives, settles, enqueues, dequeues,
}
use circle.Traffic.Serve.{
  between, works_from, between-append, works_from-append, workreq_check-Answers,
}
use circle.Traffic.Receive.{waits_for, workreq_check-rank, request_work-asks, request_work-replies}
use circle.Pool
use circle.Pool.Conserve

-- The moves are those of `Pool`.
pub Reach-jobs :
    {rand_r : ℕ → ℕ × ℕ} {fuel page_size size : ℕ} {w : Traffic}
    → Reach rand_r fuel page_size size w
    → Pool.Reach rand_r fuel page_size size w.jobs
Reach-jobs (here ranks fresh free none_out sizes in_job) = Pool.here ranks fresh free
Reach-jobs (next r (serves i requestors cleanup lt fits there)) =
    Pool.next (Reach-jobs r) (Pool.serves i requestors cleanup lt fits)
Reach-jobs (next r (asks i cleanup lt may)) = Pool.next (Reach-jobs r) (Pool.asks i cleanup lt may)
Reach-jobs (next r (receives i cleanup before p after lt there to from asked)) =
    Pool.next (Reach-jobs r) (Pool.receives i cleanup before p after lt there to from asked)
Reach-jobs (next r (settles i n lt there out)) = Pool.next (Reach-jobs r) (Pool.acknowledges i n lt)
Reach-jobs (next r (enqueues i x lt fits some_bytes short free)) =
    Pool.next (Reach-jobs r) (Pool.enqueues i x lt fits some_bytes short free)
Reach-jobs (next r (dequeues i lt some_work)) =
    Pool.next (Reach-jobs r) (Pool.dequeues i lt some_work)

-- `pairs`: each request that a rank waits on is under way, or its reply is. `outstanding`: what a
-- rank counts is the work that it has under way, and the receipts under way to it.
pub record Inv (w : Traffic) : Type 0 where
  pub pairs : (a b : ℕ) → w.requests a b + between b a w.jobs.parcels ≡ waits_for (w.jobs.ranks a) b
  pub outstanding :
      (b : ℕ) → (w.jobs.ranks b).terms.work_outstanding ≡ works_from b w.jobs.parcels + w.receipts b

module _ (rand_r : ℕ → ℕ × ℕ) (fuel page_size : ℕ) where
  serves-Inv :
      (w : Traffic) (i : ℕ) (requestors : List ℕ) (cleanup : Bool)
      → Inv w
      → (w.jobs.ranks i).queue.count < 2 ^ 31
      → ((a : ℕ) → occurrences a requestors ≤ w.requests a i)
      → Inv (answered rand_r fuel page_size w i requestors cleanup)
  serves-Inv w i requestors cleanup v few there =
      let s = w.jobs.ranks i in
      let (n, more, says) = workreq_check-Answers rand_r i s requestors cleanup few in
      let sent = (workreq_check rand_r true s requestors cleanup).1 in
      let asked = workreq_check-requested true rand_r s requestors cleanup in
      let rank = workreq_check-rank true rand_r s requestors cleanup in
      let new = parcels_of i [] sent in
      record {
        pairs = λ a b. ground (
          arith,
          asked,
          rank,
          v.pairs a b,
          there a,
          says.replies b a,
          between-append b a w.jobs.parcels new,
          ==→eq a i,
          ==→eq b i,
        );
        outstanding = λ b. ground (
          arith,
          more,
          v.outstanding b,
          says.works b,
          works_from-append b w.jobs.parcels new,
          ==→eq b i,
        );
      }

  asks-Inv :
      (w : Traffic) (i : ℕ) (cleanup : Bool)
      → Inv w
      → Inv (requested rand_r fuel page_size w i cleanup)
  asks-Inv w i cleanup v =
      let (noted, same) = request_work-asks rand_r fuel page_size (w.jobs.ranks i) cleanup in
      record {
        pairs = λ a b. ground (arith, noted b, v.pairs a b, ==→eq a i);
        outstanding = λ b.
            ground
              (arith, v.outstanding b, ap (λ (t : TermState). t.work_outstanding) same, ==→eq b i);
      }

  receives-Inv :
      (w : Traffic) (i : ℕ) (cleanup : Bool) (before : List Parcel) (p : Parcel)
      (after : List Parcel)
      → Inv w
      → (w.jobs.ranks i).queue.head ≡ 0
      → InOrder page_size p
      → w.jobs.parcels ≡ before ++ (p ∷ after)
      → p.to ≡ i
      → p.from ≡ (w.jobs.ranks i).work.work_requested_rank
      → (w.jobs.ranks i).work.work_requested ≡ true
      → Inv (replied rand_r fuel page_size w i cleanup before p after)
  receives-Inv w i cleanup before p after v fresh o there to from asked =
      let (over, receipts, same) =
        request_work-replies rand_r fuel page_size (w.jobs.ranks i) cleanup p asked fresh o in
      record {
        pairs = λ a b. ground (
          arith,
          v.pairs a b,
          over b,
          ap (between b a) there,
          between-append b a before (p ∷ after),
          between-append b a before after,
          to,
          from,
          asked,
          ==→eq a i,
          ==→eq b p.from,
        );
        outstanding = λ b. ground (
          arith,
          v.outstanding b,
          receipts b,
          ap (λ (t : TermState). t.work_outstanding) same,
          ap (works_from b) there,
          works_from-append b before (p ∷ after),
          works_from-append b before after,
          from,
          ==→eq b i,
        );
      }

  settles-Inv :
      (w : Traffic) (i n : ℕ)
      → Inv w
      → n ≤ w.receipts i
      → n ≤ (w.jobs.ranks i).terms.work_outstanding
      → Inv (settled w i n)
  settles-Inv w i n v there out =
      let taken = workreceipt_check_lem n (w.jobs.ranks i).terms in
      record {
        pairs = λ a b. ground (arith, v.pairs a b, ==→eq a i);
        outstanding = λ b. ground (
          arith,
          v.outstanding b,
          there,
          out,
          ap (λ (t : TermState). t.work_outstanding) taken,
          ==→eq b i,
        );
      }

  enqueues-Inv :
      (w : Traffic) (i : ℕ) (x : List ℕ)
      → Inv w
      → Inv (record w { jobs = enqueued rand_r fuel page_size w.jobs i x })
  enqueues-Inv w i x v = record {
    pairs = λ a b. ground (arith, v.pairs a b, ==→eq a i);
    outstanding = λ b. ground (arith, v.outstanding b, ==→eq b i);
  }

  dequeues-Inv : (w : Traffic) (i : ℕ) → Inv w → Inv (record w { jobs = dequeued w.jobs i })
  dequeues-Inv w i v = record {
    pairs = λ a b. ground (arith, v.pairs a b, ==→eq a i);
    outstanding = λ b. ground (arith, v.outstanding b, ==→eq b i);
  }

module _ (page_size size : ℕ) (rand_r : ℕ → ℕ × ℕ) (fuel : ℕ) (pages : 0 < page_size)
    (room : 2 ^ 32 + page_size * 4096 ≤ 2 ^ 64) where
  abbrev pub kept :
      {w : Traffic}
      → Reach rand_r fuel page_size size w
      → Conserve.Inv page_size size (λ x. 0) w.jobs
  kept r = Reach-Inv page_size size (λ x. 0) rand_r fuel pages room (Reach-jobs r)

  pub Traffic-Inv : {w : Traffic} → Reach rand_r fuel page_size size w → Inv w
  Traffic-Inv (here ranks fresh free none_out sizes in_job) = record {
    pairs = λ a b. ground (arith, free a);
    outstanding = λ b. ground (arith, none_out b);
  }
  Traffic-Inv (next {v} r (serves i requestors cleanup lt fits there)) =
      serves-Inv rand_r fuel page_size v i requestors cleanup (Traffic-Inv r) fits.0 there
  Traffic-Inv (next {v} r (asks i cleanup lt may)) =
      asks-Inv rand_r fuel page_size v i cleanup (Traffic-Inv r)
  Traffic-Inv (next {v} r (receives i cleanup before p after lt there to from asked)) =
      let inv = kept r in
      let head = (empty_head (v.jobs.ranks i).queue (inv.valid i) (inv.waits i asked)).0 in
      let o =
        (All-middle (InOrder page_size) before after p
          (subst (All (InOrder page_size)) there inv.in_order)).0 in
      receives-Inv rand_r fuel page_size v i cleanup before p after (Traffic-Inv r) head o there to
        from asked
  Traffic-Inv (next {v} r (settles i n lt there out)) =
      settles-Inv rand_r fuel page_size v i n (Traffic-Inv r) there out
  Traffic-Inv (next {v} r (enqueues i x lt fits some_bytes short free)) =
      enqueues-Inv rand_r fuel page_size v i x (Traffic-Inv r)
  Traffic-Inv (next {v} r (dequeues i lt some_work)) =
      dequeues-Inv rand_r fuel page_size v i (Traffic-Inv r)
