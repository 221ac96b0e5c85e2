-- ===== src/Traffic/Range.antt =====
-- Whom the ranks of a job ask: `getNextProc` chooses ranks of the job only.
use native.Mathlib.Nat.{mod-lt}
use circle.Prelude.{
  ℕ, zero, suc, ◌+◌, ◌%◌, ◌<◌, ◌≡◌, inl, inr, refl, sym, ◌∙◌, Bool, true, List, [], ◌∷◌, none, some,
  arith, length, update_all, Option-cases, subst,
}
use circle.State.{State, WorkState, pick_proc, get_next_proc}
use circle.Work.{
  extend_offsets, workreq_check, send_work, send_shares, send_work_to_many, reseed, blacken, shares,
  tail,
}
use circle.Receive.{take_in, work_receive, check_reply, ask, request_work}
use circle.Receive.Requests.{get_next_proc-Keeps}
use circle.Loop.Working.{workreq_check-requested}
use circle.Traffic.{Traffic, Reach, here, next, serves, asks, receives, settles, enqueues, dequeues}
use circle.Traffic.Receive.{workreq_check-rank}

-- What a rank asks, or will ask, is a rank of the job.
pub record InRange (size : ℕ) (s : State) : Type 0 where
  pub ranks : s.size ≡ size
  pub chosen : (r : ℕ) → s.work.next_processor ≡ some r → r < size
  pub waited : s.work.work_requested ≡ true → s.work.work_requested_rank < size

module _ (allocates : Bool) where
  send_shares-choice :
      (s : State) (requestors sizes : List ℕ)
      → let s1 = (send_shares allocates s requestors sizes).0 in
        (s1.size ≡ s.size) × (s1.work.next_processor ≡ s.work.next_processor)
  unfolding send_shares send_work blacken extend_offsets
  send_shares-choice s [] sizes = (refl, refl)
  send_shares-choice s (r ∷ requestors) [] = (refl, refl)
  send_shares-choice s (r ∷ requestors) (n ∷ sizes) =
      ground (arith, send_shares-choice (send_work allocates s r n).1 requestors sizes)

  workreq_check-choice :
      (rand_r : ℕ → ℕ × ℕ) (s : State) (requestors : List ℕ) (cleanup : Bool)
      → let s1 = (workreq_check rand_r allocates s requestors cleanup).0 in
        (s1.size ≡ s.size) × (s1.work.next_processor ≡ s.work.next_processor)
  unfolding workreq_check send_work_to_many reseed
  workreq_check-choice rand_r s [] cleanup = (refl, refl)
  workreq_check-choice rand_r s (r ∷ requestors) cleanup = ground (
    arith,
    send_shares-choice (reseed s (rand_r s.work.seed).1) (r ∷ requestors) (
        tail (shares s.split_equal (rand_r s.work.seed).0 (length (r ∷ requestors)) s.queue.count)),
  )

module _ (rand_r : ℕ → ℕ × ℕ) (fuel : ℕ) where
  pick_proc-lt :
      (tries size rank : ℕ) (w : WorkState) (r : ℕ)
      → 0 < size
      → ((q : ℕ) → w.next_processor ≡ some q → q < size)
      → (pick_proc rand_r tries size rank w).next_processor ≡ some r
      → r < size
  unfolding pick_proc
  pick_proc-lt zero size rank w r pos h e = h r e
  pick_proc-lt (suc tries) size rank w r pos h e =
      let number = (rand_r w.seed).0 in
      let drawn = mod-lt number pos in
      ground (
        arith,
        e,
        drawn,
        pick_proc-lt tries size rank
            (record w { seed = (rand_r w.seed).1; next_processor = some (number % size) }) r pos
            (λ q eq. ground (arith, eq, drawn)),
      )

  get_next_proc-lt :
      (size rank : ℕ) (w : WorkState) (r : ℕ)
      → 0 < size
      → ((q : ℕ) → w.next_processor ≡ some q → q < size)
      → (get_next_proc rand_r fuel size rank w).next_processor ≡ some r
      → r < size
  unfolding get_next_proc
  get_next_proc-lt size rank w r pos h e = ground (arith, pick_proc-lt fuel size rank w r pos h, e)

  request_work-InRange :
      (page_size size : ℕ) (s : State) (cleanup : Bool)
      → 0 < size
      → InRange size s
      → InRange size (request_work rand_r fuel page_size true s cleanup none).1
  unfolding request_work check_reply ask
  request_work-InRange page_size size s cleanup pos h = elim (Option-cases s.work.next_processor) [
    | inl e ↦ record {
      ranks = ground (arith, e, h.ranks);
      chosen = λ r eq. ground (arith, e, eq, h.chosen r);
      waited = λ eq. ground (arith, e, eq, h.waited);
    }
    | inr (q, e) ↦
        let w : WorkState = record s.work {
          local_work_requested = s.work.local_work_requested + 1;
          work_requested = true;
          work_requested_rank = q;
        } in
        record {
          ranks = ground (arith, e, h.ranks);
          chosen = λ r eq. ground (
            arith,
            e,
            eq,
            h.chosen r,
            h.ranks,
            get_next_proc-lt s.size s.rank w r (omega (arith, pos, h.ranks))
                (λ p same. ground (arith, h.chosen p, same, h.ranks)),
          );
          waited = λ eq.
              ground (
                arith,
                e,
                eq,
                h.waited,
                h.chosen q,
                get_next_proc-Keeps rand_r fuel s.size s.rank w,
              );
        }
  ]

  work_receive-choice :
      (page_size : ℕ) (s : State) (source : ℕ) (ints cs : List ℕ)
      → let s1 = (work_receive page_size true s source ints cs).1 in
        (s1.size ≡ s.size) × (s1.work.next_processor ≡ s.work.next_processor)
  unfolding work_receive extend_offsets
  work_receive-choice page_size s source ints cs =
      elim (Option-cases (take_in page_size s.queue ints cs)) [
        | inl e ↦ ground (arith, e)
        | inr (q, e) ↦ ground (arith, e)
      ]

  replies-InRange :
      (page_size size : ℕ) (s : State) (cleanup : Bool) (ints cs : List ℕ)
      → s.work.work_requested ≡ true
      → InRange size s
      → InRange size (request_work rand_r fuel page_size true s cleanup (some (ints, cs))).1
  unfolding request_work check_reply
  replies-InRange page_size size s cleanup ints cs asked h =
      let kept = work_receive-choice page_size s s.work.work_requested_rank ints cs in
      record {
        ranks = ground (arith, asked, h.ranks, kept);
        chosen = λ r eq. ground (arith, asked, eq, kept, h.chosen r);
        waited = λ eq. ground (arith, asked, eq);
      }

workreq_check-InRange :
    (size : ℕ) (rand_r : ℕ → ℕ × ℕ) (s : State) (requestors : List ℕ) (cleanup : Bool)
    → InRange size s
    → InRange size (workreq_check rand_r true s requestors cleanup).0
workreq_check-InRange size rand_r s requestors cleanup h =
    let (sizes, choice) = workreq_check-choice true rand_r s requestors cleanup in
    record {
      ranks = sizes ∙ h.ranks;
      chosen = λ r e. h.chosen r (sym choice ∙ e);
      waited = λ e.
          subst (λ q. q < size) (sym (workreq_check-rank true rand_r s requestors cleanup))
            (h.waited (sym (workreq_check-requested true rand_r s requestors cleanup) ∙ e));
    }

pub Reach-InRange :
    {rand_r : ℕ → ℕ × ℕ} {fuel page_size size : ℕ} {w : Traffic}
    → Reach rand_r fuel page_size size w
    → (i : ℕ) → InRange size (w.jobs.ranks i)
Reach-InRange (here ranks fresh free none_out sizes in_job) =
    λ i. record { ranks = sizes i; chosen = in_job i; waited = λ e. ground (arith, free i, e) }
Reach-InRange {rand_r} {fuel} {page_size} {size}
      (next {v} r (serves j requestors cleanup lt fits there)) =
    update_all (λ i s. InRange size s) v.jobs.ranks j _
      (workreq_check-InRange size rand_r (v.jobs.ranks j) requestors cleanup (Reach-InRange r j))
      (Reach-InRange r)
Reach-InRange {rand_r} {fuel} {page_size} {size} (next {v} r (asks j cleanup lt may)) =
    update_all (λ i s. InRange size s) v.jobs.ranks j _
      (request_work-InRange rand_r fuel page_size size (v.jobs.ranks j) cleanup (omega (arith, lt))
        (Reach-InRange r j))
      (Reach-InRange r)
Reach-InRange {rand_r} {fuel} {page_size} {size}
      (next {v} r (receives j cleanup before p after lt there to from asked)) =
    update_all (λ i s. InRange size s) v.jobs.ranks j _
      (replies-InRange rand_r fuel page_size size (v.jobs.ranks j) cleanup p.ints p.chars asked
        (Reach-InRange r j))
      (Reach-InRange r)
Reach-InRange {size = size} (next {v} r (settles j n lt there out)) =
    update_all (λ i s. InRange size s) v.jobs.ranks j _
      (record {
        ranks = (Reach-InRange r j).ranks;
        chosen = (Reach-InRange r j).chosen;
        waited = (Reach-InRange r j).waited;
      })
      (Reach-InRange r)
Reach-InRange {size = size} (next {v} r (enqueues j x lt fits some_bytes short free)) =
    update_all (λ i s. InRange size s) v.jobs.ranks j _
      (record {
        ranks = (Reach-InRange r j).ranks;
        chosen = (Reach-InRange r j).chosen;
        waited = (Reach-InRange r j).waited;
      })
      (Reach-InRange r)
Reach-InRange {size = size} (next {v} r (dequeues j lt some_work)) =
    update_all (λ i s. InRange size s) v.jobs.ranks j _
      (record {
        ranks = (Reach-InRange r j).ranks;
        chosen = (Reach-InRange r j).chosen;
        waited = (Reach-InRange r j).waited;
      })
      (Reach-InRange r)
