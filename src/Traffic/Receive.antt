-- ===== src/Traffic/Receive.antt =====
-- What a rank sends and notes when it asks for work, or receives a reply.
use circle.Prelude.{
  ℕ, ◌+◌, ◌≡◌, inl, inr, refl, Bool-cases, Option-cases, Bool, true, false, List, [], ◌∷◌, none,
  some, arith, length, ◌==◌, ◌&&◌, if◌then◌else◌,
}
use circle.State.{State, Message}
use circle.Work.{
  extend_offsets, workreq_check, send_work, send_shares, send_work_to_many, reseed, blacken, shares,
  tail,
}
use circle.Receive.{take_in, work_receive, check_reply, ask, request_work}
use circle.Receive.Exchange.{work_receive-some}
use circle.Receive.Requests.{get_next_proc-Keeps}
use circle.Pool.{Parcel, is_work}
use circle.Pool.Share.{InOrder}
use circle.Traffic.{requests_to, receipts_to}

-- How many requests a rank has under way to rank `b`.
abbrev pub waits_for : State → ℕ → ℕ
waits_for s b = if s.work.work_requested && (s.work.work_requested_rank == b) then 1 else 0

module _ (allocates : Bool) where
  send_shares-rank :
      (s : State) (requestors sizes : List ℕ)
      → (send_shares allocates s requestors sizes).0.work.work_requested_rank
        ≡ s.work.work_requested_rank
  unfolding send_shares send_work blacken extend_offsets
  send_shares-rank s [] sizes = refl
  send_shares-rank s (r ∷ requestors) [] = refl
  send_shares-rank s (r ∷ requestors) (n ∷ sizes) =
      ground (arith, send_shares-rank (send_work allocates s r n).1 requestors sizes)

  pub workreq_check-rank :
      (rand_r : ℕ → ℕ × ℕ) (s : State) (requestors : List ℕ) (cleanup : Bool)
      → (workreq_check rand_r allocates s requestors cleanup).0.work.work_requested_rank
        ≡ s.work.work_requested_rank
  unfolding workreq_check send_work_to_many reseed
  workreq_check-rank rand_r s [] cleanup = refl
  workreq_check-rank rand_r s (r ∷ requestors) cleanup = ground (
    arith,
    send_shares-rank (reseed s (rand_r s.work.seed).1) (r ∷ requestors) (
        tail (shares s.split_equal (rand_r s.work.seed).0 (length (r ∷ requestors)) s.queue.count)),
  )

module _ (rand_r : ℕ → ℕ × ℕ) (fuel page_size : ℕ) where
  nothing_sent :
      (s : State) (source : ℕ) (ints cs : List ℕ)
      → is_work ints ≡ false
      → (work_receive page_size true s source ints cs).2 ≡ []
  unfolding work_receive extend_offsets
  nothing_sent s source ints cs e = ground (arith, e)

  -- Asking: the request that is sent is the one that is noted.
  pub request_work-asks :
      (s : State) (cleanup : Bool)
      → let (_, s1, sent) = request_work rand_r fuel page_size true s cleanup none in
        ((b : ℕ) → waits_for s1 b ≡ waits_for s b + requests_to b sent) × (s1.terms ≡ s.terms)
  unfolding request_work check_reply ask
  request_work-asks s cleanup = elim (Option-cases s.work.next_processor) [
    | inl e ↦ (λ b. ground (arith, e), ground (arith, e))
    | inr (r, e) ↦
        let kept = get_next_proc-Keeps rand_r fuel s.size s.rank (record s.work {
          local_work_requested = s.work.local_work_requested + 1;
          work_requested = true;
          work_requested_rank = r;
        }) in
        (λ b. ground (arith, e, kept), ground (arith, e))
  ]

  receipt_sent :
      (s : State) (source : ℕ) (p : Parcel)
      → s.queue.head ≡ 0
      → InOrder page_size p
      → (work_receive page_size true s source p.ints p.chars).2
        ≡ (if is_work p.ints then (source, Message.work_receipt) ∷ [] else [])
  receipt_sent s source p fresh o = elim (Bool-cases (is_work p.ints)) [
    | inl w ↦
        let (q1, took, _, _) = o.fits w s.queue fresh in
        rw w
          (work_receive-some page_size s source p.ints p.chars q1 o.there (ground (arith, w))
            (o.small w) took).2
    | inr n ↦ rw n (nothing_sent s source p.ints p.chars n)
  ]

  terms-work_receive :
      (s : State) (source : ℕ) (ints cs : List ℕ)
      → (work_receive page_size true s source ints cs).1.terms ≡ s.terms
  unfolding work_receive extend_offsets
  terms-work_receive s source ints cs = elim (Option-cases (take_in page_size s.queue ints cs)) [
    | inl e ↦ ground (arith, e)
    | inr (q, e) ↦ ground (arith, e)
  ]

  -- Receiving: the reply is no longer waited for, and one that brings work is acknowledged to the
  -- rank that has sent it.
  pub request_work-replies :
      (s : State) (cleanup : Bool) (p : Parcel)
      → s.work.work_requested ≡ true
      → s.queue.head ≡ 0
      → InOrder page_size p
      → let (_, s1, sent) =
          request_work rand_r fuel page_size true s cleanup (some (p.ints, p.chars)) in
        ((b : ℕ) → waits_for s1 b ≡ 0)
        × ((b : ℕ)
            → receipts_to b sent
              ≡ (if (s.work.work_requested_rank == b) && is_work p.ints then 1 else 0))
        × (s1.terms ≡ s.terms)
  unfolding request_work check_reply
  request_work-replies s cleanup p asked fresh o =
      let source = s.work.work_requested_rank in
      let sent = receipt_sent s source p fresh o in
      (
        λ b. ground (arith, asked),
        λ b. ground (arith, asked, sent),
        ground (arith, asked, terms-work_receive s source p.ints p.chars),
      )
