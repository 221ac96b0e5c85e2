-- ===== src/Loop/Working.antt =====
-- `mainLoop`, the working loop: a rank asks for work only while its queue is empty, so that the
-- reply, which is written from the start of the queue on, overwrites nothing.
use circle.Prelude.{
  ℕ, ◌≡◌, inl, inr, refl, sym, ◌∙◌, Bool, true, false, List, [], ◌∷◌, ◌++◌, length, Option, none,
  some, arith, Option-cases,
}
use circle.Queue.{Queue}
use circle.State.{State, Send}
use circle.Work.{
  send_shares, send_work, extend_offsets, send_work_to_many, reseed, tail, shares, workreq_check,
  blacken,
}
use circle.Receive.{WorkReply, request_work, check_reply, ask}
use circle.Reduce.{Callbacks}
use circle.Loop.{
  Inputs, Phase, again, left, ended, go_on, serve, take_receipts, check_aborts, check_reduce,
  request_if_idle, process_one, work_or_check, check_termination, work_step, work_loop,
}

-- A rank that waits for work has none.
abbrev pub WaitsEmpty : State → Type 0
WaitsEmpty s = s.work.work_requested ≡ true → s.queue.count ≡ 0

go_on-WaitsEmpty :
    (phase : Phase) (s : State) (sent : List Send) (rest : Phase × State × List Send)
    → WaitsEmpty s
    → WaitsEmpty rest.1
    → WaitsEmpty (go_on phase s sent rest).1
unfolding go_on
go_on-WaitsEmpty again s sent rest here there = there
go_on-WaitsEmpty left s sent rest here there = here
go_on-WaitsEmpty ended s sent rest here there = here

module _ (allocates : Bool) where
  send_work-requested :
      (s : State) (dest count : ℕ)
      → (send_work allocates s dest count).1.work.work_requested ≡ s.work.work_requested
  unfolding send_work blacken extend_offsets
  send_work-requested s dest count = ground arith

  send_shares-requested :
      (s : State) (requestors sizes : List ℕ)
      → (send_shares allocates s requestors sizes).0.work.work_requested ≡ s.work.work_requested
  unfolding send_shares
  send_shares-requested s [] sizes = refl
  send_shares-requested s (r ∷ requestors) [] = refl
  send_shares-requested s (r ∷ requestors) (n ∷ sizes) =
      send_shares-requested (send_work allocates s r n).1 requestors sizes
      ∙ send_work-requested s r n

  module _ (rand_r : ℕ → ℕ × ℕ) where
    pub workreq_check-requested :
        (s : State) (requestors : List ℕ) (cleanup : Bool)
        → (workreq_check rand_r allocates s requestors cleanup).0.work.work_requested
          ≡ s.work.work_requested
    unfolding workreq_check send_work_to_many reseed
    workreq_check-requested s [] cleanup = refl
    workreq_check-requested s (r ∷ requestors) cleanup = ground (
      arith,
      send_shares-requested (reseed s (rand_r s.work.seed).1) (r ∷ requestors) (
          tail
            (shares s.split_equal (rand_r s.work.seed).0 (length (r ∷ requestors)) s.queue.count)),
    )

    pub workreq_check-WaitsEmpty :
        (s : State) (requestors : List ℕ) (cleanup : Bool)
        → WaitsEmpty s
        → WaitsEmpty (workreq_check rand_r allocates s requestors cleanup).0
    unfolding workreq_check
    workreq_check-WaitsEmpty s [] cleanup waits = waits
    workreq_check-WaitsEmpty s (r ∷ requestors) cleanup waits = λ asked.
        let empty = waits (sym (workreq_check-requested s (r ∷ requestors) cleanup) ∙ asked) in
        ground (arith, empty)

module _ (rand_r : ℕ → ℕ × ℕ) (fuel page_size : ℕ) (allocates : Bool) where
  request_work-WaitsEmpty :
      (s : State) (reply : Option WorkReply)
      → s.queue.count ≡ 0
      → WaitsEmpty (request_work rand_r fuel page_size allocates s false reply).1
  unfolding request_work check_reply ask
  request_work-WaitsEmpty s none empty = elim (Option-cases s.work.next_processor) [
    | inl e ↦ ground (arith, e, empty)
    | inr (r, e) ↦ ground (arith, e, empty)
  ]
  request_work-WaitsEmpty s (some m) empty = elim (Option-cases s.work.next_processor) [
    | inl e ↦ ground (arith, e, empty)
    | inr (r, e) ↦ ground (arith, e, empty)
  ]

module _ (rand_r : ℕ → ℕ × ℕ) (fuel page_size : ℕ) (allocates : Bool) (callbacks : Callbacks)
    (process : Queue → Queue) where
  work_or_check-WaitsEmpty :
      (s : State) (i : Inputs)
      → WaitsEmpty s
      → WaitsEmpty (work_or_check rand_r fuel page_size allocates callbacks process s i).1
  unfolding work_or_check check_termination process_one
  work_or_check-WaitsEmpty s i waits = ground (arith, waits)

  check_reduce-WaitsEmpty :
      (s : State) (i : Inputs) (cleanup : Bool)
      → WaitsEmpty s
      → WaitsEmpty (check_reduce callbacks s i cleanup).0
  unfolding check_reduce
  check_reduce-WaitsEmpty s i cleanup waits = ground (arith, waits)

  request_if_idle-WaitsEmpty :
      (s : State) (i : Inputs)
      → WaitsEmpty s
      → WaitsEmpty (request_if_idle rand_r fuel page_size allocates callbacks process s i).1
  unfolding request_if_idle
  request_if_idle-WaitsEmpty s i waits =
      ground (arith, waits, request_work-WaitsEmpty rand_r fuel page_size allocates s i.work_reply)

  pub work_step-WaitsEmpty :
      (s : State) (i : Inputs)
      → WaitsEmpty s
      → WaitsEmpty (work_step rand_r fuel page_size allocates callbacks process s i).1
  unfolding work_step serve take_receipts check_aborts check_reduce request_if_idle
  work_step-WaitsEmpty s i waits =
      let s1 = (serve rand_r fuel page_size allocates callbacks process s i false).0 in
      let served : WaitsEmpty s1 =
        workreq_check-WaitsEmpty allocates rand_r s i.requestors false waits in
      let s2 : State = (check_aborts (take_receipts s1 i) i false).0 in
      let (s3, _) = check_reduce callbacks s2 i false in
      let reduced : WaitsEmpty s3 = check_reduce-WaitsEmpty s2 i false served in
      let (_, s4, _) = request_if_idle rand_r fuel page_size allocates callbacks process s3 i in
      let requested : WaitsEmpty s4 = request_if_idle-WaitsEmpty s3 i reduced in
      ground (arith, requested, work_or_check-WaitsEmpty s4 i requested)

  -- Through any rounds of the working loop, whatever they find and whatever the callback does, a
  -- rank that waits for work has an empty queue if it was so before.
  pub work_loop-WaitsEmpty :
      (s : State) (rounds : List Inputs)
      → WaitsEmpty s
      → WaitsEmpty (work_loop rand_r fuel page_size allocates callbacks process s rounds).1
  unfolding work_loop
  work_loop-WaitsEmpty s [] waits = waits
  work_loop-WaitsEmpty s (i ∷ rounds) waits =
      let (phase, s1, sent) = work_step rand_r fuel page_size allocates callbacks process s i in
      let (phase2, s2, sent2) =
        work_loop rand_r fuel page_size allocates callbacks process s1 rounds in
      go_on-WaitsEmpty phase s1 sent (phase2, s2, sent ++ sent2) (work_step-WaitsEmpty s i waits)
        (work_loop-WaitsEmpty s1 rounds (work_step-WaitsEmpty s i waits))
