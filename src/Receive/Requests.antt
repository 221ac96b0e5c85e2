-- ===== src/Receive/Requests.antt =====
-- Whom a rank asks, and when: `getNextProc` and `requestWork`.
use native.Mathlib.Nat.{mod-lt}
use circle.Prelude.{
  ℕ, zero, suc, ◌+◌, ◌%◌, ◌<◌, ◌≡◌, ◌≢◌, ◌⊎◌, inl, inr, refl, Bool, true, false, List, [], ◌∷◌,
  Option, none, some, arith, ◌==◌, Bool-cases, ==→ne, Option-cases,
}
use circle.State.{State, WorkState, Message, pick_proc, get_next_proc}
use circle.Receive.{WorkReply, take_in, work_receive, check_reply, ask, request_work}

module _ (rand_r : ℕ → ℕ × ℕ) where
  -- The seed after `n` draws.
  abbrev pub seed_after : ℕ → ℕ → ℕ
  seed_after zero seed = seed
  seed_after (suc n) seed = seed_after n (rand_r seed).1

  abbrev pub draw : ℕ → ℕ → ℕ
  draw n seed = (rand_r (seed_after n seed)).0

  -- In a job of several ranks the choice ends as soon as the generator draws another rank, with
  -- fuel above the number of that draw: the result is a rank of the job, and not the rank itself.
  pub get_next_proc_other :
      (n fuel size rank : ℕ) (w : WorkState)
      → 1 < size
      → n < fuel
      → draw n w.seed % size ≢ rank
      → (r : ℕ) × ((get_next_proc rand_r fuel size rank w).next_processor ≡ some r)
        × (r < size)
        × (r ≢ rank)
  unfolding get_next_proc pick_proc
  get_next_proc_other n zero size rank w several h other = absurd (omega arith)
  get_next_proc_other zero (suc fuel) size rank w several h other =
      (draw 0 w.seed % size, ground arith, mod-lt (draw 0 w.seed) (omega arith), other)
  get_next_proc_other (suc n) (suc fuel) size rank w several h other =
      elim (Bool-cases (draw 0 w.seed % size == rank)) [
        | inl same ↦
            let ih =
              get_next_proc_other n fuel size rank
                (record w {
                  seed = (rand_r w.seed).1;
                  next_processor = some (draw 0 w.seed % size);
                })
                several (omega arith) other in
            (ih.0, ground (arith, ih.1, same), ih.2, ih.3)
        | inr found ↦ (
          draw 0 w.seed % size,
          ground (arith, found),
          mod-lt (draw 0 w.seed) (omega arith),
          ==→ne (draw 0 w.seed % size) rank found,
        )
      ]

  pick_proc-Keeps :
      (fuel size rank : ℕ) (w : WorkState)
      → ((pick_proc rand_r fuel size rank w).work_requested ≡ w.work_requested)
        × ((pick_proc rand_r fuel size rank w).work_requested_rank ≡ w.work_requested_rank)
  unfolding pick_proc
  pick_proc-Keeps zero size rank w = (refl, refl)
  pick_proc-Keeps (suc fuel) size rank w =
      let ih =
        pick_proc-Keeps fuel size rank (record w {
          seed = (rand_r w.seed).1;
          next_processor = some ((rand_r w.seed).0 % size);
        }) in
      ground (arith, ih)

  pub get_next_proc-Keeps :
      (fuel size rank : ℕ) (w : WorkState)
      → ((get_next_proc rand_r fuel size rank w).work_requested ≡ w.work_requested)
        × ((get_next_proc rand_r fuel size rank w).work_requested_rank ≡ w.work_requested_rank)
  unfolding get_next_proc
  get_next_proc-Keeps fuel size rank w = ground (arith, pick_proc-Keeps fuel size rank w)

  module _ (fuel page_size : ℕ) (allocates : Bool) where
    work_receive_sends :
        (s : State) (source : ℕ) (ints chars : List ℕ)
        → let sent = (work_receive page_size allocates s source ints chars).2 in
          (sent ≡ []) ⊎ (sent ≡ (source, Message.work_receipt) ∷ [])
    unfolding work_receive
    work_receive_sends s source ints chars =
        elim (Option-cases (take_in page_size s.queue ints chars)) [
          | inl e ↦ ground (arith, e)
          | inr (q, e) ↦ ground (arith, e)
        ]

    -- While a request is outstanding, no other is sent: without a reply nothing happens, and with
    -- the reply the note is taken back, and nothing is sent but a receipt for work, to the rank that
    -- was asked.
    pub request_work_waits :
        (s : State) (cleanup : Bool) (reply : Option WorkReply)
        → s.work.work_requested ≡ true
        → let (_, s1, sent) = request_work rand_r fuel page_size allocates s cleanup reply in
          ((reply ≡ none) × (s1 ≡ s) × (sent ≡ []))
          ⊎ (((m : WorkReply) × (reply ≡ some m))
              × (s1.work.work_requested ≡ false)
              × ((sent ≡ []) ⊎ (sent ≡ (s.work.work_requested_rank, Message.work_receipt) ∷ [])))
    unfolding request_work check_reply
    request_work_waits s cleanup none asked = ground (arith, asked)
    request_work_waits s cleanup (some (ints, chars)) asked = inr (
      ((ints, chars), refl),
      ground (arith, asked),
      ground (arith, asked, work_receive_sends s s.work.work_requested_rank ints chars),
    )

    -- While none is outstanding, the state stays and nothing is sent, or, outside of cleanup and
    -- abort, one request goes to the rank that was chosen, with the note of that rank.
    pub request_work_asks :
        (s : State) (cleanup : Bool) (reply : Option WorkReply)
        → s.work.work_requested ≡ false
        → let (_, s1, sent) = request_work rand_r fuel page_size allocates s cleanup reply in
          ((s1 ≡ s) × (sent ≡ []))
          ⊎ ((cleanup ≡ false)
              × (s.aborts.abort_flag ≡ false)
              × (s.work.next_processor ≡ some s1.work.work_requested_rank)
              × (s1.work.work_requested ≡ true)
              × (sent ≡ (s1.work.work_requested_rank, Message.work_request) ∷ []))
    unfolding request_work ask
    request_work_asks s cleanup reply idle = elim (Option-cases s.work.next_processor) [
      | inl e ↦ ground (arith, e)
      | inr (r, e) ↦ ground (
        arith,
        e,
        get_next_proc-Keeps fuel s.size s.rank (record s.work {
          local_work_requested = s.work.local_work_requested + 1;
          work_requested = true;
          work_requested_rank = r;
        }),
      )
    ]
