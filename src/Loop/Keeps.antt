-- ===== src/Loop/Keeps.antt =====
-- What the working loop leaves alone: the barrier, and the mode of termination.
use circle.Prelude.{
  ℕ, ◌≡◌, inl, inr, refl, ◌∙◌, Bool, true, false, List, [], ◌∷◌, ◌++◌, length, if◌then◌else◌,
  Option, none, some, arith, Option-cases,
}
use circle.Queue.{Queue}
use circle.State.{State, Send}
use circle.Reduce.{Callbacks}
use circle.Work.{
  send_shares, send_work, extend_offsets, send_work_to_many, reseed, tail, shares, workreq_check,
  blacken,
}
use circle.Receive.{WorkReply, request_work, check_reply, ask, work_receive, take_in}
use circle.Loop.{
  Inputs, Phase, again, left, ended, go_on, serve, take_receipts, check_aborts, check_reduce,
  request_if_idle, process_one, work_or_check, check_termination, work_step, work_loop, ends_job,
}

-- What the working loop leaves alone.
abbrev pub Keeps : State → State → Type 0
Keeps s s1 = (s1.barriers ≡ s.barriers) × (s1.term_tree_enabled ≡ s.term_tree_enabled)

module _ (allocates : Bool) where
  send_work-Keeps : (s : State) (dest count : ℕ) → Keeps s (send_work allocates s dest count).1
  unfolding send_work blacken extend_offsets
  send_work-Keeps s dest count = ground arith

  send_shares-Keeps :
      (s : State) (requestors sizes : List ℕ) → Keeps s (send_shares allocates s requestors sizes).0
  unfolding send_shares
  send_shares-Keeps s [] sizes = (refl, refl)
  send_shares-Keeps s (r ∷ requestors) [] = (refl, refl)
  send_shares-Keeps s (r ∷ requestors) (n ∷ sizes) =
      let one = send_work-Keeps s r n in
      let rest = send_shares-Keeps (send_work allocates s r n).1 requestors sizes in
      (rest.0 ∙ one.0, rest.1 ∙ one.1)

  workreq_check-Keeps :
      (rand_r : ℕ → ℕ × ℕ) (s : State) (requestors : List ℕ) (cleanup : Bool)
      → Keeps s (workreq_check rand_r allocates s requestors cleanup).0
  unfolding workreq_check send_work_to_many reseed
  workreq_check-Keeps rand_r s [] cleanup = (refl, refl)
  workreq_check-Keeps rand_r s (r ∷ requestors) cleanup = ground (
    arith,
    send_shares-Keeps (reseed s (rand_r s.work.seed).1) (r ∷ requestors) (
        tail (shares s.split_equal (rand_r s.work.seed).0 (length (r ∷ requestors)) s.queue.count)),
  )

Keeps-trans : (s t u : State) → Keeps s t → Keeps t u → Keeps s u
Keeps-trans s t u h k = (k.0 ∙ h.0, k.1 ∙ h.1)

check_aborts-Keeps :
    (s : State) (i : Inputs) (cleanup : Bool) → Keeps s (check_aborts s i cleanup).0
unfolding check_aborts
check_aborts-Keeps s i cleanup = (refl, refl)

check_reduce-Keeps :
    (callbacks : Callbacks) (s : State) (i : Inputs) (cleanup : Bool)
    → Keeps s (check_reduce callbacks s i cleanup).0
unfolding check_reduce
check_reduce-Keeps callbacks s i cleanup = ground arith

work_or_check-Keeps :
    (rand_r : ℕ → ℕ × ℕ) (fuel page_size : ℕ) (allocates : Bool) (callbacks : Callbacks)
    (process : Queue → Queue) (s : State) (i : Inputs)
    → Keeps s (work_or_check rand_r fuel page_size allocates callbacks process s i).1
unfolding work_or_check check_termination process_one
work_or_check-Keeps rand_r fuel page_size allocates callbacks process s i = ground arith

go_on-Keeps :
    (s : State) (phase : Phase) (s1 : State) (sent : List Send) (rest : Phase × State × List Send)
    → Keeps s s1
    → Keeps s rest.1
    → Keeps s (go_on phase s1 sent rest).1
unfolding go_on
go_on-Keeps s again s1 sent rest here there = there
go_on-Keeps s left s1 sent rest here there = here
go_on-Keeps s ended s1 sent rest here there = here

module _ (rand_r : ℕ → ℕ × ℕ) (fuel page_size : ℕ) (allocates : Bool) where
  request_work-Keeps :
      (s : State) (cleanup : Bool) (reply : Option WorkReply)
      → Keeps s (request_work rand_r fuel page_size allocates s cleanup reply).1
  unfolding request_work check_reply work_receive ask
  request_work-Keeps s cleanup none = ground arith
  request_work-Keeps s cleanup (some (ints, chars)) =
      elim (Option-cases (take_in page_size s.queue ints chars)) [
        | inl e ↦ ground (arith, e)
        | inr (q, e) ↦ ground (arith, e)
      ]

  module _ (callbacks : Callbacks) (process : Queue → Queue) where
    request_if_idle-Keeps :
        (s : State) (i : Inputs)
        → Keeps s (request_if_idle rand_r fuel page_size allocates callbacks process s i).1
    unfolding request_if_idle
    request_if_idle-Keeps s i = ground (arith, request_work-Keeps s false i.work_reply)

    cond-Keeps :
        (s : State) (t : Bool) (p q : Phase × State × List Send)
        → Keeps s p.1
        → Keeps s q.1
        → Keeps s (if t then p else q).1
    cond-Keeps s true p q h k = h
    cond-Keeps s false p q h k = k

    work_step-Keeps :
        (s : State) (i : Inputs)
        → Keeps s (work_step rand_r fuel page_size allocates callbacks process s i).1
    unfolding work_step serve take_receipts
    work_step-Keeps s i =
        let (s1, sent1) = workreq_check rand_r allocates s i.requestors false in
        let s1b = take_receipts s1 i in
        let (s2, sent2) = check_aborts s1b i false in
        let (s3, sent3) = check_reduce callbacks s2 i false in
        let (outcome, s4, sent4) =
          request_if_idle rand_r fuel page_size allocates callbacks process s3 i in
        let (phase, s5, sent5) =
          work_or_check rand_r fuel page_size allocates callbacks process s4 i in
        let before = sent1 ++ sent2 ++ sent3 ++ sent4 in
        let k1 : Keeps s s1b = workreq_check-Keeps allocates rand_r s i.requestors false in
        let k2 : Keeps s s2 = Keeps-trans s s1b s2 k1 (check_aborts-Keeps s1b i false) in
        let k3 : Keeps s s3 = Keeps-trans s s2 s3 k2 (check_reduce-Keeps callbacks s2 i false) in
        let k4 : Keeps s s4 = Keeps-trans s s3 s4 k3 (request_if_idle-Keeps s3 i) in
        let k5 : Keeps s s5 =
          Keeps-trans s s4 s5 k4
            (work_or_check-Keeps rand_r fuel page_size allocates callbacks process s4 i) in
        cond-Keeps s (ends_job outcome) (ended, s4, before) (phase, s5, before ++ sent5) k4 k5

    pub work_loop-Keeps :
        (rounds : List Inputs) (s : State)
        → Keeps s (work_loop rand_r fuel page_size allocates callbacks process s rounds).1
    unfolding work_loop
    work_loop-Keeps [] s = (refl, refl)
    work_loop-Keeps (i ∷ rounds) s =
        let (phase, s1, sent) = work_step rand_r fuel page_size allocates callbacks process s i in
        let one = work_step-Keeps s i in
        let later = work_loop rand_r fuel page_size allocates callbacks process s1 rounds in
        go_on-Keeps s phase s1 sent (later.0, later.1, sent ++ later.2) one
          (Keeps-trans s s1 later.1 one (work_loop-Keeps rounds s1))
