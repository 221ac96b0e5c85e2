-- ===== src/Loop/Cleaning.antt =====
-- `mainLoop`, the cleaning loop: what a rank still sends.
use circle.Prelude.{
  ℕ, ◌≡◌, inl, inr, refl, sym, subst, if◌then◌else◌, Bool, true, false, List, [], ◌∷◌, ◌++◌, Option,
  none, some, arith, Bool-cases, All, All-append,
}
use circle.Queue.{Queue}
use circle.Tree.{children}
use circle.State.{Color, State, AbortState, ReduceState, Message, Send, to_children}
use circle.Token.{token_check, token_recv, token_is_send}
use circle.Barrier.{barrier_test, go_up, take_reply}
use circle.Abort.{abort_check, abort_start, answer_request}
use circle.Reduce.{Callbacks, Reply, reduce_check, complete, refuse, send_result}
use circle.Work.{send_no_work, send_no_work_to_all, workreq_check}
use circle.Receive.{request_work}
use circle.Receive.Requests.{request_work_waits, request_work_asks}
use circle.Loop.{
  Inputs, Phase, again, ended, serve, check_aborts, check_reduce, start_barrier, drain_token, drain,
  cleanup_step, ends_job,
}

-- Messages that leave their receiver with nothing to answer.
abbrev pub settles : Message → Bool
settles Message.work_request = false
settles (Message.work_reply ints) = true
settles (Message.work_chars bytes) = false
settles Message.work_receipt = true
settles (Message.token color) = true
settles Message.reduce_start = false
settles (Message.reduce_result valid objects bytes) = true
settles (Message.reduce_bytes bytes) = true
settles Message.barrier = true
settles (Message.term flag) = true
settles Message.abort_request = false
settles Message.abort_reply = true
settles (Message.abort_reduce flag) = true

abbrev pub Settles : Send → Type 0
Settles m = settles m.1 ≡ true

send_no_work_to_all-Settles :
    (s : State) (requestors : List ℕ) → All Settles (send_no_work_to_all s requestors)
unfolding send_no_work_to_all send_no_work
send_no_work_to_all-Settles s [] = tt
send_no_work_to_all-Settles s (r ∷ requestors) = (refl, send_no_work_to_all-Settles s requestors)

to_children-Settles :
    (kids : List ℕ) (m : Message) → settles m ≡ true → All Settles (to_children kids m)
to_children-Settles [] m e = tt
to_children-Settles (k ∷ kids) m e = (e, to_children-Settles kids m e)

reduce_check-Settles :
    (cb : Callbacks) (parent : Option ℕ) (kids : List ℕ) (r : ReduceState) (count : ℕ)
    (ms : List (Option Reply)) (now : ℕ) (pm : Bool)
    → All Settles (reduce_check cb parent kids r count true ms now pm).1
unfolding reduce_check complete refuse send_result
reduce_check-Settles cb none kids r count ms now pm = ground arith
reduce_check-Settles cb (some p) kids r count ms now pm = ground arith

abort_check-Settles :
    (parent : Option ℕ) (kids : List ℕ) (a : AbortState) (request : Option ℕ) (all_done : Bool)
    → All Settles (abort_check parent kids true a request all_done).1
unfolding abort_check answer_request abort_start
abort_check-Settles parent kids a none all_done = ground arith
abort_check-Settles parent kids a (some r) all_done = ground arith

barrier_test-Settles :
    (parent : Option ℕ) (kids : List ℕ) (s : State) (child up : Bool)
    → All Settles (barrier_test parent kids s.barriers child up).2
unfolding barrier_test go_up take_reply
barrier_test-Settles none kids s child up =
    ground (arith, to_children-Settles kids Message.barrier refl)
barrier_test-Settles (some p) kids s child up =
    ground (arith, to_children-Settles kids Message.barrier refl)

token_check-Settles :
    (s : State) (aborted : Bool) (incoming : Option Color)
    → All Settles (token_check s.rank s.size aborted s.tokens incoming).1
unfolding token_check token_recv token_is_send
token_check-Settles s aborted none = tt
token_check-Settles s aborted (some color) = ground arith

workreq_check_cleanup :
    (rand_r : ℕ → ℕ × ℕ) (allocates : Bool) (s : State) (rs : List ℕ)
    → workreq_check rand_r allocates s rs true ≡ (s, send_no_work_to_all s rs)
unfolding workreq_check send_no_work_to_all
workreq_check_cleanup rand_r allocates s [] = refl
workreq_check_cleanup rand_r allocates s (r ∷ rs) = ground arith

check_reduce-Settles :
    (cb : Callbacks) (s : State) (i : Inputs) → All Settles (check_reduce cb s i true).1
unfolding check_reduce
check_reduce-Settles cb s i = ground (
  arith,
  reduce_check-Settles cb s.tree.parent_rank (children s.tree) s.reduces
      s.work.local_objects_processed i.reduce_replies i.now i.reduce_asked,
)

drain_token-Settles : (s : State) (i : Inputs) → All Settles (drain_token s i).1
unfolding drain_token
drain_token-Settles s i = ground (arith, token_check-Settles s s.aborts.abort_flag i.token)

cond-Settles :
    (b : Bool) (p q : Phase × State × List Send)
    → All Settles p.2
    → All Settles q.2
    → All Settles (if b then p else q).2
cond-Settles true p q h k = h
cond-Settles false p q h k = k

module _ (rand_r : ℕ → ℕ × ℕ) (fuel page_size : ℕ) (allocates : Bool) (callbacks : Callbacks)
    (process : Queue → Queue) where
  pub serve_cleanup :
      (s : State) (i : Inputs)
      → serve rand_r fuel page_size allocates callbacks process s i true
        ≡ (s, send_no_work_to_all s i.requestors)
  unfolding serve
  serve_cleanup s i = workreq_check_cleanup rand_r allocates s i.requestors

  request_work-Settles :
      (s : State) (i : Inputs)
      → All Settles (request_work rand_r fuel page_size allocates s true i.work_reply).2
  request_work-Settles s i = elim (Bool-cases s.work.work_requested) [
    | inl e ↦
        ground (arith, request_work_waits rand_r fuel page_size allocates s true i.work_reply e)
    | inr e ↦
        ground (arith, request_work_asks rand_r fuel page_size allocates s true i.work_reply e)
  ]

  drain-Settles :
      (s : State) (i : Inputs)
      → All Settles (drain rand_r fuel page_size allocates callbacks process s i).2
  unfolding drain check_aborts drain_token check_reduce
  drain-Settles s i =
      let (s1, sent1) = serve rand_r fuel page_size allocates callbacks process s i true in
      let served : All Settles sent1 =
        subst (λ r. All Settles r.1) (sym (serve_cleanup s i))
          (send_no_work_to_all-Settles s i.requestors) in
      let (s2, sent2) = check_reduce callbacks s1 i true in
      let reduced : All Settles sent2 = check_reduce-Settles callbacks s1 i in
      let (outcome, s3, sent3) =
        request_work rand_r fuel page_size allocates s2 true i.work_reply in
      let asked : All Settles sent3 = request_work-Settles s2 i in
      let (s4, sent4) = check_aborts s3 i true in
      let answered : All Settles sent4 =
        abort_check-Settles s3.tree.parent_rank (children s3.tree) s3.aborts i.abort_from
          i.aborts_done in
      let (s5, sent5) = drain_token s4 i in
      let drained : All Settles sent5 = drain_token-Settles s4 i in
      let before : All Settles (sent1 ++ sent2 ++ sent3) =
        All-append Settles (sent1 ++ sent2) sent3 (All-append Settles sent1 sent2 served reduced)
          asked in
      let all : All Settles (sent1 ++ sent2 ++ sent3 ++ sent4 ++ sent5) =
        All-append Settles (sent1 ++ sent2 ++ sent3 ++ sent4) sent5
          (All-append Settles (sent1 ++ sent2 ++ sent3) sent4 before answered) drained in
      cond-Settles (ends_job outcome) (ended, s3, sent1 ++ sent2 ++ sent3)
        (again, s5, sent1 ++ sent2 ++ sent3 ++ sent4 ++ sent5) before all

  -- In the cleaning loop a rank sends only what settles a message: it asks for no work, hands out
  -- none, and starts no reduction and no spreading of an abort, whatever its probes find.
  pub cleanup_step-Settles :
      (s : State) (i : Inputs)
      → All Settles (cleanup_step rand_r fuel page_size allocates callbacks process s i).2
  unfolding cleanup_step
  cleanup_step-Settles s i =
      let s1 : State = start_barrier s in
      let test =
        barrier_test s1.tree.parent_rank (children s1.tree) s1.barriers i.barrier_child
          i.barrier_parent in
      let tested =
        barrier_test-Settles s1.tree.parent_rank (children s1.tree) s1 i.barrier_child
          i.barrier_parent in
      let s2 : State = record s1 { barriers = test.1 } in
      ground (
        arith,
        tested,
        All-append Settles test.2 (drain rand_r fuel page_size allocates callbacks process s2 i).2
            tested (drain-Settles s2 i),
      )
