-- ===== src/Receive/Tests.antt =====
-- Tests of the transfer of work: rank 1 sends its two strings to rank 3.
use circle.Prelude.{
  List, ℕ, ◌+◌, ◌<◌, ◌≡◌, ◌≢◌, refl, true, false, [], ◌∷◌, ◌++◌, Option, some, arith,
}
use circle.Queue.Layout.{contents, IsValid}
use circle.State.{Message, get_next_proc}
use circle.Work.{send_work, workreq_check}
use circle.Receive.Conserve.{arrived, workreq_check-conserves}
use circle.Receive.{WorkReply, received, work_receive}
use circle.Receive.Exchange.{payload, work_transfer}
use circle.Receive.Requests.{get_next_proc_other}
use circle.Examples.{two_items-IsValid, rank_one, idle_rank, counter}

abbrev no_work : Option WorkReply
no_work = some (0 ∷ [], [])

work_transfer_example :
    let (done, s1, sent) = send_work true rank_one 3 2 in
    let (outcome, r1, receipt) =
      work_receive 1 true idle_rank 1 (payload sent).0 (payload sent).1 in
    (done ≡ true)
    × (outcome ≡ received)
    × (contents rank_one.queue ≡ contents r1.queue ++ contents s1.queue)
    × (r1.queue.count ≡ 2)
    × IsValid r1.queue
    × IsValid s1.queue
    × (s1.terms.work_outstanding ≡ rank_one.terms.work_outstanding + 1)
    × (receipt ≡ (1, Message.work_receipt) ∷ [])
work_transfer_example =
    work_transfer 1 (omega arith) (omega arith) rank_one idle_rank 3 1 2 two_items-IsValid refl
      (omega arith) (omega arith) (omega arith) (omega arith)

get_next_proc_other_example :
    (r : ℕ) × ((get_next_proc counter 2 3 2 rank_one.work).next_processor ≡ some r)
    × (r < 3)
    × (r ≢ 2)
get_next_proc_other_example =
    get_next_proc_other counter 1 2 3 2 rank_one.work (omega arith) (omega arith)
      (λ e. absurd (omega (arith, e)))

abbrev two_ranks : List ℕ
two_ranks = 0 ∷ 3 ∷ []

workreq_check-conserves_example :
    let (s1, sent) = workreq_check counter true rank_one two_ranks false in
    (contents rank_one.queue ≡ arrived 1 [] sent ++ contents s1.queue) × IsValid s1.queue
workreq_check-conserves_example =
    workreq_check-conserves 1 (omega arith) (omega arith) counter rank_one two_ranks false
      two_items-IsValid (omega arith) (omega arith)
