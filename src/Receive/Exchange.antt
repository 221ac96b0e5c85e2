-- ===== src/Receive/Exchange.antt =====
-- A transfer of work between two ranks: `sendWork` on the one, `workReceive` on the other.
use circle.Prelude.{
  ℕ, ◌+◌, ◌*◌, ◌^◌, ◌≤◌, ◌<◌, ◌≡◌, ◌≢◌, true, List, [], ◌∷◌, ◌++◌, some, arith, length, get_or,
}
use circle.Queue.{Queue}
use circle.Queue.Layout.{contents, IsValid}
use circle.State.{State, Message, Send}
use circle.Work.{extend_offsets, work_messages, without_last, send_work}
use circle.Receive.{received, WorkReply, take_in, work_receive}
use circle.Receive.Transfer.{
  reply, chars, taken, take_in-taken, taken-IsValid, taken-contents, rest-IsValid, count-eq,
}

-- What a list of messages brings as a reply to a request for work.
abbrev pub payload : List Send → WorkReply
payload [] = ([], [])
payload ((_, Message.work_reply ints) ∷ (_, Message.work_chars cs) ∷ _) = (ints, cs)
payload ((_, Message.work_reply ints) ∷ _) = (ints, [])
payload (_ ∷ _) = ([], [])

-- A share that is not empty is sent as it is.
pub send_work_some :
    (s : State) (dest k : ℕ)
    → 0 < k
    → let (done, s1, sent) = send_work true s dest k in
      (done ≡ true)
      × (s1.queue ≡ without_last s.queue k)
      × (s1.terms.work_outstanding ≡ s.terms.work_outstanding + 1)
      × (sent ≡ work_messages s.queue dest k)
unfolding send_work extend_offsets
send_work_some s dest k pos = ground arith

-- A reply that `take_in` accepts ends in the queue, and is acknowledged.
pub work_receive-some :
    (page_size : ℕ) (r : State) (source : ℕ) (ints cs : List ℕ) (q : Queue)
    → length ints ≢ 0
    → 0 < get_or ints 0 0
    → get_or ints 0 0 < 2 ^ 31
    → take_in page_size r.queue ints cs ≡ some q
    → let (outcome, r1, sent) = work_receive page_size true r source ints cs in
      (outcome ≡ received) × (r1.queue ≡ q) × (sent ≡ (source, Message.work_receipt) ∷ [])
unfolding work_receive extend_offsets
work_receive-some page_size r source ints cs q ne pos small e = ground arith

-- A rank with a valid queue sends its last `k` strings to one whose queue is empty. The strings
-- arrive in order: what the sender held is what the receiver holds on top of what the sender has
-- left, and both queues are valid. The sender counts one more outstanding transfer, and the receiver
-- acknowledges it with one receipt. The pool and the number of strings fit an `int`, the page size
-- is positive, and the offset arrays can be extended.
pub work_transfer :
    (page_size : ℕ)
    → 0 < page_size
    → 2 ^ 31 + page_size * 4096 ≤ 2 ^ 64
    → (s r : State) (dest source k : ℕ) → IsValid s.queue
    → r.queue.head ≡ 0
    → 0 < k
    → k ≤ s.queue.count
    → s.queue.count < 2 ^ 31
    → s.queue.head < 2 ^ 31
    → let (done, s1, sent) = send_work true s dest k in
      let (outcome, r1, receipt) =
        work_receive page_size true r source (payload sent).0 (payload sent).1 in
      (done ≡ true)
      × (outcome ≡ received)
      × (contents s.queue ≡ contents r1.queue ++ contents s1.queue)
      × (r1.queue.count ≡ k)
      × IsValid r1.queue
      × IsValid s1.queue
      × (s1.terms.work_outstanding ≡ s.terms.work_outstanding + 1)
      × (receipt ≡ (source, Message.work_receipt) ∷ [])
unfolding work_messages
work_transfer page_size pages room s r dest source k v fresh pos in_queue few small =
    let a = send_work_some s dest k pos in
    let tk = take_in-taken page_size pages s.queue r.queue k v pos in_queue few small fresh room in
    let kk = count-eq page_size pages s.queue r.queue k v pos in_queue few small fresh room in
    let b =
      work_receive-some page_size r source
        (reply page_size pages s.queue r.queue k v pos in_queue few small fresh room)
        (chars page_size pages s.queue r.queue k v pos in_queue few small fresh room)
        (taken page_size pages s.queue r.queue k v pos in_queue few small fresh room) (omega arith)
        (omega (arith, kk)) (omega (arith, kk)) tk in
    rw a.3 (
      a.0,
      b.0,
      rw (b.1, a.1)
          (taken-contents page_size pages s.queue r.queue k v pos in_queue few small fresh room),
      rw b.1 kk,
      rw b.1 (taken-IsValid page_size pages s.queue r.queue k v pos in_queue few small fresh room),
      rw a.1 (rest-IsValid page_size pages s.queue r.queue k v pos in_queue few small fresh room),
      a.2,
      b.2,
    )
