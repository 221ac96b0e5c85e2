-- ===== src/Work/Serve.antt =====
-- `workreqCheck` and `workreceiptCheck`: every request is answered once, and the rank keeps work.
use circle.Prelude.{
  ℕ, zero, suc, ◌+◌, ◌-◌, ◌≤◌, ◌≡◌, refl, Bool, true, false, List, [], ◌∷◌, arith, length, sum,
  get_or, ◌==◌, ◌||◌, ◌&&◌, if◌then◌else◌,
}
use circle.Queue.{Queue}
use circle.State.{State, TermState, Message, Send}
use circle.Work.{extend_offsets, send_work, send_shares, tail, reseed, workreceipt_check}

-- The ranks that get a reply to a request for work, in the order of the replies.
abbrev pub replied_ranks : List Send → List ℕ
replied_ranks [] = []
replied_ranks ((dest, Message.work_reply _) ∷ ms) = dest ∷ replied_ranks ms
replied_ranks (_ ∷ ms) = replied_ranks ms

-- Whether the bytes of work go to the rank that the reply before them went to. `last` is that rank.
abbrev pub bytes_follow : ℕ → List Send → Bool
bytes_follow last [] = true
bytes_follow last ((dest, Message.work_reply _) ∷ ms) = bytes_follow dest ms
bytes_follow last ((dest, Message.work_chars _) ∷ ms) = (dest == last) && bytes_follow last ms
bytes_follow last (_ ∷ ms) = bytes_follow last ms

-- Messages that answer the ranks of a list, one reply to each in this order, with the bytes for the
-- same rank behind it.
pub record Replies (requestors : List ℕ) (sent : List Send) : Type 0 where
  pub one_each : replied_ranks sent ≡ requestors
  pub in_place : (last : ℕ) → bytes_follow last sent ≡ true

abbrev pub one_if_some : ℕ → ℕ
one_if_some zero = 0
one_if_some (suc n) = 1

-- The shares that are not empty: each is one transfer of work.
abbrev pub transfers : List ℕ → ℕ
transfers [] = 0
transfers (n ∷ sizes) = one_if_some n + transfers sizes

send_work_counts :
    (s : State) (dest k : ℕ)
    → k ≤ s.queue.count
    → let (_, s1, sent) = send_work true s dest k in
      (s1.queue.count + k ≡ s.queue.count)
      × (s1.terms.work_outstanding ≡ s.terms.work_outstanding + one_if_some k)
unfolding send_work extend_offsets
send_work_counts s dest zero h = ground arith
send_work_counts s dest (suc k) h = ground arith

-- The numbers after the shares for the requestors.
pub send_shares_counts :
    (s : State) (requestors sizes : List ℕ)
    → length requestors ≡ length sizes
    → sum sizes ≤ s.queue.count
    → let (s1, sent) = send_shares true s requestors sizes in
      (s1.queue.count + sum sizes ≡ s.queue.count)
      × (s1.terms.work_outstanding ≡ s.terms.work_outstanding + transfers sizes)
unfolding send_shares
send_shares_counts s [] [] e h = (omega arith, omega arith)
send_shares_counts s [] (n ∷ sizes) e h = absurd (omega arith)
send_shares_counts s (r ∷ requestors) [] e h = absurd (omega arith)
send_shares_counts s (r ∷ requestors) (n ∷ sizes) e h =
    let one = send_work_counts s r n (omega arith) in
    let ih =
      send_shares_counts (send_work true s r n).1 requestors sizes (omega arith)
        (omega (arith, one.0)) in
    (omega (arith, one.0, ih.0), omega (arith, one.1, ih.1))

-- The shares of the requestors are those of all but the rank's own.
pub length-tail :
    (xs : List ℕ) (n : ℕ)
    → length xs ≡ n + 1
    → (length (tail xs) ≡ n) × (get_or xs 0 0 + sum (tail xs) ≡ sum xs)
length-tail [] n e = absurd (omega arith)
length-tail (x ∷ xs) n e = (omega arith, refl)

pub queue-reseed : (s : State) (n : ℕ) → (reseed s n).queue ≡ s.queue
unfolding reseed
queue-reseed s n = ground arith

-- Of `n` receipts that are there the loop takes as many as transfers are outstanding. If it takes
-- one, the flag of the termination allreduce is cleared.
pub workreceipt_check_lem :
    (n : ℕ) (t : TermState)
    → workreceipt_check t n ≡ record t {
      work_outstanding = t.work_outstanding - n;
      term_flag = if (n == 0) || (t.work_outstanding == 0) then t.term_flag else false;
    }
unfolding workreceipt_check
workreceipt_check_lem zero t = ground arith
workreceipt_check_lem (suc n) t = ground (
  arith,
  workreceipt_check_lem n
      (record t { work_outstanding = t.work_outstanding - 1; term_flag = false }),
)
