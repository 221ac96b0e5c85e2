-- ===== src/Receive/Conserve.antt =====
-- No work is lost or made up when a rank serves all requests that it has.
use circle.Prelude.{
  ℕ, zero, suc, ◌+◌, ◌-◌, ◌*◌, ◌^◌, ◌≤◌, ◌<◌, ◌≡◌, refl, sym, ap, ◌∙◌, Bool, true, false, ◌||◌,
  List, [], ◌∷◌, ◌++◌, append_assoc, none, some, arith, length, sum, subst, ==→ne, ◌==◌,
  if◌then◌else◌,
}
use circle.Queue.{Queue, new_queue}
use circle.Queue.Layout.{contents, IsValid, Layout-lt}
use circle.State.{State, Message, Send}
use circle.Work.{
  work_messages, without_last, send_work, send_shares, send_no_work, send_no_work_to_all, shares,
  tail, reseed, send_work_to_many, workreq_check,
}
use circle.Work.Shares.{shares_lem}
use circle.Work.Serve.{length-tail, queue-reseed}
use circle.Receive.{take_in}
use circle.Receive.Transfer.{reply, taken, take_in-taken, taken-contents, rest-IsValid}
use circle.Receive.Exchange.{send_work_some}

-- The two ways to serve requests.
pub serve_cases :
    (P : State × List Send → Type 0) (p q : State × List Send) (empty cleanup aborted : Bool)
    → P p
    → (empty ≡ false → P q)
    → P (if empty || cleanup || aborted then p else q)
serve_cases P p q true cleanup aborted h k = h
serve_cases P p q false true aborted h k = h
serve_cases P p q false false true h k = h
serve_cases P p q false false false h k = k refl

module _ (page_size : ℕ) where
  -- The strings that a new queue has after it has taken in a reply.
  abbrev pub strings_in : List ℕ → List ℕ → List (List ℕ)
  strings_in ints cs = elim (take_in page_size new_queue ints cs) [
    | none ↦ []
    | some q ↦ contents q
  ]

  -- The strings in some messages, in order; `ints` is the reply that was last.
  abbrev pub arrived : List ℕ → List Send → List (List ℕ)
  arrived ints [] = []
  arrived ints ((_, Message.work_reply next) ∷ ms) = arrived next ms
  arrived ints ((_, Message.work_chars cs) ∷ ms) = strings_in ints cs ++ arrived ints ms
  arrived ints (_ ∷ ms) = arrived ints ms

  arrived-send_no_work_to_all :
      (s : State) (requestors ints : List ℕ) → arrived ints (send_no_work_to_all s requestors) ≡ []
  unfolding send_no_work_to_all send_no_work
  arrived-send_no_work_to_all s [] ints = refl
  arrived-send_no_work_to_all s (r ∷ requestors) ints = arrived-send_no_work_to_all s requestors _

  module _ (pages : 0 < page_size) (room : 2 ^ 31 + page_size * 4096 ≤ 2 ^ 64) where
    -- One share that is not empty.
    arrived-send_work :
        (s : State) (dest k : ℕ) (ints : List ℕ) (rest : List Send)
        → IsValid s.queue
        → 0 < k
        → k ≤ s.queue.count
        → s.queue.count < 2 ^ 31
        → s.queue.head < 2 ^ 31
        → (next : List ℕ) × (strings : List (List ℕ)) × (arrived ints
              (work_messages s.queue dest k ++ rest)
            ≡ strings ++ arrived next rest)
          × (contents s.queue ≡ strings ++ contents (without_last s.queue k))
          × IsValid (without_last s.queue k)
    unfolding work_messages
    arrived-send_work s dest k ints rest v pos in_queue few small =
        let tk =
          take_in-taken page_size pages s.queue new_queue k v pos in_queue few small refl room in
        let q = taken page_size pages s.queue new_queue k v pos in_queue few small refl room in
        let next : List ℕ =
          reply page_size pages s.queue new_queue k v pos in_queue few small refl room in
        (
          next,
          contents q,
          ap (λ o. (elim o [ none ↦ [] | some q ↦ contents q ]) ++ arrived next rest) tk,
          taken-contents page_size pages s.queue new_queue k v pos in_queue few small refl room,
          rest-IsValid page_size pages s.queue new_queue k v pos in_queue few small refl room,
        )

    pub send_work_none :
        (s : State) (dest : ℕ) → send_work true s dest 0 ≡ (true, s, send_no_work s dest)
    unfolding send_work
    send_work_none s dest = refl

    arrived-send_shares :
        (s : State) (requestors sizes ints : List ℕ)
        → IsValid s.queue
        → sum sizes ≤ s.queue.count
        → s.queue.count < 2 ^ 31
        → s.queue.head < 2 ^ 31
        → let (s1, sent) = send_shares true s requestors sizes in
          (contents s.queue ≡ arrived ints sent ++ contents s1.queue) × IsValid s1.queue
    unfolding send_shares send_no_work without_last
    arrived-send_shares s [] sizes ints v in_queue few small = (refl, v)
    arrived-send_shares s (r ∷ requestors) [] ints v in_queue few small = (refl, v)
    arrived-send_shares s (r ∷ requestors) (zero ∷ sizes) ints v in_queue few small =
        subst
          (λ w.
            let (s1, rest) = send_shares true w.1 requestors sizes in
            (contents s.queue ≡ arrived ints (w.2 ++ rest) ++ contents s1.queue) × IsValid s1.queue)
          (sym (send_work_none s r))
          (arrived-send_shares s requestors sizes _ v (omega arith) few small)
    arrived-send_shares s (r ∷ requestors) (suc n ∷ sizes) ints v in_queue few small =
        let (_, s1, sent) = send_work true s r (suc n) in
        let (s2, rest) = send_shares true s1 requestors sizes in
        let (_, left, _, same) = send_work_some s r (suc n) (omega arith) in
        let (next, strings, e1, e2, v1) =
          arrived-send_work s r (suc n) ints rest v (omega arith) (omega arith) few small in
        let lower =
          Layout-lt s.queue.strings.cell s.queue.count s.queue.head (s.queue.count - suc n) v.layout
            (omega arith) in
        let ih =
          arrived-send_shares s1 requestors sizes next (subst IsValid (sym left) v1)
            (omega (arith, ap (λ (q : Queue). q.count) left))
            (omega (arith, ap (λ (q : Queue). q.count) left))
            (omega (arith, ap (λ (q : Queue). q.head) left, lower)) in
        (
          e2
              ∙ ap (λ l. strings ++ l) (ap contents (sym left) ∙ ih.0)
              ∙ sym (append_assoc strings (arrived next rest) (contents s2.queue))
              ∙ ap (λ l. l ++ contents s2.queue)
                  (sym (ap (λ m. arrived ints (m ++ rest)) same ∙ e1)),
          ih.1,
        )

    arrived-send_work_to_many :
        (rand_r : ℕ → ℕ × ℕ) (s : State) (requestors : List ℕ)
        → IsValid s.queue
        → 0 < length requestors
        → 0 < s.queue.count
        → s.queue.count < 2 ^ 31
        → s.queue.head < 2 ^ 31
        → let (s1, sent) = send_work_to_many rand_r true s requestors in
          (contents s.queue ≡ arrived [] sent ++ contents s1.queue) × IsValid s1.queue
    unfolding send_work_to_many
    arrived-send_work_to_many rand_r s requestors v some_one work few small =
        let number = (rand_r s.work.seed).0 in
        let all = shares s.split_equal number (length requestors) s.queue.count in
        let f = shares_lem s.split_equal number (length requestors) s.queue.count some_one work in
        let t = length-tail all (length requestors) f.0 in
        let q = queue-reseed s (rand_r s.work.seed).1 in
        let sent =
          arrived-send_shares (reseed s (rand_r s.work.seed).1) requestors (tail all) []
            (subst IsValid (sym q) v) (rw q (omega (arith, t.1, f.1))) (rw q few) (rw q small) in
        (ap contents (sym q) ∙ sent.0, sent.1)

    -- Serving all requests that are there loses no work and makes none up: what a rank with a valid
    -- queue held before is, in order, the strings in the messages that it sends and then what it
    -- holds afterwards. Its queue stays valid. The pool and the number of strings fit an `int`, the
    -- page size is positive, and the offset arrays can be extended.
    pub workreq_check-conserves :
        (rand_r : ℕ → ℕ × ℕ) (s : State) (requestors : List ℕ) (cleanup : Bool)
        → IsValid s.queue
        → s.queue.count < 2 ^ 31
        → s.queue.head < 2 ^ 31
        → let (s1, sent) = workreq_check rand_r true s requestors cleanup in
          (contents s.queue ≡ arrived [] sent ++ contents s1.queue) × IsValid s1.queue
    unfolding workreq_check
    workreq_check-conserves rand_r s [] cleanup v few small = (refl, v)
    workreq_check-conserves rand_r s (r ∷ requestors) cleanup v few small =
        let refused : contents s.queue
            ≡ arrived [] (send_no_work_to_all s (r ∷ requestors)) ++ contents s.queue =
          ap (λ l. l ++ contents s.queue)
            (sym (arrived-send_no_work_to_all s (r ∷ requestors) [])) in
        serve_cases
          (λ w. (contents s.queue ≡ arrived [] w.1 ++ contents w.0.queue) × IsValid w.0.queue)
          (s, send_no_work_to_all s (r ∷ requestors))
          (send_work_to_many rand_r true s (r ∷ requestors)) (s.queue.count == 0) cleanup
          s.aborts.abort_flag (refused, v)
          (λ e.
            arrived-send_work_to_many rand_r s (r ∷ requestors) v (omega arith)
              (omega (arith, ==→ne s.queue.count 0 e)) few small)
