-- ===== src/Traffic/Serve.antt =====
-- What a rank sends when it serves requests: one reply to each, and each that brings work counts as
-- an outstanding transfer.
use circle.Prelude.{
  ℕ, zero, suc, ◌+◌, ◌^◌, ◌≤◌, ◌<◌, ◌≡◌, inl, inr, refl, sym, ap, ◌∙◌, Bool-cases, Bool, true,
  false, ◌&&◌, List, [], ◌∷◌, ◌++◌, arith, length, sum, subst, ==→ne, ◌==◌, if◌then◌else◌,
}
use circle.Queue.{Queue}
use circle.State.{State, Send}
use circle.Work.{
  to_int, work_messages, without_last, send_work, send_shares, send_no_work, send_no_work_to_all,
  shares, tail, reseed, send_work_to_many, workreq_check,
}
use circle.Work.Shares.{shares_lem}
use circle.Work.Serve.{length-tail, queue-reseed, transfers, send_shares_counts}
use circle.Receive.Exchange.{send_work_some}
use circle.Receive.Conserve.{serve_cases}
use circle.Pool.{Parcel, parcels_of, is_work}
use circle.Traffic.{occurrences}

-- The replies from rank `b` to rank `a`, and those from rank `b` that bring work.
abbrev pub between : ℕ → ℕ → List Parcel → ℕ
between b a [] = 0
between b a (p ∷ ps) = if (p.from == b) && (p.to == a) then suc (between b a ps) else between b a ps

abbrev pub works_from : ℕ → List Parcel → ℕ
works_from b [] = 0
works_from b (p ∷ ps) =
    if (p.from == b) && is_work p.ints then suc (works_from b ps) else works_from b ps

pub between-append :
    (b a : ℕ) (ps qs : List Parcel) → between b a (ps ++ qs) ≡ between b a ps + between b a qs
between-append b a [] qs = omega arith
between-append b a (p ∷ ps) qs = ground (arith, between-append b a ps qs)

pub works_from-append :
    (b : ℕ) (ps qs : List Parcel) → works_from b (ps ++ qs) ≡ works_from b ps + works_from b qs
works_from-append b [] qs = omega arith
works_from-append b (p ∷ ps) qs = ground (arith, works_from-append b ps qs)

-- The replies `ps` of rank `i`: one to each requestor, and `n` of them bring work.
pub record Answers (i : ℕ) (requestors : List ℕ) (n : ℕ) (ps : List Parcel) : Type 0 where
  pub replies : (b a : ℕ) → between b a ps ≡ (if b == i then occurrences a requestors else 0)
  pub works : (b : ℕ) → works_from b ps ≡ (if b == i then n else 0)

module _ (i : ℕ) where
  more-Answers :
      (p : Parcel) (work : Bool) (requestors : List ℕ) (n : ℕ) (ps : List Parcel)
      → p.from ≡ i
      → is_work p.ints ≡ work
      → Answers i requestors n ps
      → Answers i (p.to ∷ requestors) (if work then suc n else n) (p ∷ ps)
  more-Answers p work requestors n ps e brings h = record {
    replies = λ b a. ground (arith, e, h.replies b a);
    works = λ b. ground (arith, e, brings, h.works b);
  }

  -- The messages that follow a reply do not matter to it.
  nothing-Answers :
      (s : State) (r : ℕ) (requestors last : List ℕ) (n : ℕ) (rest : List Send)
      → ((said : List ℕ) → Answers i requestors n (parcels_of i said rest))
      → Answers i (r ∷ requestors) n (parcels_of i last (send_no_work s r ++ rest))
  unfolding send_no_work
  nothing-Answers s r requestors last n rest h = elim (Bool-cases s.aborts.abort_flag) [
    | inl e ↦ rw e (
        more-Answers (record { from = i; to = r; ints = _; chars = [] }) false requestors n _ refl
          refl (h _))
    | inr e ↦ rw e (
        more-Answers (record { from = i; to = r; ints = _; chars = [] }) false requestors n _ refl
          refl (h _))
  ]

  work-Answers :
      (q : Queue) (r k : ℕ) (requestors last : List ℕ) (n : ℕ) (rest : List Send)
      → 0 < k
      → k < 2 ^ 31
      → ((said : List ℕ) → Answers i requestors n (parcels_of i said rest))
      → Answers i (r ∷ requestors) (suc n) (parcels_of i last (work_messages q r k ++ rest))
  unfolding work_messages
  work-Answers q r k requestors last n rest pos few h =
      let brings : is_work (to_int k ∷ []) ≡ true = ground (arith, pos, few) in
      rw brings (
        more-Answers (record { from = i; to = r; ints = _; chars = _ }) true requestors n _ refl
          brings (h _))

  no_work-Answers :
      (s : State) (requestors last : List ℕ)
      → Answers i requestors 0 (parcels_of i last (send_no_work_to_all s requestors))
  unfolding send_no_work_to_all
  no_work-Answers s [] last = record { replies = λ b a. ground arith; works = λ b. ground arith }
  no_work-Answers s (r ∷ requestors) last =
      nothing-Answers s r requestors last 0 (send_no_work_to_all s requestors)
        (λ said. no_work-Answers s requestors said)

  send_work_nothing :
      (s : State) (dest : ℕ) → send_work true s dest 0 ≡ (true, s, send_no_work s dest)
  unfolding send_work
  send_work_nothing s dest = refl

  recounted :
      {requestors : List ℕ} {n : ℕ} {ps : List Parcel} (m : ℕ)
      → n ≡ m
      → Answers i requestors n ps
      → Answers i requestors m ps
  recounted {requestors} {n} {ps} m e h = subst (λ k. Answers i requestors k ps) e h

  send_shares-Answers :
      (s : State) (requestors sizes last : List ℕ)
      → length requestors ≡ length sizes
      → sum sizes ≤ s.queue.count
      → s.queue.count < 2 ^ 31
      → Answers i requestors
          (transfers sizes)
          (parcels_of i last (send_shares true s requestors sizes).1)
  unfolding send_shares without_last
  send_shares-Answers s [] [] last e h few = record {
    replies = λ b a. ground arith;
    works = λ b. ground arith;
  }
  send_shares-Answers s [] (n ∷ sizes) last e h few = absurd (omega (arith, e))
  send_shares-Answers s (r ∷ requestors) [] last e h few = absurd (omega (arith, e))
  send_shares-Answers s (r ∷ requestors) (zero ∷ sizes) last e h few =
      subst
        (λ (w : Bool × State × List Send).
          Answers i (r ∷ requestors) (0 + transfers sizes)
            (parcels_of i last (w.2 ++ (send_shares true w.1 requestors sizes).1)))
        (sym (send_work_nothing s r))
        (recounted (0 + transfers sizes) (omega arith) (
          nothing-Answers s r requestors last (transfers sizes)
            (send_shares true s requestors sizes).1
            (λ said.
              send_shares-Answers s requestors sizes said (omega (arith, e)) (omega (arith, h))
                few)))
  send_shares-Answers s (r ∷ requestors) (suc k ∷ sizes) last e h few =
      let (_, s1, sent) = send_work true s r (suc k) in
      let (s2, rest) = send_shares true s1 requestors sizes in
      let (_, left, _, same) = send_work_some s r (suc k) (omega arith) in
      let fewer = ap (λ (q : Queue). q.count) left in
      subst (λ m. Answers i (r ∷ requestors) (1 + transfers sizes) (parcels_of i last (m ++ rest)))
        (sym same)
        (recounted (1 + transfers sizes) (omega arith) (
          work-Answers s.queue r (suc k) requestors last (transfers sizes) rest (omega arith)
            (omega (arith, h, few))
            (λ said.
              send_shares-Answers s1 requestors sizes said (omega (arith, e))
                (omega (arith, fewer, h)) (omega (arith, fewer, few)))))

terms-reseed :
    (s : State) (seed n : ℕ)
    → (reseed s seed).terms.work_outstanding + n ≡ s.terms.work_outstanding + n
unfolding reseed
terms-reseed s seed n = ground arith

module _ (rand_r : ℕ → ℕ × ℕ) (i : ℕ) where
  abbrev Served : State → List ℕ → State × List Send → Type 0
  Served s requestors w =
      (n : ℕ) × (w.0.terms.work_outstanding ≡ s.terms.work_outstanding + n)
      × Answers i requestors n (parcels_of i [] w.1)

  -- Serving requests: the new replies, and the new number of outstanding transfers.
  pub workreq_check-Answers :
      (s : State) (requestors : List ℕ) (cleanup : Bool)
      → s.queue.count < 2 ^ 31
      → let (s1, sent) = workreq_check rand_r true s requestors cleanup in
        (n : ℕ) × (s1.terms.work_outstanding ≡ s.terms.work_outstanding + n)
        × Answers i requestors n (parcels_of i [] sent)
  unfolding workreq_check send_work_to_many
  workreq_check-Answers s [] cleanup few =
      (0, omega arith, record { replies = λ b a. ground arith; works = λ b. ground arith })
  workreq_check-Answers s (r ∷ requestors) cleanup few =
      let number = (rand_r s.work.seed).0 in
      let all = shares s.split_equal number (length (r ∷ requestors)) s.queue.count in
      let q = queue-reseed s (rand_r s.work.seed).1 in
      let count = ap (λ (x : Queue). x.count) q in
      serve_cases (Served s (r ∷ requestors)) (s, send_no_work_to_all s (r ∷ requestors))
        (send_work_to_many rand_r true s (r ∷ requestors)) (s.queue.count == 0) cleanup
        s.aborts.abort_flag (0, omega arith, no_work-Answers i s (r ∷ requestors) [])
        (λ e.
          let work : 0 < s.queue.count = omega (arith, ==→ne s.queue.count 0 e) in
          let fl =
            shares_lem s.split_equal number (length (r ∷ requestors)) s.queue.count (omega arith)
              work in
          let t = length-tail all (length (r ∷ requestors)) fl.0 in
          let s0 = reseed s (rand_r s.work.seed).1 in
          (
            transfers (tail all),
            (send_shares_counts s0 (r ∷ requestors) (tail all) (omega (arith, t.0))
                  (omega (arith, count, t.1, fl.1))).1
                ∙ terms-reseed s (rand_r s.work.seed).1 (transfers (tail all)),
            send_shares-Answers i s0 (r ∷ requestors) (tail all) [] (omega (arith, t.0))
                (omega (arith, count, t.1, fl.1)) (omega (arith, count, few)),
          ))
