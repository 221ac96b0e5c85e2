-- ===== src/Pool/Balance.antt =====
-- Serving requests, as a balance: what the queue had is in the parcels and in what it still has.
use circle.Prelude.{
  ℕ, zero, suc, ◌+◌, ◌-◌, ◌*◌, ◌^◌, ◌≤◌, ◌<◌, ◌≡◌, inl, inr, refl, sym, ap, Bool-cases, Bool, true,
  List, [], ◌∷◌, ◌++◌, arith, length, sum, subst, ==→ne, ◌==◌, All,
}
use circle.Queue.{Queue, new_queue}
use circle.Queue.Layout.{contents, IsValid, Layout-lt}
use circle.State.{State, Send}
use circle.Work.{
  payload_abort, work_messages, without_last, send_work, send_shares, send_no_work,
  send_no_work_to_all, shares, tail, reseed, send_work_to_many, workreq_check,
}
use circle.Work.Shares.{shares_lem}
use circle.Work.Serve.{length-tail, queue-reseed}
use circle.Receive.Transfer.{rest-IsValid}
use circle.Receive.Exchange.{send_work_some}
use circle.Receive.Conserve.{serve_cases, send_work_none}
use circle.Pool.{parcels_of, Fits}
use circle.Pool.Share.{
  weight, weigh, InOrder, ints_sent, parcel-InOrder, parcel-weight, parcels-work_messages,
}

module _ (page_size : ℕ) where
  -- What some messages of rank `i` say of the queue before and after.
  pub record Accounts (f : List ℕ → ℕ) (i : ℕ) (last : List ℕ) (q q1 : Queue) (sent : List Send)
      : Type 0 where
    pub in_order : All (InOrder page_size) (parcels_of i last sent)
    pub balance :
        weight f (contents q) ≡ weigh page_size f (parcels_of i last sent) + weight f (contents q1)
    pub valid : IsValid q1

  module _ (f : List ℕ → ℕ) (i : ℕ) where
    nothing-Accounts :
        (s : State) (r : ℕ) (last : List ℕ) (q q1 : Queue) (rest : List Send)
        → ((next : List ℕ) → Accounts f i next q q1 rest)
        → Accounts f i last q q1 (send_no_work s r ++ rest)
    unfolding send_no_work
    nothing-Accounts s r last q q1 rest h = elim (Bool-cases s.aborts.abort_flag) [
      | inl e ↦ rw e (record {
        in_order = (
          record {
            there = ground arith;
            small = λ w. absurd (ground (arith, w));
            fits = λ w. absurd (ground (arith, w));
          },
          (h (payload_abort ∷ [])).in_order,
        );
        balance = omega (arith, (h (payload_abort ∷ [])).balance);
        valid = (h (payload_abort ∷ [])).valid;
      })
      | inr e ↦ rw e (record {
        in_order = (
          record {
            there = ground arith;
            small = λ w. absurd (ground (arith, w));
            fits = λ w. absurd (ground (arith, w));
          },
          (h (0 ∷ [])).in_order,
        );
        balance = omega (arith, (h (0 ∷ [])).balance);
        valid = (h (0 ∷ [])).valid;
      })
    ]

    no_work-Accounts :
        (s : State) (requestors last : List ℕ)
        → IsValid s.queue
        → Accounts f i last s.queue s.queue (send_no_work_to_all s requestors)
    unfolding send_no_work_to_all
    no_work-Accounts s [] last v = record { in_order = tt; balance = omega arith; valid = v }
    no_work-Accounts s (r ∷ requestors) last v =
        nothing-Accounts s r last s.queue s.queue (send_no_work_to_all s requestors)
          (λ next. no_work-Accounts s requestors next v)

  module _ (pages : 0 < page_size) (room : 2 ^ 31 + page_size * 4096 ≤ 2 ^ 64) (f : List ℕ → ℕ)
      (i : ℕ) where
    share-Accounts :
        (s : Queue) (r k : ℕ) (last : List ℕ) (q1 : Queue) (rest : List Send)
        → IsValid s
        → 0 < k
        → k ≤ s.count
        → Fits s
        → ((next : List ℕ) → Accounts f i next (without_last s k) q1 rest)
        → Accounts f i last s q1 (work_messages s r k ++ rest)
    share-Accounts s r k last q1 rest v pos in_queue fits h =
        let next = ints_sent page_size pages room s k v pos in_queue fits.0 fits.1 in
        let a = h next in
        let split =
          parcels-work_messages page_size pages room s k v pos in_queue fits.0 fits.1 i r last
            rest in
        record {
          in_order = subst (All (InOrder page_size)) (sym split) (
            parcel-InOrder page_size pages room s k v pos in_queue fits.0 fits.1 i r,
            a.in_order,
          );
          balance = rw split (
              omega (
                arith,
                a.balance,
                parcel-weight page_size pages room s k v pos in_queue fits.0 fits.1 f i r,
              ));
          valid = a.valid;
        }

    send_shares-Accounts :
        (s : State) (requestors sizes last : List ℕ)
        → IsValid s.queue
        → sum sizes ≤ s.queue.count
        → Fits s.queue
        → let (s1, sent) = send_shares true s requestors sizes in
          Accounts f i last s.queue s1.queue sent
    unfolding send_shares without_last
    send_shares-Accounts s [] sizes last v in_queue fits = record {
      in_order = tt;
      balance = omega arith;
      valid = v;
    }
    send_shares-Accounts s (r ∷ requestors) [] last v in_queue fits = record {
      in_order = tt;
      balance = omega arith;
      valid = v;
    }
    send_shares-Accounts s (r ∷ requestors) (zero ∷ sizes) last v in_queue fits =
        subst
          (λ w.
            let (s1, rest) = send_shares true w.1 requestors sizes in
            Accounts f i last s.queue s1.queue (w.2 ++ rest))
          (sym (send_work_none page_size pages room s r))
          (nothing-Accounts f i s r last s.queue _ _
            (λ next. send_shares-Accounts s requestors sizes next v (omega (arith, in_queue)) fits))
    send_shares-Accounts s (r ∷ requestors) (suc n ∷ sizes) last v in_queue fits =
        let (_, s1, sent) = send_work true s r (suc n) in
        let (s2, rest) = send_shares true s1 requestors sizes in
        let (_, left, _, same) = send_work_some s r (suc n) (omega arith) in
        let lower =
          Layout-lt s.queue.strings.cell s.queue.count s.queue.head (s.queue.count - suc n) v.layout
            (omega (arith, in_queue)) in
        let v1 =
          rest-IsValid page_size pages s.queue new_queue (suc n) v (omega arith)
            (omega (arith, in_queue)) fits.0 fits.1 refl room in
        let fewer = ap (λ (q : Queue). q.count) left in
        subst (λ m. Accounts f i last s.queue s2.queue (m ++ rest)) (sym same)
          (share-Accounts s.queue r (suc n) last s2.queue rest v (omega arith)
            (omega (arith, in_queue)) fits
            (λ next.
              subst (λ q. Accounts f i next q s2.queue rest) left
                (send_shares-Accounts s1 requestors sizes next (subst IsValid (sym left) v1)
                  (omega (arith, fewer, in_queue))
                  (
                    omega (arith, fewer, fits.0),
                    omega (arith, ap (λ (q : Queue). q.head) left, lower, fits.1),
                  ))))

    -- All requests of one check.
    pub workreq_check-Accounts :
        (rand_r : ℕ → ℕ × ℕ) (s : State) (requestors : List ℕ) (cleanup : Bool)
        → IsValid s.queue
        → Fits s.queue
        → let (s1, sent) = workreq_check rand_r true s requestors cleanup in
          Accounts f i [] s.queue s1.queue sent
    unfolding workreq_check send_work_to_many
    workreq_check-Accounts rand_r s [] cleanup v fits = record {
      in_order = tt;
      balance = omega arith;
      valid = v;
    }
    workreq_check-Accounts rand_r s (r ∷ requestors) cleanup v fits =
        let number = (rand_r s.work.seed).0 in
        let all = shares s.split_equal number (length (r ∷ requestors)) s.queue.count in
        let q = queue-reseed s (rand_r s.work.seed).1 in
        serve_cases (λ w. Accounts f i [] s.queue w.0.queue w.1)
          (s, send_no_work_to_all s (r ∷ requestors))
          (send_work_to_many rand_r true s (r ∷ requestors)) (s.queue.count == 0) cleanup
          s.aborts.abort_flag (no_work-Accounts f i s (r ∷ requestors) [] v)
          (λ e.
            let work : 0 < s.queue.count = omega (arith, ==→ne s.queue.count 0 e) in
            let fl =
              shares_lem s.split_equal number (length (r ∷ requestors)) s.queue.count (omega arith)
                work in
            let t = length-tail all (length (r ∷ requestors)) fl.0 in
            subst
              (λ c.
                Accounts f i [] c
                  (send_shares true (reseed s (rand_r s.work.seed).1) (r ∷ requestors)
                    (tail all)).0.queue
                  (send_shares true (reseed s (rand_r s.work.seed).1) (r ∷ requestors)
                    (tail all)).1)
              q
              (send_shares-Accounts (reseed s (rand_r s.work.seed).1) (r ∷ requestors) (tail all) []
                (subst IsValid (sym q) v) (rw q (omega (arith, t.1, fl.1))) (rw q fits)))
