-- ===== src/Pool/Conserve.antt =====
-- No work is lost, doubled or made up in a whole job.
use circle.Prelude.{
  total_zero, ℕ, ◌+◌, ◌*◌, ◌^◌, ◌≤◌, ◌<◌, ◌≡◌, ◌⊎◌, refl, sym, ap, ◌∙◌, Bool, true, false, List, [],
  ◌∷◌, ◌++◌, none, some, arith, length, subst, update, update_all, total, total_change, total_same,
  All, All-append, All-middle,
}
use circle.Queue.{Queue, Status, new_queue, pop}
use circle.Queue.Layout.{contents, IsValid, new_queue-IsValid, length-items}
use circle.Queue.Push.{push_lem}
use circle.Queue.Pop.{Pops, pop-Pops}
use circle.State.{State}
use circle.Work.{workreq_check}
use circle.Tree.Family.{ranks_from, elem-ranks_from}
use circle.Gather.Shape.{NoDup-ranks_from}
use circle.Loop.Working.{WaitsEmpty, workreq_check-WaitsEmpty}
use circle.Pool.{
  Parcel, parcels_of, Jobs, served, received, enqueued, dequeued, acknowledged, Fits, Reach, serves,
  asks, receives, enqueues, dequeues, acknowledges, here, next,
}
use circle.Pool.Share.{weight, weigh, weigh-append, InOrder}
use circle.Pool.Balance.{workreq_check-Accounts}
use circle.Pool.Receive.{empty_head, request_work-none, request_work-some}

module _ (page_size size : ℕ) (f : List ℕ → ℕ) where
  abbrev pub held : (ℕ → State) → ℕ → ℕ
  held ranks i = weight f (contents (ranks i).queue)

  -- The weight of all that the queues of the job hold.
  abbrev pub in_queues : (ℕ → State) → ℕ
  in_queues ranks = total (held ranks) (ranks_from 0 size)

  pub record Inv (w : Jobs) : Type 0 where
    pub valid : (i : ℕ) → IsValid (w.ranks i).queue
    pub waits : (i : ℕ) → WaitsEmpty (w.ranks i)
    pub in_order : All (InOrder page_size) w.parcels
    pub balance :
        in_queues w.ranks + weigh page_size f w.parcels + weight f w.processed ≡ weight f w.made

  -- A change on one rank.
  in_queues-update :
      (ranks : ℕ → State) (i : ℕ) (s : State)
      → i < size
      → in_queues (update ranks i s) + held ranks i ≡ in_queues ranks + weight f (contents s.queue)
  in_queues-update ranks i s lt =
      let here_now : held (update ranks i s) i ≡ weight f (contents s.queue) = ground arith in
      total_change (held (update ranks i s)) (held ranks) i (ranks_from 0 size)
        (NoDup-ranks_from 0 size) ((elem-ranks_from i 0 size).1 (omega arith, omega (arith, lt)))
        (λ j ne. ground (arith, ne))
      ∙ ap (λ n. in_queues ranks + n) here_now

  change-Inv :
      (w : Jobs) (i : ℕ) (s : State) (parcels : List Parcel) (made processed : List (List ℕ))
      → Inv w
      → i < size
      → IsValid s.queue
      → WaitsEmpty s
      → All (InOrder page_size) parcels
      → weight f (contents s.queue)
          + weigh page_size f parcels
          + weight f processed
          + weight f w.made
        ≡ held w.ranks i + weigh page_size f w.parcels + weight f w.processed + weight f made
      → Inv (record {
        ranks = update w.ranks i s;
        parcels = parcels;
        made = made;
        processed = processed;
      })
  change-Inv w i s parcels made processed v lt valid waits in_order same = record {
    valid = update_all (λ j t. IsValid t.queue) w.ranks i s valid v.valid;
    waits = update_all (λ j t. WaitsEmpty t) w.ranks i s waits v.waits;
    in_order = in_order;
    balance = omega (arith, same, v.balance, in_queues-update w.ranks i s lt);
  }

  popped :
      (q : Queue) (stack : List (List ℕ)) (r : Status × List ℕ × Queue)
      → contents q ≡ stack
      → 0 < q.count
      → Pops q [] stack r
      → IsValid r.2 × (weight f (contents q) ≡ f r.1 + weight f (contents r.2))
  popped q [] r e some_work h = absurd (
      omega (arith, ap length e, length-items q.base.cell q.strings.cell q.count q.head, some_work))
  popped q (x ∷ rest) r e some_work (q1, same, valid, holds, _, _) =
      subst (λ t. IsValid t.2 × (weight f (contents q) ≡ f t.1 + weight f (contents t.2)))
        (sym same) (valid, ap (weight f) e ∙ ap (λ l. f x + weight f l) (sym holds))

  module _ (rand_r : ℕ → ℕ × ℕ) (fuel : ℕ) (pages : 0 < page_size)
      (room : 2 ^ 32 + page_size * 4096 ≤ 2 ^ 64) where
    serves-Inv :
        (w : Jobs) (i : ℕ) (requestors : List ℕ) (cleanup : Bool)
        → Inv w
        → i < size
        → Fits (w.ranks i).queue
        → Inv (served rand_r fuel page_size w i requestors cleanup)
    serves-Inv w i requestors cleanup v lt fits =
        let a =
          workreq_check-Accounts page_size pages (omega (arith, room)) f i rand_r (w.ranks i)
            requestors cleanup (v.valid i) fits in
        let sent = (workreq_check rand_r true (w.ranks i) requestors cleanup).1 in
        change-Inv w i _ _ w.made w.processed v lt a.valid
          (workreq_check-WaitsEmpty true rand_r (w.ranks i) requestors cleanup (v.waits i))
          (All-append (InOrder page_size) w.parcels (parcels_of i [] sent) v.in_order a.in_order)
          (omega (arith, a.balance, weigh-append page_size f w.parcels (parcels_of i [] sent)))

    asks-Inv :
        (w : Jobs) (i : ℕ) (cleanup : Bool)
        → Inv w
        → i < size
        → ((w.ranks i).queue.count ≡ 0) ⊎ (cleanup ≡ true)
        → Inv (received rand_r fuel page_size w i cleanup none w.parcels)
    asks-Inv w i cleanup v lt may =
        let (same, waits) =
          request_work-none rand_r fuel page_size (w.ranks i) cleanup (v.waits i) may in
        change-Inv w i _ w.parcels w.made w.processed v lt (subst IsValid (sym same) (v.valid i))
          waits v.in_order (omega (arith, ap (λ q. weight f (contents q)) same))

    receives-Inv :
        (w : Jobs) (i : ℕ) (cleanup : Bool) (before : List Parcel) (p : Parcel)
        (after : List Parcel)
        → Inv w
        → i < size
        → w.parcels ≡ before ++ (p ∷ after)
        → (w.ranks i).work.work_requested ≡ true
        → Inv
            (received rand_r fuel page_size w i cleanup (some (p.ints, p.chars)) (before ++ after))
    receives-Inv w i cleanup before p after v lt there asked =
        let empty = v.waits i asked in
        let all =
          All-middle (InOrder page_size) before after p
            (subst (All (InOrder page_size)) there v.in_order) in
        let (valid, holds, over) =
          request_work-some rand_r fuel page_size (w.ranks i) cleanup p (v.valid i) asked empty
            all.0 in
        let held_before : held w.ranks i ≡ 0 =
          ap (weight f) (empty_head (w.ranks i).queue (v.valid i) empty).1 in
        change-Inv w i _ (before ++ after) w.made w.processed v lt valid
          (λ e. ground (arith, over, e)) all.1
          (omega (
            arith,
            held_before,
            ap (weight f) holds,
            ap (weigh page_size f) there,
            weigh-append page_size f before (p ∷ after),
            weigh-append page_size f before after,
          ))

    enqueues-Inv :
        (w : Jobs) (i : ℕ) (x : List ℕ)
        → Inv w
        → i < size
        → Fits (w.ranks i).queue
        → 0 < length x
        → length x < 2 ^ 31
        → (w.ranks i).work.work_requested ≡ false
        → Inv (enqueued rand_r fuel page_size w i x)
    enqueues-Inv w i x v lt fits some_bytes short free =
        let (_, valid, holds, _, _) =
          push_lem page_size pages (v.valid i) x some_bytes (omega (arith, short)) fits.0
            (omega (arith, fits.1, short, room)) in
        change-Inv w i _ w.parcels (x ∷ w.made) w.processed v lt valid
          (λ e. ground (arith, free, e)) v.in_order (omega (arith, ap (weight f) holds))

    dequeues-Inv :
        (w : Jobs) (i : ℕ) → Inv w → i < size → 0 < (w.ranks i).queue.count → Inv (dequeued w i)
    dequeues-Inv w i v lt some_work =
        let q = (w.ranks i).queue in
        let (valid, holds) =
          popped q (contents q) (pop q []) refl some_work (pop-Pops q [] (v.valid i)) in
        change-Inv w i _ w.parcels w.made ((pop q []).1 ∷ w.processed) v lt valid
          (λ e. absurd (omega (arith, v.waits i e, some_work))) v.in_order (omega (arith, holds))

    acknowledges-Inv : (w : Jobs) (i n : ℕ) → Inv w → i < size → Inv (acknowledged w i n)
    acknowledges-Inv w i n v lt =
        change-Inv w i _ w.parcels w.made w.processed v lt (v.valid i) (v.waits i) v.in_order
          (omega arith)

    start-balance :
        (ranks : ℕ → State) → ((i : ℕ) → (ranks i).queue ≡ new_queue) → in_queues ranks ≡ 0
    start-balance ranks fresh =
        total_same (held ranks) (λ i. 0) (ranks_from 0 size)
          (λ i m. ap (λ q. weight f (contents q)) (fresh i))
        ∙ total_zero (ranks_from 0 size)

    pub Reach-Inv : {w : Jobs} → Reach rand_r fuel page_size size w → Inv w
    Reach-Inv (here ranks fresh free) = record {
      valid = λ i. subst IsValid (sym (fresh i)) new_queue-IsValid;
      waits = λ i e. ground (arith, free i, e);
      in_order = tt;
      balance = omega (arith, start-balance ranks fresh);
    }
    Reach-Inv (next {v} r (serves i requestors cleanup lt fits)) =
        serves-Inv v i requestors cleanup (Reach-Inv r) lt fits
    Reach-Inv (next {v} r (asks i cleanup lt may)) = asks-Inv v i cleanup (Reach-Inv r) lt may
    Reach-Inv (next {v} r (receives i cleanup before p after lt there to from asked)) =
        receives-Inv v i cleanup before p after (Reach-Inv r) lt there asked
    Reach-Inv (next {v} r (enqueues i x lt fits some_bytes short free)) =
        enqueues-Inv v i x (Reach-Inv r) lt fits some_bytes short free
    Reach-Inv (next {v} r (dequeues i lt some_work)) = dequeues-Inv v i (Reach-Inv r) lt some_work
    Reach-Inv (next {v} r (acknowledges i n lt)) = acknowledges-Inv v i n (Reach-Inv r) lt

-- In every state that a job reaches, in any order of serving, asking, receiving, adding and taking:
-- for every measure of items, what the callbacks have added is what is in the queues of the ranks,
-- in the replies under way and what the callbacks have taken. So no item is lost, doubled, made up
-- or altered. The pools and the numbers of strings fit an `int`, an item has 1 to 2 ^ 31 - 1 bytes,
-- the page size is positive, and the offset arrays can be extended.
pub Reach-conserves :
    (page_size size : ℕ) (f : List ℕ → ℕ) (rand_r : ℕ → ℕ × ℕ) (fuel : ℕ) (w : Jobs)
    → 0 < page_size
    → 2 ^ 32 + page_size * 4096 ≤ 2 ^ 64
    → Reach rand_r fuel page_size size w
    → in_queues page_size size f w.ranks + weigh page_size f w.parcels + weight f w.processed
      ≡ weight f w.made
Reach-conserves page_size size f rand_r fuel w pages room r =
    (Reach-Inv page_size size f rand_r fuel pages room r).balance
