-- ===== src/Traffic.antt =====
-- src/state.cpp, `requestWork`, `workreqCheck` and `workreceiptCheck`: the messages of work of all
-- ranks of a job. To the replies of `Pool` come the requests and the receipts under way, which have
-- no content: the model counts them.
pub mod Serve
pub mod Receive
pub mod Invariant
pub mod Pairs
pub mod Done
pub mod Room
pub mod Range
pub mod Answer
mod Tests
use circle.Prelude.{
  ℕ, suc, ◌+◌, ◌-◌, ◌^◌, ◌≤◌, ◌<◌, ◌≡◌, ◌⊎◌, Bool, true, false, List, [], ◌∷◌, ◌++◌, none, some,
  length, ◌==◌, if◌then◌else◌,
}
use circle.Queue.{new_queue}
use circle.State.{State, Message, Send}
use circle.Receive.{request_work}
use circle.Pool.{Parcel, Jobs, served, received, enqueued, dequeued, acknowledged, Fits}

-- `requests a b`: those from rank `a` to rank `b`; `receipts b`: those to rank `b`.
pub record Traffic : Type 0 where
  pub jobs : Jobs
  pub requests : ℕ → ℕ → ℕ
  pub receipts : ℕ → ℕ

-- How often a rank is in a list of ranks.
abbrev pub occurrences : ℕ → List ℕ → ℕ
occurrences a [] = 0
occurrences a (r ∷ rs) = if r == a then suc (occurrences a rs) else occurrences a rs

-- The requests and the receipts to rank `b` among some messages.
abbrev pub requests_to : ℕ → List Send → ℕ
requests_to b [] = 0
requests_to b ((r, Message.work_request) ∷ ms) =
    if r == b then suc (requests_to b ms) else requests_to b ms
requests_to b (_ ∷ ms) = requests_to b ms

abbrev pub receipts_to : ℕ → List Send → ℕ
receipts_to b [] = 0
receipts_to b ((r, Message.work_receipt) ∷ ms) =
    if r == b then suc (receipts_to b ms) else receipts_to b ms
receipts_to b (_ ∷ ms) = receipts_to b ms

module _ (rand_r : ℕ → ℕ × ℕ) (fuel page_size : ℕ) where
  -- Rank `i` takes the requests of `requestors` and answers them.
  abbrev pub answered : Traffic → ℕ → List ℕ → Bool → Traffic
  answered w i requestors cleanup = record w {
    jobs = served rand_r fuel page_size w.jobs i requestors cleanup;
    requests = λ a b. if b == i then w.requests a b - occurrences a requestors else w.requests a b;
  }

  -- Rank `i` asks, or looks for its reply.
  abbrev pub requested : Traffic → ℕ → Bool → Traffic
  requested w i cleanup =
      let (_, _, sent) = request_work rand_r fuel page_size true (w.jobs.ranks i) cleanup none in
      record w {
        jobs = received rand_r fuel page_size w.jobs i cleanup none w.jobs.parcels;
        requests = λ a b. if a == i then w.requests a b + requests_to b sent else w.requests a b;
      }

  -- Rank `i` receives the reply `p`.
  abbrev pub replied : Traffic → ℕ → Bool → List Parcel → Parcel → List Parcel → Traffic
  replied w i cleanup before p after =
      let (_, _, sent) =
        request_work rand_r fuel page_size true (w.jobs.ranks i) cleanup (some (p.ints, p.chars)) in
      record w {
        jobs =
            received rand_r fuel page_size w.jobs i cleanup (some (p.ints, p.chars))
              (before ++ after);
        receipts = λ b. w.receipts b + receipts_to b sent;
      }

-- Rank `i` takes `n` receipts.
abbrev pub settled : Traffic → ℕ → ℕ → Traffic
settled w i n = record w {
  jobs = acknowledged w.jobs i n;
  receipts = λ b. if b == i then w.receipts b - n else w.receipts b;
}

-- The moves of `Pool`, with what they need of the messages under way: a request or a receipt can
-- only be taken if it is there, and receipts only while transfers are outstanding.
module _ (rand_r : ℕ → ℕ × ℕ) (fuel page_size size : ℕ) where
  pub data Step (w : Traffic) : Traffic → Type 0 where
    serves :
        (i : ℕ) (requestors : List ℕ) (cleanup : Bool)
        → i < size
        → Fits (w.jobs.ranks i).queue
        → ((a : ℕ) → occurrences a requestors ≤ w.requests a i)
        → Step w (answered rand_r fuel page_size w i requestors cleanup)
    asks :
        (i : ℕ) (cleanup : Bool)
        → i < size
        → ((w.jobs.ranks i).queue.count ≡ 0) ⊎ (cleanup ≡ true)
        → Step w (requested rand_r fuel page_size w i cleanup)
    receives :
        (i : ℕ) (cleanup : Bool) (before : List Parcel) (p : Parcel) (after : List Parcel)
        → i < size
        → w.jobs.parcels ≡ before ++ (p ∷ after)
        → p.to ≡ i
        → p.from ≡ (w.jobs.ranks i).work.work_requested_rank
        → (w.jobs.ranks i).work.work_requested ≡ true
        → Step w (replied rand_r fuel page_size w i cleanup before p after)
    settles :
        (i n : ℕ)
        → i < size
        → n ≤ w.receipts i
        → n ≤ (w.jobs.ranks i).terms.work_outstanding
        → Step w (settled w i n)
    enqueues :
        (i : ℕ) (x : List ℕ)
        → i < size
        → Fits (w.jobs.ranks i).queue
        → 0 < length x
        → length x < 2 ^ 31
        → (w.jobs.ranks i).work.work_requested ≡ false
        → Step w (record w { jobs = enqueued rand_r fuel page_size w.jobs i x })
    dequeues :
        (i : ℕ)
        → i < size
        → 0 < (w.jobs.ranks i).queue.count
        → Step w (record w { jobs = dequeued w.jobs i })

  pub data Reach : Traffic → Type 0 where
    here :
        (ranks : ℕ → State)
        → ((i : ℕ) → (ranks i).queue ≡ new_queue)
        → ((i : ℕ) → (ranks i).work.work_requested ≡ false)
        → ((i : ℕ) → (ranks i).terms.work_outstanding ≡ 0)
        → ((i : ℕ) → (ranks i).size ≡ size)
        → ((i r : ℕ) → (ranks i).work.next_processor ≡ some r → r < size)
        → Reach (record {
          jobs = record { ranks = ranks; parcels = []; made = []; processed = [] };
          requests = λ a b. 0;
          receipts = λ b. 0;
        })
    next : {v w : Traffic} → Reach v → Step v w → Reach w

  -- `n` moves.
  pub data Moves (w : Traffic) : ℕ → Traffic → Type 0 where
    stays : Moves w 0 w
    moves : {n : ℕ} {u v : Traffic} → Moves w n u → Step u v → Moves w (suc n) v
