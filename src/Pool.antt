-- ===== src/Pool.antt =====
-- src/state.cpp and src/circle.cpp: the work of all ranks of a job. Ranks serve requests, ask, take
-- in replies, and in their callbacks add and take items, in any order; replies are under way between
-- them.
pub mod Share
pub mod Balance
pub mod Receive
pub mod Conserve
pub mod Tests
use circle.Prelude.{
  ℕ, zero, suc, ◌+◌, ◌^◌, ◌<◌, ◌≡◌, ◌⊎◌, Bool, true, false, not, ◌&&◌, List, [], ◌∷◌, ◌++◌, Option,
  none, some, length, get_or, ltb, ◌==◌, if◌then◌else◌, update,
}
use circle.Queue.{Queue, new_queue, Status, success, push, pop}
use circle.State.{State, Message, Send}
use circle.Work.{payload_abort, workreq_check, workreceipt_check}
use circle.Receive.{Outcome, take_in, request_work}

-- A reply that has been sent and not been received: its `int`s, and its bytes if it brings work.
pub record Parcel : Type 0 where
  pub from : ℕ
  pub to : ℕ
  pub ints : List ℕ
  pub chars : List ℕ

-- Does a message with the bytes follow?
abbrev pub is_work : List ℕ → Bool
is_work ints = not (get_or ints 0 0 == 0) && not (get_or ints 0 0 == payload_abort)

-- The replies in some messages of rank `i`; `last` is the reply that was last.
abbrev pub parcels_of : ℕ → List ℕ → List Send → List Parcel
parcels_of i last [] = []
parcels_of i last ((r, Message.work_reply next) ∷ ms) =
    let rest = parcels_of i next ms in
    if is_work next then rest else record { from = i; to = r; ints = next; chars = [] } ∷ rest
parcels_of i last ((r, Message.work_chars cs) ∷ ms) =
    record { from = i; to = r; ints = last; chars = cs } ∷ parcels_of i last ms
parcels_of i last (_ ∷ ms) = parcels_of i last ms

-- `made` and `processed` are the items that callbacks have added to queues and taken from them.
pub record Jobs : Type 0 where
  pub ranks : ℕ → State
  pub parcels : List Parcel
  pub made : List (List ℕ)
  pub processed : List (List ℕ)

module _ (rand_r : ℕ → ℕ × ℕ) (fuel page_size : ℕ) where
  abbrev pub served : Jobs → ℕ → List ℕ → Bool → Jobs
  served w i requestors cleanup =
      let (s, sent) = workreq_check rand_r true (w.ranks i) requestors cleanup in
      record w { ranks = update w.ranks i s; parcels = w.parcels ++ parcels_of i [] sent }

  abbrev pub received : Jobs → ℕ → Bool → Option (List ℕ × List ℕ) → List Parcel → Jobs
  received w i cleanup reply rest = record w {
    ranks = update w.ranks i (request_work rand_r fuel page_size true (w.ranks i) cleanup reply).1;
    parcels = rest;
  }

  abbrev pub enqueued : Jobs → ℕ → List ℕ → Jobs
  enqueued w i x = record w {
    ranks =
        update w.ranks i (record (w.ranks i) { queue = (push page_size (w.ranks i).queue x).1 });
    made = x ∷ w.made;
  }

abbrev pub dequeued : Jobs → ℕ → Jobs
dequeued w i =
    let (_, x, q) = pop (w.ranks i).queue [] in
    record w {
      ranks = update w.ranks i (record (w.ranks i) { queue = q });
      processed = x ∷ w.processed;
    }

-- Rank `i` takes `n` receipts.
abbrev pub acknowledged : Jobs → ℕ → ℕ → Jobs
acknowledged w i n = record w {
  ranks = update w.ranks i (record (w.ranks i) { terms = workreceipt_check (w.ranks i).terms n });
}

-- The pool and the number of strings of a queue fit an `int`.
abbrev pub Fits : Queue → Type 0
Fits q = (q.count < 2 ^ 31) × (q.head < 2 ^ 31)

-- The moves of the ranks below `size`. A rank asks with an empty queue, or in cleanup, where nothing
-- is sent; a callback runs on a rank that does not wait for a reply.
module _ (rand_r : ℕ → ℕ × ℕ) (fuel page_size size : ℕ) where
  pub data Step (w : Jobs) : Jobs → Type 0 where
    serves :
        (i : ℕ) (requestors : List ℕ) (cleanup : Bool)
        → i < size
        → Fits (w.ranks i).queue
        → Step w (served rand_r fuel page_size w i requestors cleanup)
    asks :
        (i : ℕ) (cleanup : Bool)
        → i < size
        → ((w.ranks i).queue.count ≡ 0) ⊎ (cleanup ≡ true)
        → Step w (received rand_r fuel page_size w i cleanup none w.parcels)
    receives :
        (i : ℕ) (cleanup : Bool) (before : List Parcel) (p : Parcel) (after : List Parcel)
        → i < size
        → w.parcels ≡ before ++ (p ∷ after)
        → p.to ≡ i
        → p.from ≡ (w.ranks i).work.work_requested_rank
        → (w.ranks i).work.work_requested ≡ true
        → Step w
            (received rand_r fuel page_size w i cleanup (some (p.ints, p.chars)) (before ++ after))
    enqueues :
        (i : ℕ) (x : List ℕ)
        → i < size
        → Fits (w.ranks i).queue
        → 0 < length x
        → length x < 2 ^ 31
        → (w.ranks i).work.work_requested ≡ false
        → Step w (enqueued rand_r fuel page_size w i x)
    dequeues : (i : ℕ) → i < size → 0 < (w.ranks i).queue.count → Step w (dequeued w i)
    acknowledges : (i n : ℕ) → i < size → Step w (acknowledged w i n)

  pub data Reach : Jobs → Type 0 where
    here :
        (ranks : ℕ → State)
        → ((i : ℕ) → (ranks i).queue ≡ new_queue)
        → ((i : ℕ) → (ranks i).work.work_requested ≡ false)
        → Reach (record { ranks = ranks; parcels = []; made = []; processed = [] })
    next : {v w : Jobs} → Reach v → Step v w → Reach w
