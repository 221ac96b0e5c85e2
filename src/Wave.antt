-- ===== src/Wave.antt =====
-- src/state.cpp, `reduceCheck`: the periodic reduction on all ranks of a job, in any order of checks.
-- `parent` and `kids` are the tree of ranks. A message that starts a reduction travels from a parent
-- to a child, and one with a result from a child to its parent.
pub mod Held
pub mod Take
pub mod Ends
pub mod Starts
pub mod Root
pub mod Checks
pub mod Cases
pub mod Invariant
pub mod Full
pub mod Sum
mod Tests
use circle.Prelude.{
  ℕ, suc, ◌+◌, ◌-◌, ◌<◌, ◌≡◌, Bool, true, false, not, ◌&&◌, ◌||◌, List, [], ◌∷◌, ◌++◌, Option, none,
  some, map, drop, elem, update, bit, ◌==◌, if◌then◌else◌,
}
use circle.State.{ReduceState, Message, Send}
use circle.Reduce.{Callbacks, Reply, Result, take_reply, is_asked, reduce_check}
use circle.Job.{bytes_of}

-- `starts i`: the messages under way that ask rank `i` for a reduction; `results i`: the results
-- under way from rank `i`, in order. The rest is what has happened since the root has started the
-- reduction: which ranks' results have been taken, how often and with how many objects a rank has
-- contributed, and whether a result was sent that is not valid.
pub record Wave : Type 0 where
  pub reduces : ℕ → ReduceState
  pub starts : ℕ → ℕ
  pub results : ℕ → List Reply
  pub taken : ℕ → Bool
  pub gave : ℕ → ℕ
  pub given : ℕ → ℕ
  pub spoiled : Bool

abbrev pub is_out : Wave → ℕ → Bool
is_out w i = (w.reduces i).reduce_outstanding

-- The messages to rank `j` that ask for a reduction, and the results, among some messages.
abbrev pub starts_to : ℕ → List Send → ℕ
starts_to j [] = 0
starts_to j ((r, Message.reduce_start) ∷ ms) =
    if r == j then suc (starts_to j ms) else starts_to j ms
starts_to j (_ ∷ ms) = starts_to j ms

abbrev pub results_in : List Send → List Reply
results_in [] = []
results_in ((_, Message.reduce_result valid objects bytes) ∷ ms) =
    record { valid = valid; objects = objects; bytes = bytes_of ms } ∷ results_in ms
results_in (_ ∷ ms) = results_in ms

-- The number of results that are not valid.
abbrev pub invalids : List Reply → ℕ
invalids [] = 0
invalids (m ∷ ms) = (if m.valid then 0 else 1) + invalids ms

abbrev pub no_reply : Reply
no_reply = record { valid = false; objects = 0; bytes = [] }

abbrev pub first_of : List Reply → Reply
first_of [] = no_reply
first_of (m ∷ ms) = m

-- What the probes find: the first result of each child for which there is one and `found` holds.
abbrev pub is_found : Wave → (ℕ → Bool) → ℕ → Bool
is_found w found c = found c && (elim (w.results c) [ [] ↦ false | _ ∷ _ ↦ true ])

abbrev pub replies_found : Wave → (ℕ → Bool) → List ℕ → List (Option Reply)
replies_found w found [] = []
replies_found w found (c ∷ cs) =
    (if is_found w found c then some (first_of (w.results c)) else none) ∷ replies_found w found cs

module _ (cb : Callbacks) where
  -- Rank `p` takes the first result of child `c`.
  abbrev pub take_one : Wave → ℕ → ℕ → Wave
  take_one w p c = record w {
    reduces = update w.reduces p (take_reply cb (w.reduces p) (first_of (w.results c)));
    results = update w.results c (drop 1 (w.results c));
    taken = update w.taken c true;
  }

  abbrev pub take_found : Wave → ℕ → (ℕ → Bool) → List ℕ → Wave
  take_found w p found [] = w
  take_found w p found (c ∷ cs) =
      take_found (if is_found w found c then take_one w p c else w) p found cs

  module _ (parent : ℕ → Option ℕ) (kids : ℕ → List ℕ) where
    -- The job after rank `i` has changed to `r` and sent `sent`. It may have taken the message that
    -- asks it for a reduction, have begun one, on the root a new one of all ranks, or have ended it.
    abbrev pub noted :
        (asked begins ends anew : Bool) → Wave → ℕ → ℕ → ReduceState → List Send → Wave
    noted asked begins ends anew w i count r sent = record {
      reduces = update w.reduces i r;
      starts = λ j. (if asked && (j == i) then w.starts j - 1 else w.starts j) + starts_to j sent;
      results = update w.results i (w.results i ++ results_in sent);
      taken = λ j. if begins && elem j (kids i) then false else w.taken j;
      gave = λ j. if anew then 0 else if ends && (j == i) then suc (w.gave j) else w.gave j;
      given = λ j. if anew then 0 else if ends && (j == i) then w.given j + count else w.given j;
      spoiled = if anew then false else w.spoiled || not (invalids (results_in sent) == 0);
    }

    -- `reduceCheck` on rank `i`, with `count` items processed so far, at time `now`.
    abbrev pub checked : Wave → ℕ → ℕ → Bool → ℕ → (ℕ → Bool) → Wave × Option Result
    checked w i count cleanup now found =
        let out = is_out w i in
        let pm = not (w.starts i == 0) in
        let (r, sent, result) =
          reduce_check cb (parent i) (kids i) (w.reduces i) count cleanup
            (replies_found w found (kids i)) now pm in
        let begins = not out && r.reduce_outstanding in
        (
          noted (not out && is_asked (parent i) cleanup now pm (w.reduces i)) begins
              (out && not r.reduce_outstanding)
              (begins && (elim (parent i) [ none ↦ true | some _ ↦ false ]))
              (if out then take_found w i found (kids i) else w) i count r sent,
          result,
        )

    pub data Step (size : ℕ) (w : Wave) : Wave → Type 0 where
      checks :
          (i count : ℕ) (cleanup : Bool) (now : ℕ) (found : ℕ → Bool)
          → i < size
          → Step size w (checked w i count cleanup now found).0

    pub data Reach (size : ℕ) : Wave → Type 0 where
      here :
          (reduces : ℕ → ReduceState)
          → ((i : ℕ) → (reduces i).reduce_outstanding ≡ false)
          → Reach size (record {
            reduces = reduces;
            starts = λ j. 0;
            results = λ j. [];
            taken = λ j. false;
            gave = λ j. 0;
            given = λ j. 0;
            spoiled = false;
          })
      next : {v w : Wave} → Reach size v → Step size v w → Reach size w
