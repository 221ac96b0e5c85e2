-- ===== src/Barrier/System.antt =====
-- The barrier on all ranks of a job: `mainLoop` starts it on a rank when the work there is done, and
-- then tests it until it completes.
use circle.Prelude.{
  ℕ, ◌<◌, ◌≡◌, Bool, true, false, List, [], ◌∷◌, Option, none, some, length, update, if◌then◌else◌,
}
use circle.State.{BarrierState}
use circle.Barrier.{barrier_start, barrier_test, no_barrier}
use circle.Barrier.Rules.{takes}
use circle.Gather.Shape.{tree_parent, tree_kids}
use circle.Gather.Moves.{received_all, received_up, Available, Told}
use circle.Gather.Post.{post}

-- `entered` and `finished`: the ranks that have started the barrier, and those it has completed on.
-- `flight a b` is the number of barrier messages from `a` to `b` that have not been received.
pub record Barriers : Type 0 where
  pub entered : ℕ → Bool
  pub finished : ℕ → Bool
  pub barriers : ℕ → BarrierState
  pub flight : ℕ → ℕ → ℕ

abbrev pub no_barriers : Barriers
no_barriers = record {
  entered = λ i. false;
  finished = λ i. false;
  barriers = λ i. no_barrier;
  flight = λ a b. 0;
}

-- Of the message that the probe has found, the source.
abbrev pub found : Bool → Option ℕ → List ℕ
found true (some c) = c ∷ []
found true none = []
found false heard = []

abbrev pub is_heard : Option ℕ → Bool
is_heard none = false
is_heard (some _) = true

-- A test on rank `i`: `heard` is the source of the message that the first probe finds, `told` says
-- whether the second finds one of the parent.
abbrev pub messages : ℕ → BarrierState → Option ℕ → List ℕ
messages nchildren b heard = found (takes nchildren b (is_heard heard)) heard

abbrev pub tested : ℕ → ℕ → Barriers → ℕ → Option ℕ → Bool → Barriers
tested size k w i heard told =
    let parent = tree_parent size k i in
    let kids = tree_kids size k i in
    let (done, b1, sends) = barrier_test parent kids (w.barriers i) (is_heard heard) told in
    let f1 = received_all i (messages (length kids) (w.barriers i) heard) w.flight in
    let f2 = if done then received_up i parent f1 else f1 in
    record {
      entered = w.entered;
      finished = if done then update w.finished i true else w.finished;
      barriers = update w.barriers i b1;
      flight = post i sends f2;
    }

-- What the probes report is there.
abbrev pub IsProbed : Option ℕ → ℕ → List ℕ → Bool → (ℕ → ℕ → ℕ) → Type 0
IsProbed parent i cs told f = Available i cs f × (told ≡ true → Told i parent (received_all i cs f))

module _ (size k : ℕ) where
  pub data Step (w : Barriers) : Barriers → Type 0 where
    enters :
        (i : ℕ)
        → Step w (record w {
          entered = update w.entered i true;
          barriers = update w.barriers i (barrier_start (w.barriers i));
        })
    tests :
        (i : ℕ) (heard : Option ℕ) (told : Bool)
        → i < size
        → w.finished i ≡ false
        → IsProbed
            (tree_parent size k i)
            i
            (messages (length (tree_kids size k i)) (w.barriers i) heard)
            told
            w.flight
        → Step w (tested size k w i heard told)

  pub data Reach : Barriers → Type 0 where
    here : Reach no_barriers
    next : {v w : Barriers} → Reach v → Step v w → Reach w
