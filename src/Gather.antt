-- ===== src/Gather.antt =====
-- What the barrier and the termination allreduce of src/state.cpp have in common, as a protocol on a
-- tree of ranks: a rank goes up, with one message to its parent, when it is ready and has a message
-- of every child, and it leaves when its parent has left, with one message to every child. The
-- handlers of both are shown to move as this protocol does.
pub mod Shape
pub mod Flight
pub mod Invariant
pub mod Up
pub mod Steps
pub mod Safety
pub mod Moves
pub mod Call
pub mod Post
pub mod Mail
pub mod Deliver
pub mod Progress
pub mod Amount
use circle.Prelude.{
  ℕ, ◌+◌, ◌-◌, ◌<◌, ◌≡◌, Bool, true, false, ◌&&◌, List, [], ◌∷◌, Option, none, some, length, update,
  ◌==◌, if◌then◌else◌,
}

-- `flight a b` is the number of messages from `a` to `b` that have not been received.
pub record Gather : Type 0 where
  pub ready : ℕ → Bool
  pub replies : ℕ → ℕ
  pub up : ℕ → Bool
  pub left : ℕ → Bool
  pub flight : ℕ → ℕ → ℕ

abbrev pub start : Gather
start = record {
  ready = λ i. false;
  replies = λ i. 0;
  up = λ i. false;
  left = λ i. false;
  flight = λ a b. 0;
}

abbrev pub sent : ℕ → ℕ → (ℕ → ℕ → ℕ) → ℕ → ℕ → ℕ
sent a b flight x y = if (x == a) && (y == b) then flight x y + 1 else flight x y

abbrev pub received : ℕ → ℕ → (ℕ → ℕ → ℕ) → ℕ → ℕ → ℕ
received a b flight x y = if (x == a) && (y == b) then flight x y - 1 else flight x y

abbrev pub sent_up : ℕ → Option ℕ → (ℕ → ℕ → ℕ) → ℕ → ℕ → ℕ
sent_up i none flight = flight
sent_up i (some p) flight = sent i p flight

abbrev pub sent_down : ℕ → List ℕ → (ℕ → ℕ → ℕ) → ℕ → ℕ → ℕ
sent_down i [] flight = flight
sent_down i (k ∷ kids) flight = sent_down i kids (sent i k flight)

module _ (size : ℕ) (parent : ℕ → Option ℕ) (kids : ℕ → List ℕ) where
  pub data Step (g : Gather) : Gather → Type 0 where
    readies : (i : ℕ) → Step g (record g { ready = update g.ready i true })
    takes :
        (i c : ℕ)
        → i < size
        → g.left i ≡ false
        → g.replies i < length (kids i)
        → 0 < g.flight c i
        → Step g (record g {
          replies = update g.replies i (g.replies i + 1);
          flight = received c i g.flight;
        })
    goes_up :
        (i : ℕ)
        → i < size
        → g.left i ≡ false
        → g.up i ≡ false
        → g.ready i ≡ true
        → g.replies i ≡ length (kids i)
        → Step g (record g { up = update g.up i true; flight = sent_up i (parent i) g.flight })
    leaves_root :
        (i : ℕ)
        → i < size
        → g.left i ≡ false
        → g.up i ≡ true
        → parent i ≡ none
        → Step g (record g { left = update g.left i true; flight = sent_down i (kids i) g.flight })
    leaves :
        (i p : ℕ)
        → i < size
        → g.left i ≡ false
        → g.up i ≡ true
        → parent i ≡ some p
        → 0 < g.flight p i
        → Step g (record g {
          left = update g.left i true;
          flight = sent_down i (kids i) (received p i g.flight);
        })

  pub data Reach : Gather → Type 0 where
    here : Reach start
    next : {g h : Gather} → Reach g → Step g h → Reach h
