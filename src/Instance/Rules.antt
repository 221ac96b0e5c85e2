-- ===== src/Instance/Rules.antt =====
-- Whole runs of `execute`, and the flags of the C interface.
use circle.Prelude.{ℕ, ◌≡◌, refl, ap, ◌∙◌, Bool, true, false, ◌||◌, List, [], ◌∷◌, ◌==◌, arith}
use circle.State.{new_state}
use circle.Barrier.{no_barrier}
use circle.Flags.{
  CircleRuntimeFlags, c_flag, circle_split_random, circle_split_equal, circle_create_global,
  circle_term_tree, has_flag, and_bits, term_tree,
}
use circle.Flags.Bits.{has_flag-or}
use circle.Loop.{Inputs}
use circle.Loop.Main.{Last, Ending, finished}
use circle.Loop.Whole.{main_loop-quiet}
use circle.Instance.{CircleImpl, set_runtime_flags}
use circle.Instance.C.{c_flags, c_set_runtime_flags}
use circle.Instance.Execute.{options_of, creates, start_state, execute}

-- Is the flag in the list?
abbrev pub number_of : CircleRuntimeFlags → ℕ
number_of circle_split_random = 0
number_of circle_split_equal = 1
number_of circle_create_global = 2
number_of circle_term_tree = 3

abbrev pub among : CircleRuntimeFlags → List CircleRuntimeFlags → Bool
among f [] = false
among f (g ∷ gs) = (number_of g == number_of f) || among f gs

has_flag-c_flag :
    (f g : CircleRuntimeFlags) → has_flag (c_flag f) (c_flag g) ≡ (number_of f == number_of g)
unfolding has_flag and_bits c_flag
has_flag-c_flag circle_split_random circle_split_random = refl
has_flag-c_flag circle_split_random circle_split_equal = refl
has_flag-c_flag circle_split_random circle_create_global = refl
has_flag-c_flag circle_split_random circle_term_tree = refl
has_flag-c_flag circle_split_equal circle_split_random = refl
has_flag-c_flag circle_split_equal circle_split_equal = refl
has_flag-c_flag circle_split_equal circle_create_global = refl
has_flag-c_flag circle_split_equal circle_term_tree = refl
has_flag-c_flag circle_create_global circle_split_random = refl
has_flag-c_flag circle_create_global circle_split_equal = refl
has_flag-c_flag circle_create_global circle_create_global = refl
has_flag-c_flag circle_create_global circle_term_tree = refl
has_flag-c_flag circle_term_tree circle_split_random = refl
has_flag-c_flag circle_term_tree circle_split_equal = refl
has_flag-c_flag circle_term_tree circle_create_global = refl
has_flag-c_flag circle_term_tree circle_term_tree = refl

has_flag-none : (g : CircleRuntimeFlags) → has_flag 0 (c_flag g) ≡ false
unfolding has_flag and_bits c_flag
has_flag-none circle_split_random = refl
has_flag-none circle_split_equal = refl
has_flag-none circle_create_global = refl
has_flag-none circle_term_tree = refl

-- A set of flags that a C program joins with `|` is read bit for bit as that set.
has_flag-c_flags :
    (fs : List CircleRuntimeFlags) (g : CircleRuntimeFlags)
    → has_flag (c_flags fs) (c_flag g) ≡ among g fs
unfolding c_flags
has_flag-c_flags [] g = has_flag-none g
has_flag-c_flags (f ∷ fs) g =
    rw (has_flag-or (c_flag f) (c_flags fs) (c_flag g), has_flag-c_flag f g, has_flag-c_flags fs g)
      refl

-- The flags that a C program joins with `|`, in any number and order, and sets: the state of a run
-- splits evenly exactly if CircleSplitEqual is among them, and uses tree termination exactly if
-- CircleTermTree is; the create callback runs exactly on rank 0 and, if CircleCreateGlobal is
-- among them, everywhere.
pub c_flags-options :
    (fs : List CircleRuntimeFlags) (c : CircleImpl)
    → let c1 = c_set_runtime_flags (c_flags fs) c in
      ((options_of c1).split_equal ≡ among circle_split_equal fs)
      × ((options_of c1).term_tree ≡ among circle_term_tree fs)
      × (creates c1 ≡ (c.rank == 0) || among circle_create_global fs)
unfolding options_of creates c_set_runtime_flags c_flag set_runtime_flags
c_flags-options fs c = (
  has_flag-c_flags fs circle_split_equal,
  has_flag-c_flags fs circle_term_tree,
  ap (λ b. (c.rank == 0) || b) (has_flag-c_flags fs circle_create_global),
)

module _ (rand_r : ℕ → ℕ × ℕ) (fuel page_size : ℕ) (allocates : Bool) where
  start_state-fresh :
      (c : CircleImpl) (size now : ℕ)
      → let s = start_state rand_r fuel page_size allocates c size now in
        (s.term_tree_enabled ≡ has_flag c.runtime_flags term_tree) × (s.barriers ≡ no_barrier)
  unfolding start_state new_state options_of
  start_state-fresh c size now = ground arith

  -- A run of `execute` with tree termination that comes to its end leaves nothing outstanding on
  -- its rank: no work request, no abort request and no token, and the barrier as it was before. So
  -- it is whatever the probes have found and whatever the callbacks do to the queue.
  pub execute-quiet :
      (c : CircleImpl) (size now : ℕ) (working cleaning : List Inputs) (l : Last) (e : Ending)
      → has_flag c.runtime_flags term_tree ≡ true
      → (execute rand_r fuel page_size allocates c size now working cleaning l).0 ≡ finished e
      → (e.state.work.work_requested ≡ false)
        × (e.state.aborts.abort_outstanding ≡ false)
        × (e.state.tokens.token_send_pending ≡ false)
        × (e.state.barriers ≡ no_barrier)
  unfolding execute
  execute-quiet c size now working cleaning l e tree done =
      let fresh = start_state-fresh c size now in
      main_loop-quiet rand_r fuel page_size allocates c.reduce_callbacks c.process_callback
        (start_state rand_r fuel page_size allocates c size now) working cleaning l e
        (fresh.0 ∙ tree) (ap (λ b. b.barrier_started) fresh.1) done
