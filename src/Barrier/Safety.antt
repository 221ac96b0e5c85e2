-- ===== src/Barrier/Safety.antt =====
-- The barrier on all ranks: nobody passes it before everybody has reached it.
use circle.Prelude.{
  ℕ, ◌<◌, ◌≡◌, refl, sym, ap, ◌∙◌, Bool, true, false, Option, arith, length, update, update_all,
  ==→eq, if◌then◌else◌,
}
use circle.State.{Message}
use circle.Barrier.{barrier_start, barrier_test}
use circle.Barrier.Rules.{IsOpen, barrier_start-IsOpen, barrier_test-IsOpen}
use circle.Barrier.System.{
  Barriers, no_barriers, is_heard, messages, tested, IsProbed, Reach, enters, tests, here, next,
}
use circle.Barrier.Runs.{no_barrier-IsOpen}
use circle.Barrier.Moves.{goes, messages-room, barrier_test-goes, barrier_test-started}
use circle.Gather.{Gather}
use circle.Gather.Shape.{tree_parent, tree_kids, children-IsTree}
use circle.Gather.Moves.{
  Same, Reaches, Reaches-Same, received_all, received_up, start-Reaches, readies-Reaches,
}
use circle.Gather.Call.{called, called-Reaches, Reaches-all_ready, to-Told}
use circle.Gather.Post.{post, post-both}

-- The barrier as the protocol sees it.
abbrev pub view : Barriers → Gather
view w = record {
  ready = w.entered;
  replies = λ i. (w.barriers i).barrier_replies;
  up = λ i. (w.barriers i).barrier_up;
  left = w.finished;
  flight = w.flight;
}

module _ (size k : ℕ) (pos : 0 < k) where
  pub record Inv (w : Barriers) : Type 0 where
    pub moves : Reaches size (tree_parent size k) (tree_kids size k) (view w)
    pub open_barriers : (i : ℕ) → IsOpen (length (tree_kids size k i)) (w.barriers i)
    pub started : (i : ℕ) → (w.barriers i).barrier_started ≡ true → w.entered i ≡ true
    pub waiting :
        (i : ℕ) → w.entered i ≡ true → w.finished i ≡ false → (w.barriers i).barrier_started ≡ true

  tested-Same :
      (w : Barriers) (i : ℕ) (heard : Option ℕ) (told : Bool)
      → IsOpen (length (tree_kids size k i)) (w.barriers i)
      → let cs = messages (length (tree_kids size k i)) (w.barriers i) heard in
        Same
          (called
            (tree_parent size k)
            (tree_kids size k)
            (view w)
            i
            cs
            (goes (length (tree_kids size k i)) (w.barriers i) cs)
            (barrier_test
              (tree_parent size k i)
              (tree_kids size k i)
              (w.barriers i)
              (is_heard heard)
              told).0)
          (view (tested size k w i heard told))
  tested-Same w i heard told v =
      let parent = tree_parent size k i in
      let kids = tree_kids size k i in
      let b = w.barriers i in
      let l = barrier_test-goes parent kids b heard told v in
      let done = (barrier_test parent kids b (is_heard heard) told).0 in
      let g = goes (length kids) b (messages (length kids) b heard) in
      let f1 = received_all i (messages (length kids) b heard) w.flight in
      let f2 = if done then received_up i parent f1 else f1 in
      record {
        ready = λ j. refl;
        left = λ j. refl;
        flight = λ x y.
            ap (λ f. f x y)
              (sym (post-both i Message.barrier Message.barrier parent kids g done f2))
            ∙ ap (λ s. post i s f2 x y) (sym l.2);
        replies = λ j e. ground (arith, e, l.1);
        up = λ j e. ground (arith, e, l.1, ==→eq j i);
      }

  tested-Inv :
      (w : Barriers) (i : ℕ) (heard : Option ℕ) (told : Bool)
      → i < size
      → w.finished i ≡ false
      → IsProbed
          (tree_parent size k i)
          i
          (messages (length (tree_kids size k i)) (w.barriers i) heard)
          told
          w.flight
      → Inv w
      → Inv (tested size k w i heard told)
  tested-Inv w i heard told lt stays probed v =
      let tree = children-IsTree size k pos in
      let parent = tree_parent size k i in
      let kids = tree_kids size k i in
      let b = w.barriers i in
      let cs = messages (length kids) b heard in
      let open_b = v.open_barriers i in
      let l = barrier_test-goes parent kids b heard told open_b in
      record {
        moves =
            Reaches-Same size (tree_parent size k) (tree_kids size k)
              (tested-Same w i heard told open_b)
              (called-Reaches size (tree_parent size k) (tree_kids size k) (view w) i cs _ _ lt
                (λ e. absurd (omega (arith, tree.lower i i e))) stays
                (messages-room (length kids) b heard open_b) probed.0
                (λ e. ground (arith, e, v.started i))
                (λ e. (((l.0 e).0), to-Told i parent told _ (l.0 e).1 probed.1)) v.moves);
        open_barriers =
            update_all (λ j. IsOpen (length (tree_kids size k j))) w.barriers i _
              (barrier_test-IsOpen parent kids b (is_heard heard) told open_b) v.open_barriers;
        started =
            update_all (λ j c. c.barrier_started ≡ true → w.entered j ≡ true) w.barriers i _
              (λ e. v.started i (barrier_test-started parent kids b (is_heard heard) told e))
              v.started;
        waiting = λ j e open_j. ground (arith, v.waiting j e, open_j, l.1, ==→eq j i);
      }

  enters-Inv :
      (w : Barriers) (i : ℕ)
      → Inv w
      → Inv (record w {
        entered = update w.entered i true;
        barriers = update w.barriers i (barrier_start (w.barriers i));
      })
  unfolding barrier_start
  enters-Inv w i v = record {
    moves =
        Reaches-Same size (tree_parent size k) (tree_kids size k)
          (record {
            ready = λ j. refl;
            left = λ j. refl;
            flight = λ a b. refl;
            replies = λ j e. ground (arith, ==→eq j i);
            up = λ j e. ground (arith, ==→eq j i);
          })
          (readies-Reaches size (tree_parent size k) (tree_kids size k) (view w) i v.moves);
    open_barriers =
        update_all (λ j. IsOpen (length (tree_kids size k j))) w.barriers i _
          (barrier_start-IsOpen (length (tree_kids size k i)) (w.barriers i) (v.open_barriers i))
          v.open_barriers;
    started = λ j e. ground (arith, v.started j, e);
    waiting = λ j e open_j. ground (arith, v.waiting j, e, open_j);
  }

  no_barriers-Inv : Inv no_barriers
  no_barriers-Inv = record {
    moves = start-Reaches size (tree_parent size k) (tree_kids size k);
    open_barriers = λ i. no_barrier-IsOpen (length (tree_kids size k i));
    started = λ i e. cc;
    waiting = λ i e open_i. cc;
  }

  pub Reach-Inv : {w : Barriers} → Reach size k w → Inv w
  Reach-Inv here = no_barriers-Inv
  Reach-Inv (next {v} r (enters i)) = enters-Inv v i (Reach-Inv r)
  Reach-Inv (next {v} r (tests i heard told lt stays probed)) =
      tested-Inv v i heard told lt stays probed (Reach-Inv r)

-- In every state of a job that starts and tests the barrier in any order, with messages that arrive
-- at any time: once the barrier has completed on one rank, every rank of the job has started it.
-- The tree has a positive width.
pub Reach-all_entered :
    (size k : ℕ) (w : Barriers) (i j : ℕ)
    → 0 < k
    → Reach size k w
    → w.finished i ≡ true
    → j < size
    → w.entered j ≡ true
Reach-all_entered size k w i j pos r fin lt =
    Reaches-all_ready (children-IsTree size k pos) (view w) (Reach-Inv size k pos r).moves i j fin
      lt
