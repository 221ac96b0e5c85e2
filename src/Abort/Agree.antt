-- ===== src/Abort/Agree.antt =====
-- Once the requests of an abort have been received, all ranks have entered the abort state, or none.
use circle.Prelude.{ℕ, suc, ◌<◌, ◌≡◌, true, false, not, ◌&&◌, List, Option, none, some, arith, elem}
use circle.Gather.Shape.{IsTree, tree_parent, tree_kids, children-IsTree, down_tree, up_tree}
use circle.Abort.{neighbours}
use circle.Abort.System.{Aborts, Reach}
use circle.Abort.Spread.{Inv, Reach-Inv}

module _ {size : ℕ} {parent : ℕ → Option ℕ} {kids : ℕ → List ℕ} (tree : IsTree size parent kids)
    (w : Aborts) (v : Inv size parent kids w) (drained : (a b : ℕ) → w.requests a b ≡ 0) where
  all_follow :
      (i j : ℕ)
      → i < size
      → j < size
      → (w.aborts i).abort_state ≡ true
      → (w.aborts j).abort_state ≡ true
  all_follow i j lti ltj h =
      down_tree tree (λ c. (w.aborts c).abort_state ≡ true)
        (up_tree tree (λ c. (w.aborts c).abort_state ≡ true)
          (λ c p lt e s. v.spread c p (rw e (ground arith)) s (drained c p)) (suc i) i (omega arith)
          lti h)
        (λ c p lt e s.
          v.spread p c (kid_around (parent p) (kids p) c (tree.kid_of p c lt e)) s (drained p c))
        (suc j) j (omega arith) ltj
    where
      kid_around :
          (o : Option ℕ) (ks : List ℕ) (c : ℕ) → elem c ks ≡ true → elem c (neighbours o ks) ≡ true
      kid_around none ks c h = h
      kid_around (some p) ks c h = ground (arith, h)

-- In every state that the ranks of a job reach in their working loops by checks for an abort, in any
-- order, after any ranks' flags have been set: once no request is under way, two ranks of the job
-- have both entered the abort state or neither has, and they have only if some rank's flag was set.
-- The tree has a positive width.
pub drained_agree :
    (size k : ℕ) (w : Aborts) (i j : ℕ)
    → 0 < k
    → Reach (tree_parent size k) (tree_kids size k) size w
    → i < size
    → j < size
    → ((a b : ℕ) → w.requests a b ≡ 0)
    → ((w.aborts i).abort_state ≡ (w.aborts j).abort_state)
      × ((w.aborts i).abort_state && not w.called ≡ false)
drained_agree size k w i j pos r lti ltj drained =
    let tree = children-IsTree size k pos in
    let v = Reach-Inv size (tree_parent size k) (tree_kids size k) r in
    let follow = all_follow tree w v drained in
    let cause : w.called ≡ false → (w.aborts i).abort_flag ≡ false = λ c. v.cause_flag c i in
    (ground (arith, follow i j lti ltj, follow j i ltj lti), ground (arith, v.marked i, cause))
