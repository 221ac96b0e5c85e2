-- ===== src/Barrier/Completes.antt =====
-- The barrier ends: once every rank has started it, tests can bring it to completion on all of them.
use circle.Prelude.{ℕ, zero, suc, ◌+◌, ◌<◌, ◌≡◌, inl, inr, Bool, true, false, Option, arith, length}
use circle.Barrier.System.{Barriers, Reach, messages, tested, IsProbed, tests, next}
use circle.Barrier.Safety.{view, Reach-Inv}
use circle.Barrier.Amount.{helps, tested-grows}
use circle.Gather.Amount.{amount, most, amount-le-most}
use circle.Gather.Shape.{tree_parent, tree_kids, children-IsTree}
use circle.Gather.Progress.{Reaches-progress}

-- Tests one after another, of ranks of the job that it is not complete on, with messages that are
-- there.
pub data Tests (size k : ℕ) (u : Barriers) : Barriers → Type 0 where
  stop : Tests size k u u
  test :
      {w : Barriers} (i : ℕ) (heard : Option ℕ) (told : Bool)
      → i < size
      → w.finished i ≡ false
      → IsProbed
          (tree_parent size k i)
          i
          (messages (length (tree_kids size k i)) (w.barriers i) heard)
          told
          w.flight
      → Tests size k u (tested size k w i heard told)
      → Tests size k u w

module _ (size k : ℕ) (pos : 0 < k) where
  complete_from :
      (n : ℕ) (w : Barriers)
      → Reach size k w
      → ((j : ℕ) → j < size → w.entered j ≡ true)
      → most size (tree_kids size k) < amount size (tree_kids size k) (view w) + n
      → (u : Barriers) × Tests size k u w × ((j : ℕ) → j < size → u.finished j ≡ true)
  complete_from zero w r all few = absurd (
      omega (
        arith,
        few,
        amount-le-most size (tree_kids size k) (view w)
            (λ i. ((Reach-Inv size k pos r).open_barriers i).few),
      ))
  complete_from (suc n) w r all few =
      let v = Reach-Inv size k pos r in
      elim (Reaches-progress (children-IsTree size k pos) (view w) v.moves) [
        | inl done ↦ (w, stop, done)
        | inr (i, lt, stays, can) ↦
            let (heard, told, there, more) =
              helps size k pos w i v stays (v.waiting i (all i lt) stays) can in
            let w1 = tested size k w i heard told in
            let (u, path, done) =
              complete_from n w1 (next r (tests i heard told lt stays there)) all
                (omega (arith, few, tested-grows size k w i heard told lt more)) in
            (u, test i heard told lt stays there path, done)
      ]

-- From every state that a job reaches and in which all ranks have started the barrier, there are
-- tests, with messages that have been sent, after which it has completed on every rank: no rank is
-- stuck, and no message is missing. The tree has a positive width.
pub all_complete :
    (size k : ℕ) (w : Barriers)
    → 0 < k
    → Reach size k w
    → ((j : ℕ) → j < size → w.entered j ≡ true)
    → (u : Barriers) × Tests size k u w × ((j : ℕ) → j < size → u.finished j ≡ true)
all_complete size k w pos r all =
    complete_from size k pos (suc (most size (tree_kids size k))) w r all (omega arith)
