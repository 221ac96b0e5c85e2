-- ===== src/Barrier/Amount.antt =====
-- A test on a rank that can get on gets on.
use circle.Prelude.{
  ℕ, ◌<◌, ◌≡◌, inr, refl, ap, Bool, true, false, [], ◌∷◌, Option, none, some, arith, length,
}
use circle.Barrier.Rules.{barrier_test_completes}
use circle.Barrier.System.{Barriers, found, messages, tested, IsProbed}
use circle.Barrier.Moves.{barrier_test-goes}
use circle.Barrier.Safety.{Inv, view}
use circle.Gather.Amount.{amount_of, amount, amount-grows}
use circle.Gather.Shape.{tree_parent, tree_kids}
use circle.Gather.Progress.{Enabled, can_take, can_go, can_leave}

found-none : (b : Bool) → found b none ≡ []
found-none true = refl
found-none false = refl

module _ (size k : ℕ) where
  -- What a probe may find on an enabled rank, and that the test then gets on.
  pub helps :
      (pos : 0 < k) (w : Barriers) (i : ℕ)
      → Inv size k pos w
      → w.finished i ≡ false
      → (w.barriers i).barrier_started ≡ true
      → Enabled (tree_parent size k i) (length (tree_kids size k i)) i (view w)
      → (heard : Option ℕ) × (told : Bool) × IsProbed
          (tree_parent size k i)
          i
          (messages (length (tree_kids size k i)) (w.barriers i) heard)
          told
          w.flight
        × (amount_of size (tree_kids size k) (view w) i
            < amount_of size (tree_kids size k) (view (tested size k w i heard told)) i)
  helps pos w i v stays started (can_take c fewer there) =
      let l =
        barrier_test-goes (tree_parent size k i) (tree_kids size k i) (w.barriers i) (some c) false
          (v.open_barriers i) in
      let o = v.open_barriers i in
      let takes_it : messages (length (tree_kids size k i)) (w.barriers i) (some c) ≡ c ∷ [] =
        ground (arith, started, fewer) in
      (
        some c,
        false,
        rw takes_it ((there, tt), λ e. cc),
        ground (arith, stays, l.0, l.1, ap length takes_it, fewer, o.few, o.all_in),
      )
  helps pos w i v stays started (can_go down full) =
      let l =
        barrier_test-goes (tree_parent size k i) (tree_kids size k i) (w.barriers i) none false
          (v.open_barriers i) in
      let o = v.open_barriers i in
      let quiet : messages (length (tree_kids size k i)) (w.barriers i) none ≡ [] = found-none _ in
      (
        none,
        false,
        rw quiet (tt, λ e. cc),
        ground (arith, stays, l.0, l.1, started, down, full, o.few),
      )
  helps pos w i v stays started (can_leave up told) =
      let c =
        barrier_test_completes (tree_parent size k i) (tree_kids size k i) (w.barriers i) false true
          (v.open_barriers i) in
      let o = v.open_barriers i in
      let done = c.1 (started, ground (arith, o.all_in up), inr refl) in
      let quiet : messages (length (tree_kids size k i)) (w.barriers i) none ≡ [] = found-none _ in
      (none, true, rw quiet (tt, λ e. told), ground (arith, stays, done, o.few))

  -- A test changes nothing on other ranks.
  pub tested-grows :
      (w : Barriers) (i : ℕ) (heard : Option ℕ) (told : Bool)
      → i < size
      → amount_of size (tree_kids size k) (view w) i
        < amount_of size (tree_kids size k) (view (tested size k w i heard told)) i
      → amount size (tree_kids size k) (view w)
        < amount size (tree_kids size k) (view (tested size k w i heard told))
  tested-grows w i heard told lt more =
      amount-grows size (tree_kids size k) (view w) (view (tested size k w i heard told)) i lt
        (λ j ne. ground (arith, ne)) more
