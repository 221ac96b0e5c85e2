-- ===== src/Gather/Amount.antt =====
-- How far the protocol has come, on a rank and on all.
use circle.Prelude.{
  ℕ, ◌+◌, ◌≤◌, ◌<◌, ◌≡◌, ◌≢◌, List, [], ◌∷◌, arith, length, total, total_change, bit, if◌then◌else◌,
}
use circle.Gather.{Gather}
use circle.Gather.Shape.{NoDup-ranks_from}
use circle.Tree.Family.{ranks_from, elem-ranks_from}

total_le : (f g : ℕ → ℕ) (xs : List ℕ) → ((x : ℕ) → f x ≤ g x) → total f xs ≤ total g xs
total_le f g [] h = omega arith
total_le f g (x ∷ xs) h = omega (arith, h x, total_le f g xs h)

module _ (size : ℕ) (kids : ℕ → List ℕ) where
  abbrev pub amount_of : Gather → ℕ → ℕ
  amount_of g i = if g.left i then length (kids i) + 2 else g.replies i + bit (g.up i)

  unfoldable pub amount : Gather → ℕ
  amount g = total (amount_of g) (ranks_from 0 size)

  unfoldable pub most : ℕ
  most = total (λ i. length (kids i) + 2) (ranks_from 0 size)

  pub amount-le-most : (g : Gather) → ((i : ℕ) → g.replies i ≤ length (kids i)) → amount g ≤ most
  unfolding amount most
  amount-le-most g few =
      total_le (amount_of g) (λ i. length (kids i) + 2) (ranks_from 0 size)
        (λ i. ground (arith, few i))

  -- A move of one rank that gets on.
  pub amount-grows :
      (g h : Gather) (i : ℕ)
      → i < size
      → ((j : ℕ) → j ≢ i → amount_of h j ≡ amount_of g j)
      → amount_of g i < amount_of h i
      → amount g < amount h
  unfolding amount
  amount-grows g h i lt elsewhere more = omega (
    arith,
    more,
    total_change (amount_of h) (amount_of g) i (ranks_from 0 size) (NoDup-ranks_from 0 size)
        ((elem-ranks_from i 0 size).1 (omega arith, omega (arith, lt))) elsewhere,
  )
