-- ===== src/Prelude/Search.antt =====
-- Bounded searches for a rank at which a test fails.
use Prim.Native.Nat.{ℕ, zero, suc, ◌<◌}
use mathlib.Core.Path.{◌≡◌, ap, ◌∙◌}
use mathlib.Core.Logic.{◌⊎◌, inl, inr}
use mathlib.Core.Bool.{Bool, true, false}
use mathlib.Core.List.{List, [], ◌∷◌}
use native.Mathlib.Omega.{arith}
use circle.Prelude.Tests.{◌==◌, Bool-cases, ==→eq, ==→ne}
use circle.Prelude.Families.{elem, total}

-- The test holds below `n`, or there is a last number below `n` at which it fails.
pub all_or_last :
    (f : ℕ → Bool) (n : ℕ)
    → ((j : ℕ) → j < n → f j ≡ true)
      ⊎ ((i : ℕ) × (i < n) × (f i ≡ false) × ((j : ℕ) → i < j → j < n → f j ≡ true))
all_or_last f zero = inl (λ j h. absurd (omega (arith, h)))
all_or_last f (suc n) = elim (Bool-cases (f n)) [
  | inr e ↦ inr (n, omega arith, e, λ j lo hi. absurd (omega (arith, lo, hi)))
  | inl e ↦ elim (all_or_last f n) [
    | inl all ↦ inl (λ j h. elim (Bool-cases (j == n)) [
      | inl same ↦ ap f (==→eq j n same) ∙ e
      | inr apart ↦ all j (omega (arith, h, ==→ne j n apart))
    ])
    | inr (i, lt, fails, above) ↦ inr (
      i,
      omega (arith, lt),
      fails,
      λ j lo hi. elim (Bool-cases (j == n)) [
        | inl same ↦ ap f (==→eq j n same) ∙ e
        | inr apart ↦ above j lo (omega (arith, hi, ==→ne j n apart))
      ],
    )
  ]
]

-- The same with the first number.
pub all_or_first :
    (f : ℕ → Bool) (n : ℕ)
    → ((j : ℕ) → j < n → f j ≡ true)
      ⊎ ((i : ℕ) × (i < n) × (f i ≡ false) × ((j : ℕ) → j < i → f j ≡ true))
all_or_first f zero = inl (λ j h. absurd (omega (arith, h)))
all_or_first f (suc n) = elim (all_or_first f n) [
  | inr (i, lt, fails, below) ↦ inr (i, omega (arith, lt), fails, below)
  | inl all ↦ elim (Bool-cases (f n)) [
    | inr e ↦ inr (n, omega arith, e, all)
    | inl e ↦ inl (λ j h. elim (Bool-cases (j == n)) [
      | inl same ↦ ap f (==→eq j n same) ∙ e
      | inr apart ↦ all j (omega (arith, h, ==→ne j n apart))
    ])
  ]
]

-- A positive sum has a positive member.
pub total_positive :
    (f : ℕ → ℕ) (xs : List ℕ) → 0 < total f xs → (x : ℕ) × (elem x xs ≡ true) × (0 < f x)
total_positive f [] h = absurd (omega (arith, h))
total_positive f (x ∷ xs) h = elim (Bool-cases (f x == 0)) [
  | inl e ↦
      let (y, m, pos) = total_positive f xs (omega (arith, h, ==→eq (f x) 0 e)) in
      (y, ground (arith, m), pos)
  | inr e ↦ (x, ground arith, omega (arith, ==→ne (f x) 0 e))
]
