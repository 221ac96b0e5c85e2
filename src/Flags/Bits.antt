-- ===== src/Flags/Bits.antt =====
-- The operators on sets of flags, bit by bit.
use circle.Prelude.{
  ℕ, zero, suc, ◌+◌, ◌/◌, ◌%◌, ◌≡◌, ◌⊎◌, inl, inr, refl, Bool, false, not, ◌&&◌, ◌||◌, ◌==◌,
  if◌then◌else◌, arith,
}
use circle.Flags.{and_bits, or_bits, or_flags, has_flag}

-- Have two sets a bit in common, among the low `n`?
abbrev pub meets : ℕ → ℕ → ℕ → Bool
meets zero x y = false
meets (suc n) x y = ((x % 2 == 1) && (y % 2 == 1)) || meets n (x / 2) (y / 2)

parity : (x : ℕ) → (x % 2 ≡ 0) ⊎ (x % 2 ≡ 1)
parity x = omega arith

and_bits-meets : (n x y : ℕ) → not (and_bits n x y == 0) ≡ meets n x y
unfolding and_bits
and_bits-meets zero x y = refl
and_bits-meets (suc n) x y = elim (parity x) [
  | inl a ↦ rw a (ground (arith, and_bits-meets n (x / 2) (y / 2)))
  | inr a ↦ elim (parity y) [
    | inl b ↦ rw (a, b) (ground (arith, and_bits-meets n (x / 2) (y / 2)))
    | inr b ↦ rw (a, b) (ground (arith, and_bits-meets n (x / 2) (y / 2)))
  ]
]

or_bits-low : (n x y : ℕ) → or_bits (suc n) x y % 2 ≡ (if x % 2 + y % 2 == 0 then 0 else 1)
unfolding or_bits
or_bits-low n x y = ground arith

or_bits-high : (n x y : ℕ) → or_bits (suc n) x y / 2 ≡ or_bits n (x / 2) (y / 2)
unfolding or_bits
or_bits-high n x y = ground arith

meets-or : (n x y f : ℕ) → meets n (or_bits n x y) f ≡ meets n x f || meets n y f
meets-or zero x y f = refl
meets-or (suc n) x y f =
    rw (or_bits-low n x y, or_bits-high n x y, meets-or n (x / 2) (y / 2) (f / 2)) (ground arith)

pub has_flag-or : (x y flag : ℕ) → has_flag (or_flags x y) flag ≡ has_flag x flag || has_flag y flag
unfolding has_flag
has_flag-or x y flag =
    rw (and_bits-meets 32 (or_flags x y) flag, and_bits-meets 32 x flag, and_bits-meets 32 y flag)
      (meets-or 32 x y flag)
