-- ===== src/Prelude/Families.antt =====
-- Families indexed by rank: a change at one index, and sums over a list of indices.
use Prim.Native.Nat.{ℕ, ◌+◌, ◌≤◌}
use mathlib.Core.Path.{◌≡◌, refl, ap, sym, subst, ◌∙◌}
use mathlib.Core.Logic.{◌≢◌, inl, inr}
use mathlib.Core.Bool.{Bool, true, false, ◌||◌}
use mathlib.Core.List.{List, [], ◌∷◌}
use native.Mathlib.Omega.{arith}
use circle.Prelude.Tests.{◌==◌, if◌then◌else◌, Bool-cases, ==→eq, ==→ne}
use circle.Prelude.Lists.{length}

-- Is the number in the list?
abbrev pub elem : ℕ → List ℕ → Bool
elem c [] = false
elem c (x ∷ xs) = (x == c) || elem c xs

abbrev pub NoDup : List ℕ → Type 0
NoDup [] = Unit
NoDup (x ∷ xs) = (elem x xs ≡ false) × NoDup xs

abbrev pub update {ℓ} : {A : Type ℓ} → (ℕ → A) → ℕ → A → ℕ → A
update f i a j = if j == i then a else f j

abbrev pub bit : Bool → ℕ
bit true = 1
bit false = 0

abbrev pub total : (ℕ → ℕ) → List ℕ → ℕ
total f [] = 0
total f (x ∷ xs) = f x + total f xs

pub total_same :
    (f g : ℕ → ℕ) (xs : List ℕ) → ((x : ℕ) → elem x xs ≡ true → f x ≡ g x) → total f xs ≡ total g xs
total_same f g [] h = refl
total_same f g (x ∷ xs) h = ground (arith, h x, total_same f g xs (λ y m. h y (ground (arith, m))))

pub total_zero : (xs : List ℕ) → total (λ x. 0) xs ≡ 0
total_zero [] = refl
total_zero (x ∷ xs) = omega (arith, total_zero xs)

pub total-le_length : (f : ℕ → ℕ) (xs : List ℕ) → ((x : ℕ) → f x ≤ 1) → total f xs ≤ length xs
total-le_length f [] h = omega arith
total-le_length f (x ∷ xs) h = omega (arith, total-le_length f xs h, h x)

pub elem_apart : (x y : ℕ) (xs : List ℕ) → elem x xs ≡ false → elem y xs ≡ true → y ≢ x
elem_apart x y xs h m e = ground (arith, ap (λ z. elem z xs) e, h, m)

-- Two families that differ at one member of a list.
pub total_change :
    (f g : ℕ → ℕ) (c : ℕ) (xs : List ℕ)
    → NoDup xs
    → elem c xs ≡ true
    → ((x : ℕ) → x ≢ c → f x ≡ g x)
    → total f xs + g c ≡ total g xs + f c
total_change f g c [] once m h = cc
total_change f g c (x ∷ xs) once m h = elim (Bool-cases (x == c)) [
  | inl e ↦
      let same : total f xs ≡ total g xs =
        total_same f g xs
          (λ y m2. h y (λ e2. elem_apart x y xs once.0 m2 (e2 ∙ sym (==→eq x c e)))) in
      ground (arith, ==→eq x c e, same)
  | inr e ↦ ground (arith, e, h x (==→ne x c e), total_change f g c xs once.1, m)
]

-- A sum of bits over a list is at most its length, and reaches it only if all are set.
pub total-bit-le : (f : ℕ → Bool) (xs : List ℕ) → total (λ x. bit (f x)) xs ≤ length xs
total-bit-le f [] = omega arith
total-bit-le f (x ∷ xs) = ground (arith, total-bit-le f xs)

pub total-bit_all :
    (f : ℕ → Bool) (xs : List ℕ) (x : ℕ)
    → length xs ≤ total (λ y. bit (f y)) xs
    → elem x xs ≡ true
    → f x ≡ true
total-bit_all f [] x h m = cc
total-bit_all f (y ∷ xs) x h m = ground (arith, total-bit-le f xs, total-bit_all f xs x, ==→eq y x)

pub update_all {ℓ κ} :
    {A : Type ℓ} (P : ℕ → A → Type κ) (f : ℕ → A) (i : ℕ) (a : A)
    → P i a
    → ((j : ℕ) → P j (f j))
    → (j : ℕ) → P j (update f i a j)
update_all P f i a new old j = elim (Bool-cases (j == i)) [
  | inl e ↦ rw e (subst (λ n. P n a) (sym (==→eq j i e)) new)
  | inr e ↦ rw e (old j)
]

pub member-le-total : (f : ℕ → ℕ) (x : ℕ) (xs : List ℕ) → elem x xs ≡ true → f x ≤ total f xs
member-le-total f x [] m = cc
member-le-total f x (y ∷ xs) m = elim (Bool-cases (y == x)) [
  | inl e ↦ omega (arith, ap f (==→eq y x e))
  | inr e ↦ omega (arith, member-le-total f x xs (ground (arith, m, e)))
]
