-- ===== src/Buffer.antt =====
-- `std::vector<char>` and `std::vector<uintptr_t>` as the source uses them (include/queue.hpp): a
-- size and a cell for each index. Cells from `size` on are no part of the vector, and what reads or
-- writes them would be out of bounds.
use circle.Prelude.{
  ℕ, zero, suc, ◌+◌, ◌-◌, ◌≤◌, ◌<◌, ◌≡◌, refl, ap, ◌∙◌, List, [], ◌∷◌, arith, ltb, ◌==◌,
  if◌then◌else◌, length, get_or,
}

pub record Buffer : Type 0 where
  pub size : ℕ
  pub cell : ℕ → ℕ

abbrev pub no_cells : Buffer
no_cells = record { size = 0; cell = λ _. 0 }

-- `resize` to a larger size: new cells are zero.
abbrev pub resize : Buffer → ℕ → Buffer
resize b n = record { size = n; cell = λ i. if ltb i b.size then b.cell i else 0 }

-- `b[i] = v`
abbrev pub put : Buffer → ℕ → ℕ → Buffer
put b i v = record b { cell = λ j. if j == i then v else b.cell j }

-- `memcpy(&b[0] + off, xs, length xs)`
abbrev pub copy_in : Buffer → ℕ → List ℕ → Buffer
copy_in b off xs = record b {
  cell = λ j.
      if ltb j off
      then b.cell j
      else if ltb j (off + length xs)
      then get_or xs (j - off) 0
      else b.cell j;
}

-- The `n` cells from `off` on.
unfoldable pub slice : (ℕ → ℕ) → ℕ → ℕ → List ℕ
slice f off zero = []
slice f off (suc n) = f off ∷ slice f (off + 1) n

pub slice_agree :
    (f g : ℕ → ℕ) (off n : ℕ)
    → ((j : ℕ) → off ≤ j → j < off + n → f j ≡ g j)
    → slice f off n ≡ slice g off n
unfolding slice
slice_agree f g off zero h = refl
slice_agree f g off (suc n) h =
    ground (arith, h off, slice_agree f g (off + 1) n (λ j lo hi. h j (omega arith) (omega arith)))

-- A slice that holds a given list, cell by cell.
pub slice-eq :
    (f : ℕ → ℕ) (off : ℕ) (xs : List ℕ)
    → ((k : ℕ) → k < length xs → f (off + k) ≡ get_or xs k 0)
    → slice f off (length xs) ≡ xs
unfolding slice
slice-eq f off [] h = refl
slice-eq f off (x ∷ xs) h = ground (
  arith,
  h 0,
  slice-eq f (off + 1) xs
      λ k lt. let e : off + 1 + k ≡ off + suc k = omega arith in ap f e ∙ h (suc k) (omega arith),
)

pub slice-copy_in :
    (b : Buffer) (off : ℕ) (xs : List ℕ) → slice (copy_in b off xs).cell off (length xs) ≡ xs
slice-copy_in b off xs = slice-eq (copy_in b off xs).cell off xs λ k lt.
    let e : off + k - off ≡ k = omega arith in rw (← ap (λ i. get_or xs i 0) e) (ground arith)

pub length-slice : (f : ℕ → ℕ) (off n : ℕ) → length (slice f off n) ≡ n
unfolding slice
length-slice f off zero = refl
length-slice f off (suc n) = ap suc (length-slice f (off + 1) n)

pub get_or-slice : (f : ℕ → ℕ) (off n j : ℕ) → j < n → get_or (slice f off n) j 0 ≡ f (off + j)
unfolding slice
get_or-slice f off zero j h = absurd (omega arith)
get_or-slice f off (suc n) zero h = let e : off + 0 ≡ off = omega arith in rw e
get_or-slice f off (suc n) (suc j) h =
    get_or-slice f (off + 1) n j (omega arith) ∙ ap f (omega arith)
