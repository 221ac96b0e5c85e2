-- ===== src/Work/Spread.antt =====
-- `spread_counts`: the shares make up the whole and differ by at most one.
use native.Mathlib.Nat.{mul_comm, mod-lt, mod-eq-sub-div-mul, div-add-mod'}
use circle.Prelude.{
  ℕ, zero, suc, ◌+◌, ◌-◌, ◌*◌, ◌/◌, ◌%◌, ◌≤◌, ◌<◌, ◌≡◌, refl, ◌∙◌, ap, sym, List, [], ◌∷◌, ◌++◌,
  arith, length, set, drop, replicate, sum, sum-append, All, length-append, length-replicate,
  length-drop, drop_all, sum-replicate, All-append, All-replicate, append_assoc, append-nil,
}
use circle.Work.{fill_counts, spread_counts}

-- A write right behind a prefix.
set-append : (xs ys : List ℕ) (y v : ℕ) → set (xs ++ (y ∷ ys)) (length xs) v ≡ xs ++ (v ∷ ys)
set-append [] ys y v = refl
set-append (x ∷ xs) ys y v = ap (◌∷◌ x) (set-append xs ys y v)

fill_counts-append :
    (n v i : ℕ) (xs ys : List ℕ)
    → length xs ≡ i
    → n ≤ length ys
    → fill_counts n i v (xs ++ ys) ≡ xs ++ (replicate n v ++ drop n ys)
unfolding fill_counts
fill_counts-append zero v i xs ys e h = refl
fill_counts-append (suc n) v i xs [] e h = absurd (omega arith)
fill_counts-append (suc n) v i xs (y ∷ ys) e h =
    rw (← e, set-append xs ys y v, ← append_assoc xs (v ∷ []) ys)
      (fill_counts-append n v (length xs + 1) (xs ++ (v ∷ [])) ys
          (omega (arith, length-append xs (v ∷ []))) (omega arith)
        ∙ append_assoc xs (v ∷ []) (replicate n v ++ drop n ys))

-- The shares as a list: the remainder goes to the first ranks.
pub spread_counts_lem :
    (ranks count : ℕ) (sizes : List ℕ)
    → 0 < ranks
    → length sizes ≡ ranks
    → spread_counts sizes ranks count
      ≡ replicate (count % ranks) (count / ranks + 1)
        ++ replicate (ranks - count % ranks) (count / ranks)
unfolding spread_counts
spread_counts_lem ranks count sizes pos e =
    let extra : count - count / ranks * ranks ≡ count % ranks =
      sym (mod-eq-sub-div-mul count ranks) in
    let small = mod-lt count pos in
    let b = count / ranks in
    let k = count % ranks in
    let first = fill_counts-append k (b + 1) 0 [] sizes refl (omega arith) in
    let second =
      fill_counts-append (ranks - k) b k (replicate k (b + 1)) (drop k sizes)
        (length-replicate k (b + 1)) (omega (arith, length-drop k sizes)) in
    let rest = drop_all (ranks - k) (drop k sizes) (omega (arith, length-drop k sizes)) in
    rw (extra, first, second, rest, append-nil)

regroup : (k b r : ℕ) → k * (b + 1) + r * b ≡ (r + k) * b + k
regroup k b r = omega arith

-- The shares of `ranks` ranks: as many as there are ranks, together the whole, and each is the
-- quotient or one more.
pub spread_counts_fair :
    (ranks count : ℕ) (sizes : List ℕ)
    → 0 < ranks
    → length sizes ≡ ranks
    → (length (spread_counts sizes ranks count) ≡ ranks)
      × (sum (spread_counts sizes ranks count) ≡ count)
      × All (λ n. (count / ranks ≤ n) × (n ≤ count / ranks + 1)) (spread_counts sizes ranks count)
spread_counts_fair ranks count sizes pos e =
    let b = count / ranks in
    let k = count % ranks in
    let small = mod-lt count pos in
    let xs = replicate k (b + 1) in
    let ys = replicate (ranks - k) b in
    let split : b * ranks + k ≡ count = div-add-mod' count ranks in
    let whole : (ranks - k + k) * b ≡ b * ranks =
      ap (λ t. t * b) (omega arith) ∙ mul_comm ranks b in
    let total : sum (xs ++ ys) ≡ count = omega (
      arith,
      sum-append xs ys,
      sum-replicate k (b + 1),
      sum-replicate (ranks - k) b,
      regroup k b (ranks - k),
      whole,
    ) in
    rw (spread_counts_lem ranks count sizes pos e) (
      omega
          (arith, length-append xs ys, length-replicate k (b + 1), length-replicate (ranks - k) b),
      total,
      All-append (λ n. (b ≤ n) × (n ≤ b + 1)) xs ys
          (All-replicate (λ n. (b ≤ n) × (n ≤ b + 1)) k (b + 1) (omega arith))
          (All-replicate (λ n. (b ≤ n) × (n ≤ b + 1)) (ranks - k) b (omega arith)),
    )
