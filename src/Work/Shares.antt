-- ===== src/Work/Shares.antt =====
-- `sendWorkToMany`: what is split, what stays, and who is answered.
use native.Mathlib.Nat.{mod-lt, div-add-mod'}
use circle.Prelude.{
  ℕ, zero, suc, ◌+◌, ◌-◌, ◌*◌, ◌/◌, ◌%◌, ◌<◌, ◌≡◌, Bool, true, false, List, ◌++◌, arith, length,
  sum, replicate, length-replicate, get_or,
}
use circle.Work.{spread_counts, random_amount, shares}
use circle.Work.Spread.{spread_counts_lem, spread_counts_fair}

random_amount_bounds : (number count : ℕ) → 0 < count → (random_amount number count < count)
unfolding random_amount
random_amount_bounds number count pos = ground (arith, mod-lt number pos)

first_of_shares :
    (k r b n : ℕ) → 0 < b * n + k → 0 < r → 0 < get_or (replicate k (b + 1) ++ replicate r b) 0 0
first_of_shares (suc k) r b n pos room = omega arith
first_of_shares zero zero b n pos room = absurd (omega arith)
first_of_shares zero (suc r) zero n pos room = absurd (omega arith)
first_of_shares zero (suc r) (suc b) n pos room = omega arith

-- The rank's own share under an equal split.
first-positive :
    (ranks count : ℕ) (sizes : List ℕ)
    → 0 < ranks
    → 0 < count
    → length sizes ≡ ranks
    → 0 < get_or (spread_counts sizes ranks count) 0 0
first-positive ranks count sizes r c e =
    let small = mod-lt count r in
    rw (spread_counts_lem ranks count sizes r e) (
      first_of_shares (count % ranks) (ranks - count % ranks) (count / ranks) ranks
        (omega (arith, div-add-mod' count ranks)) (omega arith))

-- However the work is split, there is one share for the rank itself and one for every requestor,
-- the shares make up all items of the queue, and the rank keeps at least one of them.
pub shares_lem :
    (equal : Bool) (number rcount count : ℕ)
    → 0 < rcount
    → 0 < count
    → (length (shares equal number rcount count) ≡ rcount + 1)
      × (sum (shares equal number rcount count) ≡ count)
      × (0 < get_or (shares equal number rcount count) 0 0)
unfolding shares
shares_lem true number rcount count r c =
    let f =
      spread_counts_fair (rcount + 1) count (replicate (rcount + 1) 0) (omega arith)
        (length-replicate (rcount + 1) 0) in
    (
      f.0,
      f.1,
      first-positive (rcount + 1) count (replicate (rcount + 1) 0) (omega arith) c
          (length-replicate (rcount + 1) 0),
    )
shares_lem false number rcount count r c =
    let f =
      spread_counts_fair rcount (random_amount number count) (replicate rcount 0) r
        (length-replicate rcount 0) in
    let b = random_amount_bounds number count c in
    (omega (arith, f.0), omega (arith, f.1), omega arith)
