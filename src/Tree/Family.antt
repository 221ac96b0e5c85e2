-- ===== src/Tree/Family.antt =====
-- The tree of ranks that the constructor is to compute, in plain numbers, and that it computes it
-- where its products stay in the range of `int`. The children that a rank has in it are the ranks
-- that have it as their parent, and parents are smaller than their children.
use native.Mathlib.Nat.{div-eq_of_lt-le, div-mul-le_self, lt-div-mul-add}
use circle.Prelude.{
  elem, ℕ, zero, suc, ◌+◌, ◌-◌, ◌*◌, ◌/◌, ◌%◌, ◌^◌, ◌≤◌, ◌<◌, ◌≡◌, ◌↔◌, not, inl, inr, refl, List,
  [], ◌∷◌, Option, none, some, arith, set, replicate, ap, Bool-cases, ltb, leb, if◌then◌else◌, true,
}
use circle.Tree.{make_tree, fill, int_lt, children, children_from}

-- `n` ranks from `left` on.
abbrev pub ranks_from : ℕ → ℕ → List ℕ
ranks_from left zero = []
ranks_from left (suc n) = left ∷ ranks_from (left + 1) n

-- The tree on `size` ranks with `k` children at most: rank `i` has those of the ranks
-- `i * k + 1`, ..., `i * k + k` that there are.
abbrev pub tree_parent : ℕ → ℕ → ℕ → Option ℕ
tree_parent size k i = if ltb 0 i then some ((i - 1) / k) else none

abbrev pub kid_count : ℕ → ℕ → ℕ → ℕ
kid_count size k i = let there = size - (i * k + 1) in if leb there k then there else k

abbrev pub tree_kids : ℕ → ℕ → ℕ → List ℕ
tree_kids size k i = ranks_from (i * k + 1) (kid_count size k i)

pub elem-ranks_from : (c l n : ℕ) → (elem c (ranks_from l n) ≡ true) ↔ ((l ≤ c) × (c < l + n))
elem-ranks_from c l zero = (λ e. cc, λ h. absurd (omega arith))
elem-ranks_from c l (suc n) = ground (arith, elem-ranks_from c (l + 1) n)

-- The range of children in numbers.
kid-range :
    (i child size k : ℕ)
    → ((i * k + 1 ≤ child) × (child < i * k + 1 + kid_count size k i))
      ↔ ((child < size) × (i * k + 1 ≤ child) × (child ≤ i * k + k))
kid-range i child size k = ground arith

parent-quotient :
    (i child size k : ℕ)
    → 0 < k
    → ((i * k + 1 ≤ child) × (child ≤ i * k + k)) ↔ (tree_parent size k child ≡ some i)
parent-quotient i child size k pos = (
  λ h.
      ground
        (arith, div-eq_of_lt-le {k = i} k {m = child - 1} (omega (arith, h)) (omega (arith, h))),
  λ e.
      let q : (0 < child) × ((child - 1) / k ≡ i) = ground arith in
      let m : (child - 1) / k * k ≡ i * k = ap (λ t. t * k) q.1 in
      omega (arith, div-mul-le_self (child - 1) k, lt-div-mul-add {a = child - 1} {b = k} pos),
)

-- In the tree a rank is a child of another exactly when it is there and has that one as its parent.
pub elem-tree_kids :
    (i child size k : ℕ)
    → 0 < k
    → (elem child (tree_kids size k i) ≡ true)
      ↔ ((child < size) × (tree_parent size k child ≡ some i))
elem-tree_kids i child size k pos =
    let member = elem-ranks_from child (i * k + 1) (kid_count size k i) in
    let range = kid-range i child size k in
    let quotient = parent-quotient i child size k pos in
    (
      λ e. let h = range.0 (member.0 e) in (h.0, quotient.0 (h.1, h.2)),
      λ h. let g = quotient.1 h.1 in member.1 (range.1 (h.0, g.0, g.1)),
    )

-- The head of the array does not change when the loop fills from index 1 on.
fill-cons :
    (n left i : ℕ) (r : Option ℕ) (ranks : List (Option ℕ))
    → fill n left (suc i) (r ∷ ranks) ≡ r ∷ fill n (left + 1) i ranks
unfolding fill
fill-cons zero left i r ranks = refl
fill-cons (suc n) left i r ranks =
    let index : suc i + 1 ≡ suc (i + 1) = omega arith in
    let rank : left + suc i ≡ left + 1 + i = omega arith in
    rw (index, rank) (fill-cons n left (i + 1) r (set ranks i (some ((left + 1 + i) % 2 ^ 32))))

children-fill :
    (n m left : ℕ)
    → n ≤ m
    → left + n ≤ 2 ^ 32
    → children_from (fill n left 0 (replicate m none)) n ≡ ranks_from left n
unfolding fill
children-fill zero m left h fits = refl
children-fill (suc n) zero left h fits = absurd (omega arith)
children-fill (suc n) (suc m) left h fits =
    let rank : (left + 0) % 2 ^ 32 ≡ left = omega arith in
    rw (fill-cons n left 0 (some ((left + 0) % 2 ^ 32)) (replicate m none), rank)
      (ap (◌∷◌ left) (children-fill n m (left + 1) (omega arith) (omega arith)))

-- In the range of `int` nothing wraps.
in_range : (n : ℕ) → n < 2 ^ 31 → n % 2 ^ 32 ≡ n
in_range n h = omega arith

int_lt_in_range : (a b : ℕ) → a < 2 ^ 31 → b < 2 ^ 31 → int_lt a b ≡ ltb a b
int_lt_in_range a b h g = ground arith

-- What the constructor computes is the number of children.
kid_count_lem :
    (size k i : ℕ)
    → i * k + k < 2 ^ 31
    → size < 2 ^ 31
    → ltb (i * k + 1) size ≡ true
    → ((if not (ltb (i * k + k) size) then size - 1 else i * k + k) + 1 + 2 ^ 32 - (i * k + 1))
        % 2 ^ 32
      ≡ kid_count size k i
kid_count_lem size k i fits few some_child = ground arith

children-make_tree :
    (rank nranks k : ℕ)
    → 0 < k
    → rank * k + k < 2 ^ 31
    → nranks < 2 ^ 31
    → children (make_tree rank nranks k) ≡ tree_kids nranks k rank
unfolding make_tree
children-make_tree rank nranks k pos fits few =
    rw
      (
        in_range (rank * k + 1) (omega arith),
        in_range (rank * k + k) fits,
        int_lt_in_range (rank * k + 1) nranks (omega arith) few,
        int_lt_in_range (rank * k + k) nranks fits few,
      )
      (elim (Bool-cases (ltb (rank * k + 1) nranks)) [
        | inl some_child ↦
            rw (some_child, kid_count_lem nranks k rank fits few some_child)
              (children-fill (kid_count nranks k rank) k (rank * k + 1) (ground arith)
                (ground arith))
        | inr leaf ↦
            let none_there : kid_count nranks k rank ≡ 0 = ground (arith, leaf) in
            rw (leaf, none_there) refl
      ])

parent_rank-make_tree :
    (rank nranks k : ℕ) → (make_tree rank nranks k).parent_rank ≡ tree_parent nranks k rank
unfolding make_tree
parent_rank-make_tree rank nranks k = ground arith

-- Where `rank * maxChildren + maxChildren` and the number of ranks are in the range of `int`, the
-- constructor computes the children and the parent that the rank has in the tree, and a rank is among
-- these children exactly when it is in the job and computes this one as its parent.
pub children-parent :
    (rank child nranks k : ℕ)
    → 0 < k
    → rank * k + k < 2 ^ 31
    → nranks < 2 ^ 31
    → (children (make_tree rank nranks k) ≡ tree_kids nranks k rank)
      × ((make_tree rank nranks k).parent_rank ≡ tree_parent nranks k rank)
      × ((elem child (children (make_tree rank nranks k)) ≡ true)
          ↔ ((child < nranks) × ((make_tree child nranks k).parent_rank ≡ some rank)))
children-parent rank child nranks k pos fits few =
    let kids = children-make_tree rank nranks k pos fits few in
    (
      kids,
      parent_rank-make_tree rank nranks k,
      rw (kids, parent_rank-make_tree child nranks k) (elem-tree_kids rank child nranks k pos),
    )
