-- ===== src/Gather/Shape.antt =====
-- The tree of ranks (Tree.Family), as the protocols need it.
use native.Mathlib.Nat.{div-le_self}
use circle.Prelude.{
  ℕ, zero, suc, ◌+◌, ◌-◌, ◌*◌, ◌<◌, ◌≡◌, refl, sym, subst, true, false, List, Option, none, some,
  arith, elem, NoDup, Option-cases, inl, inr,
}
pub use circle.Tree.Family.{tree_parent, tree_kids}
use circle.Tree.Family.{ranks_from, kid_count, elem-tree_kids}

pub record IsTree (size : ℕ) (parent : ℕ → Option ℕ) (kids : ℕ → List ℕ) : Type 0 where
  pub of_kid : (i c : ℕ) → elem c (kids i) ≡ true → parent c ≡ some i
  pub kid_in : (i c : ℕ) → elem c (kids i) ≡ true → c < size
  pub kid_of : (i c : ℕ) → c < size → parent c ≡ some i → elem c (kids i) ≡ true
  pub once : (i : ℕ) → NoDup (kids i)
  pub lower : (i p : ℕ) → parent i ≡ some p → p < i
  pub is_root : (i : ℕ) → parent i ≡ none → i ≡ 0
  pub root : parent 0 ≡ none

pub NoDup-ranks_from : (l n : ℕ) → NoDup (ranks_from l n)
NoDup-ranks_from l zero = tt
NoDup-ranks_from l (suc n) = (not_elem (l + 1) n l (omega arith), NoDup-ranks_from (l + 1) n)
  where
    not_elem : (m n c : ℕ) → c < m → elem c (ranks_from m n) ≡ false
    not_elem m zero c h = refl
    not_elem m (suc n) c h = ground (arith, not_elem (m + 1) n c)

pub children-IsTree : (size k : ℕ) → 0 < k → IsTree size (tree_parent size k) (tree_kids size k)
children-IsTree size k pos = record {
  of_kid = λ i c m. ((elem-tree_kids i c size k pos).0 m).1;
  kid_in = λ i c m. ((elem-tree_kids i c size k pos).0 m).0;
  kid_of = λ i c lt e. (elem-tree_kids i c size k pos).1 (lt, e);
  once = λ i. NoDup-ranks_from (i * k + 1) (kid_count size k i);
  lower = λ i p e. ground (arith, div-le_self (i - 1) k, e);
  is_root = λ i e. ground (arith, e);
  root = refl;
}

module _ {size : ℕ} {parent : ℕ → Option ℕ} {kids : ℕ → List ℕ}
    (tree : IsTree size parent kids) where
  -- From the root to every rank of the tree, and back.
  pub down_tree :
      (P : ℕ → Type 0)
      → P 0
      → ((c p : ℕ) → c < size → parent c ≡ some p → P p → P c)
      → (n j : ℕ) → j < n
      → j < size
      → P j
  down_tree P root step zero j small lt = absurd (omega (arith, small))
  down_tree P root step (suc n) j small lt = elim (Option-cases (parent j)) [
    | inl e ↦ subst P (sym (tree.is_root j e)) root
    | inr (p, e) ↦
        let low = tree.lower j p e in
        step j p lt e
          (down_tree P root step n p (omega (arith, low, small)) (omega (arith, low, lt)))
  ]

  pub up_tree :
      (P : ℕ → Type 0)
      → ((c p : ℕ) → c < size → parent c ≡ some p → P c → P p)
      → (n j : ℕ) → j < n
      → j < size
      → P j
      → P 0
  up_tree P step zero j small lt h = absurd (omega (arith, small))
  up_tree P step (suc n) j small lt h = elim (Option-cases (parent j)) [
    | inl e ↦ subst P (tree.is_root j e) h
    | inr (p, e) ↦
        let low = tree.lower j p e in
        up_tree P step n p (omega (arith, low, small)) (omega (arith, low, lt)) (step j p lt e h)
  ]
