-- ===== src/Gather/Safety.antt =====
-- Nobody leaves before all are ready.
use circle.Prelude.{
  ℕ, zero, suc, ◌<◌, ◌≡◌, inl, inr, sym, ap, ◌∙◌, true, List, Option, arith, Option-cases,
}
use circle.Gather.{Gather, Reach}
use circle.Gather.Shape.{IsTree}
use circle.Gather.Invariant.{Inv}
use circle.Gather.Steps.{Reach-Inv}

module _ {size : ℕ} {parent : ℕ → Option ℕ} {kids : ℕ → List ℕ}
    (tree : IsTree size parent kids) where
  -- On the way up from a rank that has left, all have left.
  root_left : (g : Gather) → Inv tree g → (n i : ℕ) → i < n → g.left i ≡ true → g.left 0 ≡ true
  root_left g v zero i h left = absurd (omega arith)
  root_left g v (suc n) i h left = elim (Option-cases (parent i)) [
    | inl e ↦ ap g.left (sym (tree.is_root i e)) ∙ left
    | inr (p, e) ↦
        let below = tree.lower i p e in root_left g v n p (omega arith) (v.parent_left i p left e)
  ]

  -- On the way down from a root that has gone up, all have gone up.
  everyone_up :
      (g : Gather) → Inv tree g → g.up 0 ≡ true → (n j : ℕ) → j < n → j < size → g.up j ≡ true
  everyone_up g v up zero j h lt = absurd (omega arith)
  everyone_up g v up (suc n) j h lt = elim (Option-cases (parent j)) [
    | inl e ↦ ap g.up (tree.is_root j e) ∙ up
    | inr (p, e) ↦
        let below = tree.lower j p e in
        v.kids_up p j (everyone_up g v up n p (omega arith) (omega arith)) (tree.kid_of p j lt e)
  ]

  -- In every state that the protocol reaches: if one rank has left, every rank of the job has gone
  -- up, and was ready to.
  pub Reach-all_ready :
      {g : Gather}
      → Reach size parent kids g
      → (i j : ℕ) → g.left i ≡ true
      → j < size
      → (g.up j ≡ true) × (g.ready j ≡ true)
  Reach-all_ready {g} r i j left lt =
      let v = Reach-Inv tree r in
      let top = v.left_up 0 (root_left g v (suc i) i (omega arith) left) in
      let up = everyone_up g v top (suc j) j (omega arith) lt in (up, v.up_ready j up)
