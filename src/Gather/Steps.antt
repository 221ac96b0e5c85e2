-- ===== src/Gather/Steps.antt =====
-- Every step of the protocol keeps the invariant.
use circle.Prelude.{
  ℕ, ◌<◌, ◌≡◌, ◌≢◌, inl, inr, refl, sym, ap, ◌∙◌, true, false, List, Option, some, arith, elem,
  update, total, total_same, Bool-cases, ◌==◌, ==→eq,
}
use circle.Gather.{
  Gather, received, sent_down, Step, Reach, readies, takes, goes_up, leaves_root, leaves, here,
  next,
}
use circle.Gather.Shape.{IsTree}
use circle.Gather.Flight.{
  total-received_other, total-sent_down, sent_down_elsewhere, received-source, sent_down-source,
}
use circle.Gather.Invariant.{Inv, start-Inv, readies-Inv, takes-Inv, not_kid}
use circle.Gather.Up.{goes_up-Inv}

module _ {size : ℕ} {parent : ℕ → Option ℕ} {kids : ℕ → List ℕ}
    (tree : IsTree size parent kids) where
  -- Messages to the children do not count as messages of children.
  leaves-total :
      (i j : ℕ) (f : ℕ → ℕ → ℕ)
      → total (λ c. sent_down i (kids i) f c j) (kids j) ≡ total (λ c. f c j) (kids j)
  leaves-total i j f = elim (Bool-cases (elem j (kids i))) [
    | inl m ↦
        let below = tree.lower j i (tree.of_kid i j m) in
        total-sent_down i j (kids i) f (kids j)
          (not_kid tree i j (parent i) refl (λ e. absurd (omega (arith, below, tree.lower i j e))))
    | inr out ↦
        total_same (λ c. sent_down i (kids i) f c j) (λ c. f c j) (kids j)
          (λ c m. sent_down_elsewhere i j (kids i) f c out)
  ]

  leaves-Inv :
      (g : Gather) (i : ℕ) (f : ℕ → ℕ → ℕ)
      → Inv tree g
      → g.left i ≡ false
      → g.up i ≡ true
      → ((p : ℕ) → parent i ≡ some p → g.left p ≡ true)
      → ((x y : ℕ) → 0 < f x y → 0 < g.flight x y)
      → ((j : ℕ) → j ≢ i → total (λ c. f c j) (kids j) ≡ total (λ c. g.flight c j) (kids j))
      → Inv tree (record g { left = update g.left i true; flight = sent_down i (kids i) f })
  leaves-Inv g i f v stays up above fewer same = record {
    counts = λ j e. ground (arith, v.counts j, same j, leaves-total i j f, e);
    all_in = λ j e stay. ground (arith, v.all_in j e, stay);
    sources = λ x y h. elim (sent_down-source i (kids i) f x y h) [
      | inl s ↦ ground (arith, v.sources x y (fewer x y s))
      | inr (a, m) ↦ inr (tree.of_kid i y m ∙ ap some (sym a), ground (arith, a))
    ];
    kids_up = v.kids_up;
    left_up = λ j e. ground (arith, v.left_up j, up, ==→eq j i, e);
    up_ready = v.up_ready;
    parent_left = λ j p e m. elim (Bool-cases (j == i)) [
      | inl a ↦ ground (arith, above p (sym (ap parent (==→eq j i a)) ∙ m))
      | inr n ↦ ground (arith, v.parent_left j p, e, m, n)
    ];
  }

  above_left :
      (g : Gather) (i p : ℕ)
      → Inv tree g
      → parent i ≡ some p
      → 0 < g.flight p i
      → (q : ℕ) → parent i ≡ some q
      → g.left q ≡ true
  above_left g i p v e pos q e2 = elim (v.sources p i pos) [
    | inl (m, _) ↦ absurd (omega (arith, tree.lower p i (tree.of_kid i p m), tree.lower i p e))
    | inr (_, l) ↦ ground (arith, l, sym e ∙ e2)
  ]

  Step-Inv : {g h : Gather} → Step size parent kids g h → Inv tree g → Inv tree h
  Step-Inv {g} (readies i) v = readies-Inv tree g i v
  Step-Inv {g} (takes i c lt stays waits pos) v = takes-Inv tree g i c v lt stays waits pos
  Step-Inv {g} (goes_up i lt stays down ready full) v =
      goes_up-Inv tree g i v lt stays down ready full
  Step-Inv {g} (leaves_root i lt stays up e) v =
      leaves-Inv g i g.flight v stays up (λ p e2. ground (arith, e, e2)) (λ x y h. h) (λ j ne. refl)
  Step-Inv {g} (leaves i p lt stays up e pos) v =
      leaves-Inv g i (received p i g.flight) v stays up (above_left g i p v e pos)
        (λ x y. received-source p i g.flight x y)
        (λ j ne. total-received_other p i j g.flight (kids j) ne)

  pub Reach-Inv : {g : Gather} → Reach size parent kids g → Inv tree g
  Reach-Inv here = start-Inv tree
  Reach-Inv (next r st) = Step-Inv st (Reach-Inv r)
