-- ===== src/Gather/Up.antt =====
-- A rank that goes up keeps the invariant.
use circle.Prelude.{
  ℕ, ◌+◌, ◌<◌, ◌≡◌, ◌⊎◌, inl, inr, refl, sym, ap, ◌∙◌, subst, Bool, true, false, List, Option, none,
  some, arith, length, elem, elem_apart, NoDup, update, bit, total, total_same, total_change,
  total-bit_all, Bool-cases, ◌==◌, ==→eq, ==→ne,
}
use circle.Gather.{Gather, sent, sent_up}
use circle.Gather.Shape.{IsTree}
use circle.Gather.Flight.{total-sent, total-sent_other, sent-source}
use circle.Gather.Invariant.{Inv, not_kid}

module _ {size : ℕ} {parent : ℕ → Option ℕ} {kids : ℕ → List ℕ}
    (tree : IsTree size parent kids) where
  total-up :
      (up : ℕ → Bool) (i : ℕ) (xs : List ℕ)
      → up i ≡ false
      → NoDup xs
      → total (λ c. bit (update up i true c)) xs ≡ total (λ c. bit (up c)) xs + bit (elem i xs)
  total-up up i xs down once = elim (Bool-cases (elem i xs)) [
    | inl m ↦ ground (
      arith,
      m,
      down,
      total_change (λ c. bit (update up i true c)) (λ c. bit (up c)) i xs once m
          (λ x ne. ground (arith, ne)),
    )
    | inr out ↦ ground (
      arith,
      out,
      total_same (λ c. bit (update up i true c)) (λ c. bit (up c)) xs
          (λ x m. ground (arith, elem_apart i x xs out m)),
    )
  ]

  goes_up-counts :
      (g : Gather) (i : ℕ)
      → Inv tree g
      → i < size
      → g.up i ≡ false
      → (o : Option ℕ) → parent i ≡ o
      → (j : ℕ) → g.left j ≡ false
      → g.replies j + total (λ c. sent_up i o g.flight c j) (kids j)
        ≡ total (λ c. bit (update g.up i true c)) (kids j)
  goes_up-counts g i v lt down none e j stay = omega (
    arith,
    v.counts j stay,
    total-up g.up i (kids j) down (tree.once j),
    ap bit (not_kid tree i j none e (λ n. cc)),
  )
  goes_up-counts g i v lt down (some p) e j stay = elim (Bool-cases (j == p)) [
    | inl same ↦
        let q : p ≡ j = sym (==→eq j p same) in
        let m = tree.kid_of j i lt (e ∙ ap some q) in
        let here : g.replies j + total (λ c. sent i j g.flight c j) (kids j)
            ≡ total (λ c. bit (update g.up i true c)) (kids j) =
          omega (
            arith,
            v.counts j stay,
            total-up g.up i (kids j) down (tree.once j),
            ap bit m,
            total-sent i j g.flight (kids j) (tree.once j) m,
          ) in
        subst
          (λ r.
            g.replies j + total (λ c. sent i r g.flight c j) (kids j)
            ≡ total (λ c. bit (update g.up i true c)) (kids j))
          (sym q) here
    | inr apart ↦ omega (
      arith,
      v.counts j stay,
      total-up g.up i (kids j) down (tree.once j),
      ap bit (not_kid tree i j (some p) e (λ n. ground (arith, n, ==→ne j p apart))),
      total-sent_other i p j g.flight (kids j) (==→ne j p apart),
    )
  ]

  goes_up-sources :
      (g : Gather) (i : ℕ)
      → Inv tree g
      → i < size
      → (o : Option ℕ) → parent i ≡ o
      → (x y : ℕ) → 0 < sent_up i o g.flight x y
      → ((elem x (kids y) ≡ true) × (update g.up i true x ≡ true))
        ⊎ ((parent y ≡ some x) × (g.left x ≡ true))
  goes_up-sources g i v lt none e x y h = ground (arith, v.sources x y h)
  goes_up-sources g i v lt (some p) e x y h = elim (sent-source i p g.flight x y h) [
    | inl old ↦ ground (arith, v.sources x y old)
    | inr (a, b) ↦
        let m = tree.kid_of p i lt e in
        inl (ap (λ z. elem z (kids y)) a ∙ ap (λ z. elem i (kids z)) b ∙ m, ground (arith, a))
  ]

  goes_up-kids :
      (g : Gather) (i c : ℕ)
      → Inv tree g
      → g.left i ≡ false
      → g.replies i ≡ length (kids i)
      → elem c (kids i) ≡ true
      → g.up c ≡ true
  goes_up-kids g i c v stay full m =
      total-bit_all g.up (kids i) c (omega (arith, v.counts i stay, full)) m

  pub goes_up-Inv :
      (g : Gather) (i : ℕ)
      → Inv tree g
      → i < size
      → g.left i ≡ false
      → g.up i ≡ false
      → g.ready i ≡ true
      → g.replies i ≡ length (kids i)
      → Inv tree (record g { up = update g.up i true; flight = sent_up i (parent i) g.flight })
  goes_up-Inv g i v lt stays down ready full = record {
    counts = λ j e. goes_up-counts g i v lt down (parent i) refl j e;
    all_in = λ j e stay. ground (arith, v.all_in j, e, stay, full, ==→eq j i);
    sources = λ x y h. goes_up-sources g i v lt (parent i) refl x y h;
    kids_up =
        λ j c e m. ground (arith, v.kids_up j c, m, e, goes_up-kids g i c v stays full, ==→eq j i);
    left_up = λ j e. ground (arith, v.left_up j e);
    up_ready = λ j e. ground (arith, v.up_ready j, ready, ==→eq j i);
    parent_left = v.parent_left;
  }
