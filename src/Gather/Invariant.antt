-- ===== src/Gather/Invariant.antt =====
-- What every reachable state of the protocol satisfies.
use circle.Prelude.{
  ℕ, ◌+◌, ◌<◌, ◌≡◌, ◌≢◌, ◌⊎◌, inl, inr, sym, ◌∙◌, true, false, List, Option, some, arith, length,
  elem, update, bit, total, Bool-cases, ==→eq,
}
use circle.Gather.{Gather, start, received}
use circle.Gather.Shape.{IsTree}
use circle.Gather.Flight.{total-received, total-received_other, received-source}

module _ {size : ℕ} {parent : ℕ → Option ℕ} {kids : ℕ → List ℕ}
    (tree : IsTree size parent kids) where
  pub record Inv (g : Gather) : Type 0 where
    -- The replies and the messages under way are one for each child that has gone up.
    pub counts :
        (i : ℕ)
        → g.left i ≡ false
        → g.replies i + total (λ c. g.flight c i) (kids i) ≡ total (λ c. bit (g.up c)) (kids i)
    pub all_in : (i : ℕ) → g.up i ≡ true → g.left i ≡ false → g.replies i ≡ length (kids i)
    pub sources :
        (c i : ℕ)
        → 0 < g.flight c i
        → ((elem c (kids i) ≡ true) × (g.up c ≡ true)) ⊎ ((parent i ≡ some c) × (g.left c ≡ true))
    pub kids_up : (i c : ℕ) → g.up i ≡ true → elem c (kids i) ≡ true → g.up c ≡ true
    pub left_up : (i : ℕ) → g.left i ≡ true → g.up i ≡ true
    pub up_ready : (i : ℕ) → g.up i ≡ true → g.ready i ≡ true
    pub parent_left : (i p : ℕ) → g.left i ≡ true → parent i ≡ some p → g.left p ≡ true

  pub start-Inv : Inv start
  start-Inv = record {
    counts = λ i e. omega arith;
    all_in = λ i e. cc;
    sources = λ c i h. absurd (omega arith);
    kids_up = λ i c e. cc;
    left_up = λ i e. cc;
    up_ready = λ i e. cc;
    parent_left = λ i p e. cc;
  }

  pub readies-Inv : (g : Gather) (i : ℕ) → Inv g → Inv (record g { ready = update g.ready i true })
  readies-Inv g i v = record {
    counts = v.counts;
    all_in = v.all_in;
    sources = v.sources;
    kids_up = v.kids_up;
    left_up = v.left_up;
    up_ready = λ j e. ground (arith, v.up_ready j e);
    parent_left = v.parent_left;
  }

  -- A message that a rank still waits for is one of its children's: its parent has not left.
  pub from_kid :
      (g : Gather) (i c : ℕ)
      → Inv g
      → i < size
      → g.left i ≡ false
      → g.replies i < length (kids i)
      → 0 < g.flight c i
      → (elem c (kids i) ≡ true) × (g.up c ≡ true)
  from_kid g i c v lt stays waits pos = elim (v.sources c i pos) [
    | inl k ↦ k
    | inr p ↦
        absurd (
          omega
            (arith, v.all_in i (v.kids_up c i (v.left_up c p.1) (tree.kid_of c i lt p.0)) stays))
  ]

  pub takes-Inv :
      (g : Gather) (i c : ℕ)
      → Inv g
      → i < size
      → g.left i ≡ false
      → g.replies i < length (kids i)
      → 0 < g.flight c i
      → Inv (record g {
        replies = update g.replies i (g.replies i + 1);
        flight = received c i g.flight;
      })
  takes-Inv g i c v lt stays waits pos =
      let kid = from_kid g i c v lt stays waits pos in
      let less = total-received c i g.flight (kids i) (tree.once i) kid.0 pos in
      record {
        counts = λ j e.
            ground
              (arith, v.counts j, less, total-received_other c i j g.flight (kids j), ==→eq j i);
        all_in = λ j e stay. ground (arith, v.all_in j e stay, ==→eq j i, waits);
        sources = λ x y h. v.sources x y (received-source c i g.flight x y h);
        kids_up = v.kids_up;
        left_up = v.left_up;
        up_ready = v.up_ready;
        parent_left = v.parent_left;
      }

  pub not_kid : (i j : ℕ) (o : Option ℕ) → parent i ≡ o → o ≢ some j → elem i (kids j) ≡ false
  not_kid i j o e ne = elim (Bool-cases (elem i (kids j))) [
    | inl m ↦ absurd (ne (sym e ∙ tree.of_kid j i m))
    | inr f ↦ f
  ]
