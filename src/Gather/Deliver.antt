-- ===== src/Gather/Deliver.antt =====
-- Nothing is lost on the way down: a rank whose parent has left has the message to leave.
use circle.Prelude.{
  ℕ, ◌≤◌, ◌<◌, ◌≡◌, ◌≢◌, inl, inr, refl, ap, ◌∙◌, true, false, List, [], ◌∷◌, Option, none, some,
  arith, elem, update, Bool-cases, ◌==◌, ==→eq,
}
use circle.Gather.{
  Gather, sent, received, sent_up, sent_down, Step, Reach, readies, takes, goes_up, leaves_root,
  leaves, here, next,
}
use circle.Gather.Shape.{IsTree}
use circle.Gather.Invariant.{Inv, from_kid}
use circle.Gather.Steps.{Reach-Inv}

sent-le : (a b : ℕ) (f : ℕ → ℕ → ℕ) (x y : ℕ) → f x y ≤ sent a b f x y
sent-le a b f x y = ground arith

sent_up-le : (i : ℕ) (o : Option ℕ) (f : ℕ → ℕ → ℕ) (x y : ℕ) → f x y ≤ sent_up i o f x y
sent_up-le i none f x y = omega arith
sent_up-le i (some p) f x y = sent-le i p f x y

sent_down-le : (i : ℕ) (kids : List ℕ) (f : ℕ → ℕ → ℕ) (x y : ℕ) → f x y ≤ sent_down i kids f x y
sent_down-le i [] f x y = omega arith
sent_down-le i (k ∷ kids) f x y =
    omega (arith, sent-le i k f x y, sent_down-le i kids (sent i k f) x y)

sent_down-kid :
    (i : ℕ) (kids : List ℕ) (f : ℕ → ℕ → ℕ) (y : ℕ)
    → elem y kids ≡ true
    → 0 < sent_down i kids f i y
sent_down-kid i [] f y m = cc
sent_down-kid i (k ∷ kids) f y m = elim (Bool-cases (k == y)) [
  | inl e ↦
      let one : 0 < sent i k f i y = ground (arith, ==→eq k y e) in
      omega (arith, one, sent_down-le i kids (sent i k f) i y)
  | inr e ↦ sent_down-kid i kids (sent i k f) y (ground (arith, e, m))
]

module _ {size : ℕ} {parent : ℕ → Option ℕ} {kids : ℕ → List ℕ}
    (tree : IsTree size parent kids) where
  pub record Delivered (g : Gather) : Type 0 where
    pub told :
        (i p : ℕ)
        → i < size
        → parent i ≡ some p
        → g.left p ≡ true
        → g.left i ≡ false
        → 0 < g.flight p i

  leaves-Delivered :
      (g : Gather) (i : ℕ) (f : ℕ → ℕ → ℕ)
      → ((x y : ℕ) → y ≢ i → f x y ≡ g.flight x y)
      → Delivered g
      → Delivered (record g { left = update g.left i true; flight = sent_down i (kids i) f })
  leaves-Delivered g i f same d = record {
    told = λ j p lt e above below.
        let apart : j ≢ i = λ e2. ground (arith, e2, below) in
        elim (Bool-cases (p == i)) [
          | inl h ↦ ground (
            arith,
            ==→eq p i h,
            sent_down-kid i (kids i) f j (tree.kid_of i j lt (e ∙ ap some (==→eq p i h))),
          )
          | inr h ↦ ground (
            arith,
            h,
            above,
            below,
            d.told j p lt e,
            same p j apart,
            sent_down-le i (kids i) f p j,
          )
        ];
  }

  Step-Delivered :
      {g h : Gather} → Step size parent kids g h → Inv tree g → Delivered g → Delivered h
  Step-Delivered {g} (readies i) v d = record { told = d.told }
  Step-Delivered {g} (takes i c lt stays waits pos) v d = record {
    told = λ j p lt2 e above below.
        let kid = from_kid tree g i c v lt stays waits pos in
        ground (
          arith,
          d.told j p lt2 e above below,
          tree.lower j p e,
          tree.lower c i (tree.of_kid i c kid.0),
          ==→eq p c,
          ==→eq j i,
        );
  }
  Step-Delivered {g} (goes_up i lt stays down ready full) v d = record {
    told = λ j p lt2 e above below.
        omega (arith, d.told j p lt2 e above below, sent_up-le i (parent i) g.flight p j);
  }
  Step-Delivered {g} (leaves_root i lt stays up e) v d =
      leaves-Delivered g i g.flight (λ x y ne. refl) d
  Step-Delivered {g} (leaves i p lt stays up e pos) v d =
      leaves-Delivered g i (received p i g.flight) (λ x y ne. ground (arith, ne)) d

  pub Reach-Delivered : {g : Gather} → Reach size parent kids g → Delivered g
  Reach-Delivered here = record { told = λ i p lt e above below. cc }
  Reach-Delivered (next r st) = Step-Delivered st (Reach-Inv tree r) (Reach-Delivered r)
