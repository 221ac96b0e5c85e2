-- ===== src/Gather/Flight.antt =====
-- Messages under way, counted over a list of sources.
use circle.Prelude.{
  ℕ, ◌+◌, ◌<◌, ◌≡◌, ◌≢◌, ◌⊎◌, inl, inr, refl, ◌∙◌, true, false, List, [], ◌∷◌, arith, elem, NoDup,
  total, total_same, total_change, elem_apart,
}
use circle.Gather.{sent, received, sent_down}

abbrev Flight : Type 0
Flight = ℕ → ℕ → ℕ

pub total-sent :
    (a b : ℕ) (f : Flight) (xs : List ℕ)
    → NoDup xs
    → elem a xs ≡ true
    → total (λ x. sent a b f x b) xs ≡ total (λ x. f x b) xs + 1
total-sent a b f xs once m =
    let change =
      total_change (λ x. sent a b f x b) (λ x. f x b) a xs once m (λ x ne. ground (arith, ne)) in
    ground (arith, change)

pub total-received :
    (a b : ℕ) (f : Flight) (xs : List ℕ)
    → NoDup xs
    → elem a xs ≡ true
    → 0 < f a b
    → total (λ x. received a b f x b) xs + 1 ≡ total (λ x. f x b) xs
total-received a b f xs once m pos =
    let change =
      total_change (λ x. received a b f x b) (λ x. f x b) a xs once m
        (λ x ne. ground (arith, ne)) in
    ground (arith, change, pos)

-- Messages to another rank do not count, nor do those of a rank that is not in the list.
pub total-sent_other :
    (a b i : ℕ) (f : Flight) (xs : List ℕ)
    → i ≢ b
    → total (λ x. sent a b f x i) xs ≡ total (λ x. f x i) xs
total-sent_other a b i f xs ne =
    total_same (λ x. sent a b f x i) (λ x. f x i) xs (λ x m. ground (arith, ne))

pub total-received_other :
    (a b i : ℕ) (f : Flight) (xs : List ℕ)
    → i ≢ b
    → total (λ x. received a b f x i) xs ≡ total (λ x. f x i) xs
total-received_other a b i f xs ne =
    total_same (λ x. received a b f x i) (λ x. f x i) xs (λ x m. ground (arith, ne))

sent_down_other :
    (i : ℕ) (kids : List ℕ) (f : Flight) (x y : ℕ) → x ≢ i → sent_down i kids f x y ≡ f x y
sent_down_other i [] f x y ne = refl
sent_down_other i (k ∷ kids) f x y ne =
    sent_down_other i kids (sent i k f) x y ne ∙ ground (arith, ne)

pub total-sent_down :
    (i j : ℕ) (kids : List ℕ) (f : Flight) (xs : List ℕ)
    → elem i xs ≡ false
    → total (λ x. sent_down i kids f x j) xs ≡ total (λ x. f x j) xs
total-sent_down i j kids f xs out =
    total_same (λ x. sent_down i kids f x j) (λ x. f x j) xs
      (λ x m. sent_down_other i kids f x j (elem_apart i x xs out m))

pub sent_down_elsewhere :
    (i j : ℕ) (kids : List ℕ) (f : Flight) (x : ℕ)
    → elem j kids ≡ false
    → sent_down i kids f x j ≡ f x j
sent_down_elsewhere i j [] f x out = refl
sent_down_elsewhere i j (k ∷ kids) f x out =
    sent_down_elsewhere i j kids (sent i k f) x (ground (arith, out)) ∙ ground (arith, out)

-- Where messages under way come from.
pub sent-source :
    (a b : ℕ) (f : Flight) (x y : ℕ) → 0 < sent a b f x y → (0 < f x y) ⊎ ((x ≡ a) × (y ≡ b))
sent-source a b f x y h = ground (arith, h)

pub received-source : (a b : ℕ) (f : Flight) (x y : ℕ) → 0 < received a b f x y → 0 < f x y
received-source a b f x y h = ground (arith, h)

pub sent_down-source :
    (i : ℕ) (kids : List ℕ) (f : Flight) (x y : ℕ)
    → 0 < sent_down i kids f x y
    → (0 < f x y) ⊎ ((x ≡ i) × (elem y kids ≡ true))
sent_down-source i [] f x y h = inl h
sent_down-source i (k ∷ kids) f x y h = elim (sent_down-source i kids (sent i k f) x y h) [
  | inl s ↦ ground (arith, sent-source i k f x y s)
  | inr m ↦ ground (arith, m)
]
