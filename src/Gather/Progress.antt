-- ===== src/Gather/Progress.antt =====
-- The protocol does not get stuck: until all have left, a rank can receive, go up or leave.
use circle.Prelude.{
  ℕ, ◌<◌, ◌≡◌, ◌⊎◌, inl, inr, refl, sym, ◌∙◌, Bool, true, false, List, [], ◌∷◌, Option, none, some,
  arith, length, elem, total, bit, total_positive, all_or_first, all_or_last, Bool-cases, ltb,
}
use circle.Gather.{Gather}
use circle.Gather.Shape.{IsTree}
use circle.Gather.Invariant.{Inv}
use circle.Gather.Steps.{Reach-Inv}
use circle.Gather.Deliver.{Delivered, Reach-Delivered}
use circle.Gather.Moves.{Told, Reaches}

pub data Enabled (parent : Option ℕ) (nkids i : ℕ) (g : Gather) : Type 0 where
  can_take : (c : ℕ) → g.replies i < nkids → 0 < g.flight c i → Enabled parent nkids i g
  can_go : g.up i ≡ false → g.replies i ≡ nkids → Enabled parent nkids i g
  can_leave : g.up i ≡ true → Told i parent g.flight → Enabled parent nkids i g

total_all :
    (f : ℕ → Bool) (xs : List ℕ)
    → ((x : ℕ) → elem x xs ≡ true → f x ≡ true)
    → total (λ x. bit (f x)) xs ≡ length xs
total_all f [] h = refl
total_all f (x ∷ xs) h = ground (arith, h x, total_all f xs (λ y m. h y (ground (arith, m))))

module _ {size : ℕ} {parent : ℕ → Option ℕ} {kids : ℕ → List ℕ}
    (tree : IsTree size parent kids) where
  -- The last rank that has not gone up has all its children below it.
  last_down :
      (g : Gather) (i : ℕ)
      → Inv tree g
      → g.up i ≡ false
      → ((j : ℕ) → i < j → j < size → g.up j ≡ true)
      → (g.left i ≡ false) × Enabled (parent i) (length (kids i)) i g
  last_down g i v down above =
      let stays : g.left i ≡ false = ground (arith, v.left_up i, down) in
      let all : total (λ c. bit (g.up c)) (kids i) ≡ length (kids i) =
        total_all g.up (kids i)
          (λ c m. above c (tree.lower c i (tree.of_kid i c m)) (tree.kid_in i c m)) in
      (
        stays,
        elim (Bool-cases (ltb (g.replies i) (length (kids i)))) [
          | inl missing ↦
              let fewer : g.replies i < length (kids i) = ground (arith, missing) in
              let (c, m, pos) =
                total_positive (λ c. g.flight c i) (kids i)
                  (omega (arith, v.counts i stays, all, fewer)) in
              can_take c fewer pos
          | inr full ↦ can_go down (ground (arith, full, v.counts i stays, all))
        ],
      )

  -- With all of them up, the first rank that has not left can leave.
  first_staying :
      (g : Gather) (i : ℕ)
      → Delivered tree g
      → i < size
      → g.up i ≡ true
      → g.left i ≡ false
      → ((j : ℕ) → j < i → g.left j ≡ true)
      → Enabled (parent i) (length (kids i)) i g
  first_staying g i d lt up stays below = can_leave up (told (parent i) refl)
    where
      told : (o : Option ℕ) → parent i ≡ o → Told i o g.flight
      told none e = tt
      told (some p) e = d.told i p lt e (below p (tree.lower i p e)) stays

  pub progress :
      (g : Gather)
      → Inv tree g
      → Delivered tree g
      → ((j : ℕ) → j < size → g.left j ≡ true)
        ⊎ ((i : ℕ) × (i < size) × (g.left i ≡ false) × Enabled (parent i) (length (kids i)) i g)
  progress g v d = elim (all_or_last g.up size) [
    | inr (i, lt, down, above) ↦
        let (stays, can) = last_down g i v down above in inr (i, lt, stays, can)
    | inl all_up ↦ elim (all_or_first g.left size) [
      | inl all ↦ inl all
      | inr (i, lt, stays, below) ↦
          inr (i, lt, stays, first_staying g i d lt (all_up i lt) stays below)
    ]
  ]

-- The same for what the handlers reach.
pub Reaches-progress :
    {size : ℕ} {parent : ℕ → Option ℕ} {kids : ℕ → List ℕ}
    → IsTree size parent kids
    → (h : Gather) → Reaches size parent kids h
    → ((j : ℕ) → j < size → h.left j ≡ true)
      ⊎ ((i : ℕ) × (i < size) × (h.left i ≡ false) × Enabled (parent i) (length (kids i)) i h)
unfolding Reaches
Reaches-progress {size} {parent} {kids} tree h (g, r, s) =
    elim (progress tree g (Reach-Inv tree r) (Reach-Delivered tree r)) [
      | inl all ↦ inl (λ j lt. sym (s.left j) ∙ all j lt)
      | inr (i, lt, stays, can) ↦
          let staysh = sym (s.left i) ∙ stays in inr (i, lt, staysh, same i (parent i) staysh can)
    ]
  where
    same :
        (i : ℕ) (o : Option ℕ)
        → h.left i ≡ false
        → Enabled o (length (kids i)) i g
        → Enabled o (length (kids i)) i h
    same i o stays (can_take c fewer pos) =
        can_take c (omega (arith, s.replies i stays, fewer)) (omega (arith, s.flight c i, pos))
    same i o stays (can_go down full) =
        can_go (sym (s.up i stays) ∙ down) (sym (s.replies i stays) ∙ full)
    same i none stays (can_leave up told) = can_leave (sym (s.up i stays) ∙ up) tt
    same i (some p) stays (can_leave up told) =
        can_leave (sym (s.up i stays) ∙ up) (omega (arith, s.flight p i, told))
