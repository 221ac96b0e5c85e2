-- ===== src/Receive/Split.antt =====
-- The last strings of a pool, moved to the start of another.
use native.Mathlib.Nat.{add-zero}
use circle.Prelude.{ℕ, zero, suc, ◌+◌, ◌-◌, ◌≤◌, ◌<◌, ◌≡◌, refl, ap, sym, ◌∙◌, ◌++◌, arith}
use circle.Buffer.{slice}
use circle.Queue.Layout.{Layout, Layout-lt, items}

slice_shift :
    (b c : ℕ → ℕ) (o a n : ℕ)
    → ((j : ℕ) → j < a + n → c j ≡ b (o + j))
    → slice b (o + a) n ≡ slice c a n
unfolding slice
slice_shift b c o a zero h = refl
slice_shift b c o a (suc n) h =
    let next : o + a + 1 ≡ o + (a + 1) = omega arith in
    rw (next, slice_shift b c o (a + 1) n (λ j lt. h j (omega arith)), h a (omega arith))

-- Of the strings of a pool `b`, those from index `m` on lie in the pool `c` from its start, and
-- begin there as much earlier as the string `m` did not begin at 0. Then the pool's strings are
-- those of `c` on top of the first `m`.
module _ (b c s t : ℕ → ℕ) (m : ℕ) where
  abbrev offset : ℕ
  offset = s m

  offset-le : (k n : ℕ) → n ≡ m + k → Layout s n (s n) → offset ≤ s n
  offset-le zero n sum l = omega (arith, ap s sum, ap s (add-zero m))
  offset-le (suc k) n sum l = omega (arith, Layout-lt s n (s n) m l (omega arith))

  pub items_split :
      (k n e : ℕ)
      → n ≡ m + k
      → (k ≡ 0 → e ≡ offset)
      → Layout s n e
      → ((j : ℕ) → j < e - offset → c j ≡ b (offset + j))
      → ((i : ℕ) → i < k → t i ≡ s (m + i) - offset)
      → items b s n e ≡ items c t k (e - offset) ++ items b s m offset
  items_split zero n e sum base l same_b same_s = rw (sum, base refl, add-zero)
  items_split (suc k) zero e sum base l same_b same_s = absurd (omega arith)
  items_split (suc k) (suc n) e sum base l same_b same_s =
      let nk : n ≡ m + k = omega arith in
      let tk : t k ≡ s n - offset = same_s k (omega arith) ∙ ap (λ i. s i - offset) (sym nk) in
      let low = offset-le k n nk l.1 in
      let start : offset + (s n - offset) ≡ s n = omega arith in
      let len : e - offset - (s n - offset) ≡ e - s n = omega (arith, l.0) in
      let top =
        slice_shift b c offset (s n - offset) (e - s n) (λ j lt. same_b j (omega (arith, l.0))) in
      let ih =
        items_split k n (s n) nk (λ z. ap s (nk ∙ ap (λ i. m + i) z ∙ add-zero m)) l.1
          (λ j lt. same_b j (omega (arith, l.0))) (λ i lt. same_s i (omega arith)) in
      rw (tk, len, ← top, start, ← ih)

  -- The moved strings are laid out as a pool's strings are.
  pub Layout-split :
      (k n e : ℕ)
      → n ≡ m + k
      → (k ≡ 0 → e ≡ offset)
      → Layout s n e
      → ((i : ℕ) → i < k → t i ≡ s (m + i) - offset)
      → Layout t k (e - offset)
  Layout-split zero n e sum base l same_s = omega (arith, base refl)
  Layout-split (suc k) zero e sum base l same_s = absurd (omega arith)
  Layout-split (suc k) (suc n) e sum base l same_s =
      let nk : n ≡ m + k = omega arith in
      let tk : t k ≡ s n - offset = same_s k (omega arith) ∙ ap (λ i. s i - offset) (sym nk) in
      let low = offset-le k n nk l.1 in
      let ih =
        Layout-split k n (s n) nk (λ z. ap s (nk ∙ ap (λ i. m + i) z ∙ add-zero m)) l.1
          (λ i lt. same_s i (omega arith)) in
      (omega (arith, tk, l.0), rw tk ih)

  -- What stays is laid out as before.
  pub Layout-rest : (k n e : ℕ) → n ≡ m + suc k → Layout s n e → Layout s m offset
  Layout-rest k zero e sum l = absurd (omega arith)
  Layout-rest zero (suc n) e sum l = let nk : n ≡ m = omega arith in rw nk at l.1
  Layout-rest (suc k) (suc n) e sum l = Layout-rest k n (s n) (omega arith) l.1
