-- ===== src/Wave/Full.antt =====
-- When the root has all results, every rank has contributed, and the root holds the sum.
use circle.Prelude.{
  ℕ, suc, ◌<◌, ◌≡◌, ◌≢◌, ◌⊎◌, refl, ap, true, false, List, [], Option, arith, length, update, ◌==◌,
  ==→eq, ==→ne, total, total_change, length_zero, total_same, total_zero, Bool-cases, inl, inr,
}
use circle.Reduce.{Callbacks}
use circle.Gather.Shape.{IsTree, NoDup-ranks_from, down_tree}
use circle.Tree.Family.{ranks_from, elem-ranks_from}
use circle.Wave.{Wave, is_out}
use circle.Wave.Held.{held, marks, Inv}
use circle.Wave.Ends.{kids_taken}

module _ (size : ℕ) (parent : ℕ → Option ℕ) (kids : ℕ → List ℕ) (tree : IsTree size parent kids)
    (cb : Callbacks) where
  -- When the root has all replies, every other rank has ended its part.
  others_done :
      (w : Wave)
      → Inv size parent kids w
      → 0 < size
      → is_out w 0 ≡ true
      → (w.reduces 0).reduce_replies ≡ length (kids 0)
      → (j : ℕ) → j < size
      → j ≢ 0
      → (is_out w j ≡ false) × (w.results j ≡ [])
  others_done w v pos out all j lt =
      down_tree tree (λ i. i ≢ 0 → (is_out w i ≡ false) × (w.results i ≡ []))
        (λ ne. absurd (ne refl))
        (λ c p ltc e h ne.
          let taken = kids_taken size parent kids tree cb w 0 v pos out all c ltc in
          let off : (p ≡ 0) ⊎ (is_out w p ≡ false) = elim (Bool-cases (p == 0)) [
            | inl z ↦ inl (==→eq p 0 z)
            | inr n ↦ inr (h (==→ne p 0 n)).0
          ] in
          let link = v.link c p ltc e in
          (
            ground (arith, link, off, taken, out, e),
            length_zero (w.results c) (ground (arith, link, off, taken, out, e)),
          ))
        (suc j) j (omega arith) lt

  module _ (w : Wave) (v : Inv size parent kids w) (pos : 0 < size) (out : is_out w 0 ≡ true)
      (all : (w.reduces 0).reduce_replies ≡ length (kids 0))
      (valid : (w.reduces 0).result_valid ≡ true) where
    pub unspoiled : w.spoiled ≡ false
    unspoiled = elim (Bool-cases w.spoiled) [
      | inr e ↦ e
      | inl e ↦
          let nothing =
            total_same (marks w) (λ j. 0) (ranks_from 0 size)
              (λ j m. ground (
                arith,
                out,
                valid,
                v.root_sends,
                ==→eq j 0,
                others_done w v pos out all j (omega (arith, (elem-ranks_from j 0 size).0 m)),
              )) in
          absurd (omega (arith, v.marked e out, nothing, total_zero (ranks_from 0 size)))
    ]

    pub all_gave : (j : ℕ) → j < size → j ≢ 0 → w.gave j ≡ 1
    all_gave j lt =
        down_tree tree (λ i. i ≢ 0 → w.gave i ≡ 1) (λ ne. absurd (ne refl))
          (λ c p ltc e h ne. elim (Bool-cases (p == 0)) [
            | inl z ↦ ground (
              arith,
              v.once unspoiled c p ltc e,
              ==→eq p 0 z,
              out,
              kids_taken size parent kids tree cb w 0 v pos out all c ltc,
              e,
              ap length (others_done w v pos out all c ltc ne).1,
            )
            | inr n ↦ ground (
              arith,
              v.once unspoiled c p ltc e,
              h (==→ne p 0 n),
              others_done w v pos out all p (omega (arith, tree.lower c p e, ltc)) (==→ne p 0 n),
            )
          ])
          (suc j) j (omega arith) lt

    pub all_given : total w.given (ranks_from 0 size) ≡ (w.reduces 0).result_objects
    all_given =
        let others : (j : ℕ) → j < size → j ≢ 0 → held w j ≡ 0 =
          λ j lt ne. ground (arith, others_done w v pos out all j lt ne) in
        let mine : held w 0 ≡ (w.reduces 0).result_objects = ground (arith, out, v.root_sends) in
        let f : ℕ → ℕ = update (λ j. 0) 0 (held w 0) in
        let same = total_same (held w) f (ranks_from 0 size) (λ j m.
          ground (arith, others j (omega (arith, (elem-ranks_from j 0 size).0 m)), ==→eq j 0)) in
        let change =
          total_change f (λ j. 0) 0 (ranks_from 0 size) (NoDup-ranks_from 0 size)
            ((elem-ranks_from 0 0 size).1 (omega arith, omega (arith, pos)))
            (λ j ne. ground (arith, ne)) in
        let at_root : f 0 ≡ held w 0 = ground arith in
        omega
          (arith, v.sum unspoiled out, same, change, at_root, mine, total_zero (ranks_from 0 size))
