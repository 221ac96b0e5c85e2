-- ===== src/Wave/Cases.antt =====
-- A check while a reduction is outstanding keeps the invariant.
use circle.Prelude.{
  ℕ, ◌<◌, ◌≡◌, sym, ap, ◌∙◌, Bool, true, false, not, ◌&&◌, List, [], Option, none, some, arith,
  length, ◌==◌, ==→eq, if◌then◌else◌, Bool-cases, Option-cases, inl, inr, subst,
}
use circle.State.{ReduceState, Send}
use circle.Reduce.{Callbacks, Result, complete, take_replies}
use circle.Reduce.Rules.{take_replies-Adds}
use circle.Gather.Shape.{IsTree}
use circle.Wave.{Wave, is_out, replies_found, take_found, noted}
use circle.Wave.Held.{Inv}
use circle.Wave.Take.{take_found-Taken}
use circle.Wave.Ends.{waits-Inv, ends-Inv, root_ends-Inv}
use circle.Wave.Checks.{complete_waits, complete_ends, complete_root}

module _ (size : ℕ) (parent : ℕ → Option ℕ) (kids : ℕ → List ℕ) (tree : IsTree size parent kids)
    (cb : Callbacks) where
  -- The job after a check, from what the check returns.
  abbrev pub after :
      Wave → ℕ → ℕ → (ℕ → Bool) → Bool → Bool → ReduceState × List Send × Option Result → Wave
  after w i count found out asked x =
      let begins = not out && x.0.reduce_outstanding in
      noted cb parent kids (not out && asked) begins (out && not x.0.reduce_outstanding)
        (begins && (elim (parent i) [ none ↦ true | some _ ↦ false ]))
        (if out then take_found cb w i found (kids i) else w) i count x.0 x.1

  -- Nothing but the start of an outstanding reduction, its wait and its end.
  pub outstanding-Inv :
      (w : Wave) (i count : ℕ) (found : ℕ → Bool) (asked : Bool)
      → Inv size parent kids w
      → i < size
      → is_out w i ≡ true
      → let r = take_replies cb (w.reduces i) (replies_found w found (kids i)) in
        Inv size parent kids
          (after w i count found true asked (complete cb (parent i) (length (kids i)) count r))
  outstanding-Inv w i count found asked v lt out =
      let ms = replies_found w found (kids i) in
      let n = length (kids i) in
      let w1 = take_found cb w i found (kids i) in
      let t =
        take_found-Taken size parent kids tree cb w i found (kids i) v lt out (tree.once i)
          (λ c m. m) in
      let out1 : is_out w1 i ≡ true =
        ap (λ (q : ReduceState). q.reduce_outstanding) t.mine
        ∙ ((take_replies-Adds cb ms (w.reduces i)).outstanding ∙ out) in
      subst
        (λ q.
          Inv size parent kids
            (after w i count found true asked (complete cb (parent i) n count q)))
        t.mine
        (elim (Bool-cases ((w1.reduces i).reduce_replies == n)) [
          | inr e ↦
              subst (λ x. Inv size parent kids (after w i count found true asked x))
                (sym (complete_waits cb (parent i) n count (w1.reduces i) e))
                (rw out1 (
                  waits-Inv size parent kids tree cb w1 i count false t.inv
                    (λ f. absurd (ground (arith, f)))))
          | inl e ↦ elim (Option-cases (parent i)) [
            | inl root ↦
                let (over, none_sent, _) = complete_root cb n count (w1.reduces i) e in
                let is_root = tree.is_root i root in
                let r1 = (complete cb none n count (w1.reduces i)).0 in
                let root_done : Inv size parent kids
                    (noted cb parent kids false false true false w1 i count r1 []) =
                  subst
                    (λ (j : ℕ).
                      j < size
                      → is_out w1 j ≡ true
                      → (w1.reduces j).reduce_replies ≡ length (kids j)
                      → Inv size parent kids
                          (noted cb parent kids false false true false w1 j count r1 []))
                    (sym is_root)
                    (λ lt0 o all.
                      root_ends-Inv size parent kids tree cb w1 count r1 t.inv lt0 o all over)
                    lt out1 (==→eq (w1.reduces i).reduce_replies n e) in
                subst
                  (λ o.
                    Inv size parent kids
                      (after w i count found true asked (complete cb o n count (w1.reduces i))))
                  (sym root) (rw (over, none_sent) root_done)
            | inr (p, up) ↦
                let (m, over, none_sent, one, valid, objects, _) =
                  complete_ends cb p n count (w1.reduces i) e in
                subst
                  (λ o.
                    Inv size parent kids
                      (after w i count found true asked (complete cb o n count (w1.reduces i))))
                  (sym up)
                  (rw over (
                    ends-Inv size parent kids tree cb w1 i p count
                      (complete cb (some p) n count (w1.reduces i)).0
                      (complete cb (some p) n count (w1.reduces i)).1 m t.inv lt up out1
                      (==→eq (w1.reduces i).reduce_replies n e) over none_sent one valid objects))
          ]
        ])
