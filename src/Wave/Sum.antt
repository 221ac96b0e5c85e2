-- ===== src/Wave/Sum.antt =====
-- What the root delivers is the sum over all ranks.
use circle.Prelude.{
  ℕ, ◌+◌, ◌<◌, ◌≡◌, sym, ap, ◌∙◌, Bool, true, false, not, List, Option, none, some, arith, length,
  ◌==◌, ==→eq, if◌then◌else◌, total, total_change, NoDup, Bool-cases, Option-cases, inl, inr, subst,
}
use circle.State.{ReduceState, Send}
use circle.Reduce.{Callbacks, Result, start, refuse, complete, is_asked, reduce_check}
use circle.Reduce.Rules.{take_replies-Adds}
use circle.Gather.Shape.{IsTree, NoDup-ranks_from, tree_parent, tree_kids, children-IsTree}
use circle.Tree.Family.{ranks_from, elem-ranks_from}
use circle.Wave.{Wave, is_out, replies_found, take_found, noted, checked, Reach}
use circle.Wave.Held.{Inv}
use circle.Wave.Take.{take_found-Taken}
use circle.Wave.Checks.{
  complete_waits, complete_ends, complete_root, start_lem, check_out, check_not_asked, check_asked,
  refuse_lem, refuse_root,
}
use circle.Wave.Invariant.{Reach-Inv}
use circle.Wave.Cases.{after}
use circle.Wave.Full.{unspoiled, all_gave, all_given}

-- The result is the sum of what the ranks of the job have contributed, each of them once.
abbrev pub AddsUp : ℕ → Wave → Result → Type 0
AddsUp size w x =
    ((j : ℕ) → j < size → w.gave j ≡ 1) × (x.total ≡ total w.given (ranks_from 0 size))

module _ (size : ℕ) (parent : ℕ → Option ℕ) (kids : ℕ → List ℕ) (tree : IsTree size parent kids)
    (cb : Callbacks) where
  root_AddsUp :
      (w : Wave) (i count : ℕ) (x : Result)
      → Inv size parent kids w
      → i < size
      → is_out w i ≡ true
      → (w.reduces i).reduce_replies ≡ length (kids i)
      → parent i ≡ none
      → ((w.reduces i).reduce_replies == length (kids i)) ≡ true
      → let (r, sent, result) = complete cb none (length (kids i)) count (w.reduces i) in
        result ≡ some x
        → AddsUp size
            (noted cb parent kids false false (not r.reduce_outstanding) false w i count r sent)
            x
  root_AddsUp w i count x v lt out all root e said =
      let (over, _, delivered) = complete_root cb (length (kids i)) count (w.reduces i) e in
      let (valid, sum) = delivered x said in
      let z = tree.is_root i root in
      let pos : 0 < size = omega (arith, lt) in
      let out0 = subst (λ (k : ℕ). is_out w k ≡ true) z out in
      let all0 = subst (λ (k : ℕ). (w.reduces k).reduce_replies ≡ length (kids k)) z all in
      let valid0 = subst (λ (k : ℕ). (w.reduces k).result_valid ≡ true) z valid in
      let clean = unspoiled size parent kids tree cb w v pos out0 all0 valid0 in
      let before : w.gave i ≡ 0 = ap w.gave z ∙ v.root_new clean out0 in
      let objects = ap (λ (k : ℕ). (w.reduces k).result_objects) z in
      let (r, sent, _) = complete cb none (length (kids i)) count (w.reduces i) in
      let w1 = noted cb parent kids false false (not r.reduce_outstanding) false w i count r sent in
      let in_job = (elem-ranks_from i 0 size).1 (omega arith, omega (arith, lt)) in
      let change =
        total_change w1.given w.given i (ranks_from 0 size) (NoDup-ranks_from 0 size) in_job
          (λ j ne. ground (arith, ne)) in
      let mine : w1.given i ≡ w.given i + count = ground (arith, over) in
      (
        λ j ltj. ground (
          arith,
          over,
          before,
          all_gave size parent kids tree cb w v pos out0 all0 valid0 j ltj,
          z,
          ==→eq j i,
          ==→eq j 0,
        ),
        omega (
          arith,
          sum,
          objects,
          all_given size parent kids tree cb w v pos out0 all0 valid0,
          change,
          mine,
        ),
      )

  -- Only an outstanding reduction delivers something, and only on the root.
  nothing_delivered :
      (w : Wave) (i count : ℕ) (cleanup : Bool) (now : ℕ) (found : ℕ → Bool)
      → is_out w i ≡ false
      → (checked cb parent kids w i count cleanup now found).1 ≡ none
  nothing_delivered w i count cleanup now found free =
      let pm = not (w.starts i == 0) in
      let r = w.reduces i in
      let ms = replies_found w found (kids i) in
      elim (Bool-cases (is_asked (parent i) cleanup now pm r)) [
        | inr no_one ↦
            ap (λ (x : ReduceState × List Send × Option Result). x.2)
              (check_not_asked cb (parent i) (kids i) r count cleanup ms now pm free no_one)
        | inl asked ↦
            ap (λ (x : ReduceState × List Send × Option Result). x.2)
              (check_asked cb (parent i) (kids i) r count cleanup ms now pm free asked)
            ∙ answered cleanup (parent i) r now (kids i) (tree.once i)
      ]
    where
      answered :
          (cleanup : Bool) (o : Option ℕ) (r : ReduceState) (now : ℕ) (ks : List ℕ)
          → NoDup ks
          → (if cleanup then refuse o r else start cb ks now r).2 ≡ none
      answered true none r now ks once =
          ap (λ (x : ReduceState × List Send × Option Result). x.2) (refuse_root cb r)
      answered true (some p) r now ks once = let (_, _, _, _, _, e) = refuse_lem cb p r in e
      answered false o r now ks once = let (_, _, _, _, _, _, e) = start_lem cb ks now r once in e

  delivers-Sum :
      (w : Wave) (i count : ℕ) (cleanup : Bool) (now : ℕ) (found : ℕ → Bool) (x : Result)
      → Inv size parent kids w
      → i < size
      → (checked cb parent kids w i count cleanup now found).1 ≡ some x
      → AddsUp size (checked cb parent kids w i count cleanup now found).0 x
  delivers-Sum w i count cleanup now found x v lt said = elim (Bool-cases (is_out w i)) [
    | inr free ↦ absurd (ground (arith, nothing_delivered w i count cleanup now found free, said))
    | inl out ↦
        let pm = not (w.starts i == 0) in
        let ms = replies_found w found (kids i) in
        let n = length (kids i) in
        let w2 = take_found cb w i found (kids i) in
        let t =
          take_found-Taken size parent kids tree cb w i found (kids i) v lt out (tree.once i)
            (λ c m. m) in
        let out2 : is_out w2 i ≡ true =
          ap (λ (q : ReduceState). q.reduce_outstanding) t.mine
          ∙ ((take_replies-Adds cb ms (w.reduces i)).outstanding ∙ out) in
        let same : reduce_check cb (parent i) (kids i) (w.reduces i) count cleanup ms now pm
            ≡ complete cb (parent i) n count (w2.reduces i) =
          check_out cb (parent i) (kids i) (w.reduces i) count cleanup ms now pm out
          ∙ ap (complete cb (parent i) n count) (sym t.mine) in
        let said2 : (complete cb (parent i) n count (w2.reduces i)).2 ≡ some x =
          ap (λ (y : ReduceState × List Send × Option Result). y.2) (sym same) ∙ said in
        elim (Bool-cases ((w2.reduces i).reduce_replies == n)) [
          | inr e ↦
              absurd (ground (arith, said2, complete_waits cb (parent i) n count (w2.reduces i) e))
          | inl e ↦ elim (Option-cases (parent i)) [
            | inr (p, up) ↦
                let (_, _, _, _, _, _, silent) = complete_ends cb p n count (w2.reduces i) e in
                absurd (ground (arith, said2, up, silent))
            | inl root ↦
                let asked = is_asked (parent i) cleanup now pm (w.reduces i) in
                let y0 =
                  reduce_check cb (parent i) (kids i) (w.reduces i) count cleanup ms now pm in
                let full = same ∙ ap (λ o. complete cb o n count (w2.reduces i)) root in
                subst
                  (λ b. AddsUp size (after size parent kids tree cb w i count found b asked y0) x)
                  (sym out)
                  (subst
                    (λ y.
                      AddsUp size (after size parent kids tree cb w i count found true asked y) x)
                    (sym full)
                    (root_AddsUp w2 i count x t.inv lt out2
                      (==→eq (w2.reduces i).reduce_replies n e) root e
                      (ap (λ o. (complete cb o n count (w2.reduces i)).2) (sym root) ∙ said2)))
          ]
        ]
  ]

-- In every state that the ranks of a job reach by checks of the periodic reduction, in any order, at
-- any times, in cleanup or not, and with any of the results found that are there: if a check delivers
-- a result, it does so after every rank of the job has contributed exactly once since the root has
-- started this reduction, and the result is the sum of the counts that the ranks had when they did.
-- The tree has a positive width.
pub delivers_sum :
    (size k : ℕ) (cb : Callbacks) (w : Wave) (i count : ℕ) (cleanup : Bool) (now : ℕ)
    (found : ℕ → Bool) (x : Result)
    → 0 < k
    → Reach cb (tree_parent size k) (tree_kids size k) size w
    → i < size
    → (checked cb (tree_parent size k) (tree_kids size k) w i count cleanup now found).1 ≡ some x
    → let w1 = (checked cb (tree_parent size k) (tree_kids size k) w i count cleanup now found).0 in
      ((j : ℕ) → j < size → w1.gave j ≡ 1) × (x.total ≡ total w1.given (ranks_from 0 size))
delivers_sum size k cb w i count cleanup now found x pos r lt said =
    let tree = children-IsTree size k pos in
    delivers-Sum size (tree_parent size k) (tree_kids size k) tree cb w i count cleanup now found x
      (Reach-Inv size (tree_parent size k) (tree_kids size k) tree cb r) lt said
