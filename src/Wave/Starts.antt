-- ===== src/Wave/Starts.antt =====
-- A rank begins its part of the periodic reduction, or refuses it.
use circle.Prelude.{
  ℕ, ◌+◌, ◌<◌, ◌≡◌, ◌∙◌, true, false, List, [], ◌∷◌, ◌++◌, Option, some, arith, length, elem, bit,
  ◌==◌, ==→eq, total_same, member-le-total, total_zero, Bool-cases, inl, inr, subst, append-nil,
  length_zero, length-append,
}
use circle.State.{ReduceState, Send}
use circle.Reduce.{Callbacks, Reply}
use circle.Gather.Shape.{IsTree}
use circle.Tree.Family.{ranks_from, elem-ranks_from}
use circle.Wave.{Wave, is_out, starts_to, results_in, invalids, noted}
use circle.Wave.Held.{held, marks, Inv}

module _ (size : ℕ) (parent : ℕ → Option ℕ) (kids : ℕ → List ℕ) (tree : IsTree size parent kids)
    (cb : Callbacks) where
  -- In cleanup the parent gets a result that is not valid.
  pub refuses-Inv :
      (w : Wave) (i p count : ℕ) (r : ReduceState) (sent : List Send) (m : Reply)
      → Inv size parent kids w
      → i < size
      → parent i ≡ some p
      → is_out w i ≡ false
      → 0 < w.starts i
      → r.reduce_outstanding ≡ false
      → ((j : ℕ) → starts_to j sent ≡ 0)
      → results_in sent ≡ m ∷ []
      → m.valid ≡ false
      → Inv size parent kids (noted cb parent kids true false false false w i count r sent)
  refuses-Inv w i p count r sent m v lt up free asked over none_sent one valid =
      let w1 = noted cb parent kids true false false false w i count r sent in
      let low = tree.lower i p up in
      let mine = v.link i p lt up in
      let mail : length (w1.results i) ≡ length (w.results i) + 1 =
        ground (arith, one, length-append (w.results i) (m ∷ [])) in
      let bad : w1.spoiled ≡ true = ground (arith, one, valid) in
      let in_job = (elem-ranks_from i 0 size).1 (omega arith, omega (arith, lt)) in
      record {
        link = λ c q ltc e. ground (
          arith,
          v.link c q ltc e,
          mine,
          free,
          asked,
          over,
          mail,
          none_sent c,
          up,
          e,
          ==→eq c i,
          ==→eq q i,
        );
        count = λ q ltq o. ground (arith, v.count q ltq, over, o, ==→eq q i);
        once = λ clean. absurd (ground (arith, clean, bad));
        root_new = λ clean. absurd (ground (arith, clean, bad));
        root_sends = ground (arith, v.root_sends, low, ==→eq 0 i);
        sum = λ clean. absurd (ground (arith, clean, bad));
        marked = λ b o.
            let empty : length (w.results i) ≡ 0 = ground (arith, mine, free, asked) in
            ground (
              arith,
              one,
              valid,
              over,
              empty,
              invalids-snoc (w.results i) m,
              member-le-total (marks w1) i (ranks_from 0 size) in_job,
            );
      }
    where
      invalids-snoc :
          (ms : List Reply) (n : Reply) → n.valid ≡ false → 0 < invalids (ms ++ (n ∷ []))
      invalids-snoc [] n h = ground (arith, h)
      invalids-snoc (x ∷ ms) n h = omega (arith, invalids-snoc ms n h)

  -- A rank below the root takes the message of its parent, and asks its children.
  pub begins-Inv :
      (w : Wave) (i p count : ℕ) (r : ReduceState) (sent : List Send)
      → Inv size parent kids w
      → i < size
      → parent i ≡ some p
      → is_out w i ≡ false
      → 0 < w.starts i
      → r.reduce_outstanding ≡ true
      → r.reduce_replies ≡ 0
      → r.result_valid ≡ true
      → r.result_objects ≡ 0
      → ((j : ℕ) → starts_to j sent ≡ bit (elem j (kids i)))
      → results_in sent ≡ []
      → Inv size parent kids (noted cb parent kids true true false false w i count r sent)
  begins-Inv w i p count r sent v lt up free asked now fresh good zero_objects sent_to none_sent =
      let w1 = noted cb parent kids true true false false w i count r sent in
      let low = tree.lower i p up in
      let mine = v.link i p lt up in
      let mail : (j : ℕ) → w1.results j ≡ w.results j =
        λ j. ground (arith, none_sent, ==→eq j i, append-nil (w.results j)) in
      let empty : w.results i ≡ [] =
        length_zero (w.results i) (ground (arith, mine, free, asked)) in
      record {
        link = λ c q ltc e. ground (
          arith,
          v.link c q ltc e,
          mine,
          free,
          asked,
          now,
          mail c,
          sent_to c,
          up,
          e,
          tree.kid_of i c ltc,
          tree.of_kid i c,
          tree.lower c q e,
          ==→eq c i,
          ==→eq q i,
        );
        count = λ q ltq o. elim (Bool-cases (q == i)) [
          | inl same ↦
              let zero_taken =
                total_same (λ d. bit (w1.taken d)) (λ d. 0) (kids q)
                  (λ d m. ground (arith, m, ==→eq q i same)) in
              ground (arith, same, fresh, zero_taken, total_zero (kids q))
          | inr other ↦
              let kept =
                total_same (λ d. bit (w1.taken d)) (λ d. bit (w.taken d)) (kids q)
                  (λ d m. ground (arith, other, tree.of_kid q d m, tree.of_kid i d)) in
              ground (arith, other, v.count q ltq, o, kept)
        ];
        once = λ clean c q ltc e. ground (
          arith,
          v.once (ground (arith, clean, none_sent)) c q ltc e,
          v.once (ground (arith, clean, none_sent)) i p lt up,
          v.link c q ltc e,
          mine,
          free,
          asked,
          now,
          mail c,
          up,
          e,
          tree.kid_of i c ltc,
          tree.of_kid i c,
          tree.lower c q e,
          ==→eq c i,
          ==→eq q i,
        );
        root_new = λ clean o. ground (arith, v.root_new, clean, none_sent, o, low, ==→eq 0 i);
        root_sends = ground (arith, v.root_sends, mail 0);
        sum = λ clean o.
            v.sum (ground (arith, clean, none_sent)) (ground (arith, o, low, ==→eq 0 i))
            ∙ total_same (held w) (held w1) (ranks_from 0 size)
                (λ j m. ground (arith, mail j, free, now, zero_objects, ==→eq j i));
        marked = λ bad o.
            subst (λ n. 0 < n)
              (total_same (marks w) (marks w1) (ranks_from 0 size)
                (λ j m. ground (arith, mail j, free, now, good, ==→eq j i)))
              (v.marked (ground (arith, bad, none_sent)) (ground (arith, o, low, ==→eq 0 i)));
      }
