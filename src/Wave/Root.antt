-- ===== src/Wave/Root.antt =====
-- The root begins a periodic reduction: no rank has one under way.
use circle.Prelude.{
  ℕ, suc, ◌<◌, ◌≡◌, refl, sym, ap, ◌∙◌, Bool, true, false, List, [], Option, arith, length, elem,
  bit, ◌==◌, ==→eq, total_same, total_zero, Bool-cases, inl, inr, append-nil, length_zero,
}
use circle.State.{ReduceState, Send}
use circle.Reduce.{Callbacks}
use circle.Gather.Shape.{IsTree, down_tree}
use circle.Tree.Family.{ranks_from, elem-ranks_from}
use circle.Wave.{Wave, is_out, starts_to, results_in, noted}
use circle.Wave.Held.{held, Inv}

module _ (size : ℕ) (parent : ℕ → Option ℕ) (kids : ℕ → List ℕ) (tree : IsTree size parent kids)
    (cb : Callbacks) where
  -- Once the root has no reduction under way, nobody has.
  pub quiet :
      (w : Wave)
      → Inv size parent kids w
      → is_out w 0 ≡ false
      → (j : ℕ) → j < size
      → (is_out w j ≡ false) × (w.results j ≡ [])
  quiet w v free j lt =
      down_tree tree (λ i. (is_out w i ≡ false) × (w.results i ≡ [])) (free, v.root_sends)
        (λ c p ltc e h. (
          ground (arith, v.link c p ltc e, h.0),
          length_zero (w.results c) (ground (arith, v.link c p ltc e, h.0)),
        ))
        (suc j) j (omega arith) lt

  -- The root begins a reduction of all ranks.
  pub root_begins-Inv :
      (w : Wave) (count : ℕ) (asked : Bool) (r : ReduceState) (sent : List Send)
      → Inv size parent kids w
      → is_out w 0 ≡ false
      → r.reduce_outstanding ≡ true
      → r.reduce_replies ≡ 0
      → r.result_valid ≡ true
      → r.result_objects ≡ 0
      → ((j : ℕ) → starts_to j sent ≡ bit (elem j (kids 0)))
      → results_in sent ≡ []
      → Inv size parent kids (noted cb parent kids asked true false true w 0 count r sent)
  root_begins-Inv w count asked r sent v free now fresh good zero_objects sent_to none_sent =
      let w1 = noted cb parent kids asked true false true w 0 count r sent in
      let mail : (j : ℕ) → w1.results j ≡ w.results j =
        λ j. ground (arith, none_sent, ==→eq j 0, append-nil (w.results j)) in
      record {
        link = λ c q ltc e. ground (
          arith,
          v.link c q ltc e,
          quiet w v free q,
          quiet w v free c ltc,
          free,
          now,
          mail c,
          sent_to c,
          e,
          tree.kid_of 0 c ltc,
          tree.of_kid 0 c,
          tree.lower c q e,
          ==→eq c 0,
          ltc,
          ==→eq q 0,
        );
        count = λ q ltq o. elim (Bool-cases (q == 0)) [
          | inl same ↦
              let zero_taken =
                total_same (λ d. bit (w1.taken d)) (λ d. 0) (kids q)
                  (λ d m. ground (arith, m, ==→eq q 0 same)) in
              ground (arith, same, fresh, zero_taken, total_zero (kids q))
          | inr other ↦ absurd (ground (arith, other, o, quiet w v free q ltq))
        ];
        once = λ clean c q ltc e.
            let (_, none_c) = quiet w v free c ltc in
            ground (
              arith,
              now,
              mail c,
              ap length none_c,
              e,
              quiet w v free q,
              ltc,
              tree.kid_of 0 c ltc,
              tree.of_kid 0 c,
              tree.lower c q e,
              ==→eq q 0,
            );
        root_new = λ clean o. refl;
        root_sends = ground (arith, v.root_sends, mail 0);
        sum = λ clean o.
            total_zero (ranks_from 0 size)
            ∙ sym (
                total_same (held w1) (λ j. 0) (ranks_from 0 size)
                  (λ j m.
                    let (off, none_j) =
                      quiet w v free j (omega (arith, (elem-ranks_from j 0 size).0 m)) in
                    ground (arith, mail j, off, none_j, now, zero_objects, ==→eq j 0))
                ∙ total_zero (ranks_from 0 size));
        marked = λ bad o. absurd (ground (arith, bad));
      }
