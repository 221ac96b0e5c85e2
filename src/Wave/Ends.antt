-- ===== src/Wave/Ends.antt =====
-- A rank waits on, or ends its part of the periodic reduction.
use circle.Prelude.{
  ℕ, ◌+◌, ◌<◌, ◌≡◌, ap, ◌∙◌, Bool, true, false, List, [], ◌∷◌, Option, none, some, arith, length,
  bit, ==→eq, if◌then◌else◌, total_change, total_same, member-le-total, total-bit_all, subst,
  append-nil, length_zero,
}
use circle.State.{ReduceState, Send}
use circle.Reduce.{Callbacks, Reply}
use circle.Gather.Shape.{IsTree, NoDup-ranks_from}
use circle.Tree.Family.{ranks_from, elem-ranks_from}
use circle.Wave.{Wave, is_out, starts_to, results_in, noted}
use circle.Wave.Held.{held, marks, Inv}

module _ (size : ℕ) (parent : ℕ → Option ℕ) (kids : ℕ → List ℕ) (tree : IsTree size parent kids)
    (cb : Callbacks) where
  -- Nothing is sent, and the state stays.
  pub waits-Inv :
      (w : Wave) (i count : ℕ) (asked : Bool)
      → Inv size parent kids w
      → (asked ≡ true → parent i ≡ none)
      → Inv size parent kids
          (noted cb parent kids asked false false false w i count (w.reduces i) [])
  waits-Inv w i count asked v root =
      let w1 = noted cb parent kids asked false false false w i count (w.reduces i) [] in
      let same : (j : ℕ) → w1.reduces j ≡ w.reduces j = λ j. ground (arith, ==→eq j i) in
      let mail : (j : ℕ) → w1.results j ≡ w.results j =
        λ j. ground (arith, ==→eq j i, append-nil (w.results j)) in
      record {
        link =
            λ c p lt e. ground (arith, v.link c p lt e, same c, same p, mail c, root, e, ==→eq c i);
        count = λ p lt o. ground (arith, v.count p lt, same p, o);
        once = λ clean c p lt e.
            ground (arith, v.once (ground (arith, clean)) c p lt e, same p, mail c);
        root_new = λ clean o. ground (arith, v.root_new, clean, o, same 0);
        root_sends = ground (arith, v.root_sends, mail 0);
        sum = λ clean o.
            v.sum (ground (arith, clean)) (ground (arith, o, same 0))
            ∙ total_same (held w) (held w1) (ranks_from 0 size)
                (λ j m. ground (arith, same j, mail j));
        marked = λ bad o.
            subst (λ n. 0 < n)
              (total_same (marks w) (marks w1) (ranks_from 0 size)
                (λ j m. ground (arith, same j, mail j)))
              (v.marked (ground (arith, bad)) (ground (arith, o, same 0)));
      }

  -- All children of a rank with all replies have been taken.
  pub kids_taken :
      (w : Wave) (i : ℕ)
      → Inv size parent kids w
      → i < size
      → is_out w i ≡ true
      → (w.reduces i).reduce_replies ≡ length (kids i)
      → (c : ℕ) → c < size
      → parent c ≡ some i
      → w.taken c ≡ true
  kids_taken w i v lt out all c ltc e =
      total-bit_all w.taken (kids i) c (omega (arith, v.count i lt out, all))
        (tree.kid_of i c ltc e)

  -- A rank below the root has the results of all its children, and sends its own.
  pub ends-Inv :
      (w : Wave) (i p count : ℕ) (r : ReduceState) (sent : List Send) (m : Reply)
      → Inv size parent kids w
      → i < size
      → parent i ≡ some p
      → is_out w i ≡ true
      → (w.reduces i).reduce_replies ≡ length (kids i)
      → r.reduce_outstanding ≡ false
      → ((j : ℕ) → starts_to j sent ≡ 0)
      → results_in sent ≡ m ∷ []
      → m.valid ≡ (w.reduces i).result_valid
      → m.objects ≡ (w.reduces i).result_objects + count
      → Inv size parent kids (noted cb parent kids false false true false w i count r sent)
  ends-Inv w i p count r sent m v lt up out all over none_sent one valid objects =
      let w1 = noted cb parent kids false false true false w i count r sent in
      let low = tree.lower i p up in
      let mine = v.link i p lt up in
      let empty : w.results i ≡ [] = length_zero (w.results i) (ground (arith, mine, out)) in
      let mail : w1.results i ≡ m ∷ [] = ground (arith, empty, one) in
      let taken = kids_taken w i v lt out all in
      let in_job = (elem-ranks_from i 0 size).1 (omega arith, omega (arith, lt)) in
      record {
        link = λ c q ltc e. ground (
          arith,
          v.link c q ltc e,
          mine,
          out,
          over,
          ap length mail,
          none_sent c,
          taken c ltc,
          up,
          e,
          ==→eq c i,
          ==→eq q i,
        );
        count = λ q ltq o. ground (arith, v.count q ltq, over, o, ==→eq q i);
        once = λ clean c q ltc e. ground (
          arith,
          v.once (ground (arith, clean)) c q ltc e,
          v.once (ground (arith, clean)) i p lt up,
          v.link c q ltc e,
          mine,
          out,
          over,
          ap length mail,
          ap length empty,
          taken c ltc,
          up,
          e,
          low,
          tree.lower c q e,
          ==→eq c i,
          ==→eq q i,
        );
        root_new = λ clean o. ground (arith, v.root_new, clean, o, low, ==→eq 0 i);
        root_sends = ground (arith, v.root_sends, low, ==→eq 0 i);
        sum = λ clean o.
            let given =
              total_change w1.given w.given i (ranks_from 0 size) (NoDup-ranks_from 0 size) in_job
                (λ j ne. ground (arith, ne)) in
            let now =
              total_change (held w1) (held w) i (ranks_from 0 size) (NoDup-ranks_from 0 size) in_job
                (λ j ne. ground (arith, ne)) in
            let given_i : w1.given i ≡ w.given i + count = ground arith in
            let all_good : m.valid ≡ true = ground (arith, clean, one) in
            let held_i : held w1 i ≡ (w.reduces i).result_objects + count =
              ground (arith, over, mail, all_good, objects) in
            let held_old : held w i ≡ (w.reduces i).result_objects = ground (arith, out, empty) in
            omega (
              arith,
              given,
              now,
              given_i,
              held_i,
              held_old,
              v.sum (ground (arith, clean)) (ground (arith, o, low, ==→eq 0 i)),
            );
        marked = λ bad o.
            let now =
              total_change (marks w1) (marks w) i (ranks_from 0 size) (NoDup-ranks_from 0 size)
                in_job (λ j ne. ground (arith, ne)) in
            let new : marks w1 i ≡ (if m.valid then 0 else 1) = ground (arith, over, mail) in
            let old : marks w i ≡ (if m.valid then 0 else 1) = ground (arith, out, empty, valid) in
            let member = member-le-total (marks w1) i (ranks_from 0 size) in_job in
            ground (
              arith,
              bad,
              one,
              now,
              new,
              old,
              member,
              v.marked,
              ap bit (ap (λ (b : Bool). b) valid),
              o,
              low,
              ==→eq 0 i,
            );
      }

  -- The root has the results of all its children.
  pub root_ends-Inv :
      (w : Wave) (count : ℕ) (r : ReduceState)
      → Inv size parent kids w
      → 0 < size
      → is_out w 0 ≡ true
      → (w.reduces 0).reduce_replies ≡ length (kids 0)
      → r.reduce_outstanding ≡ false
      → Inv size parent kids (noted cb parent kids false false true false w 0 count r [])
  root_ends-Inv w count r v lt out all over =
      let w1 = noted cb parent kids false false true false w 0 count r [] in
      let taken = kids_taken w 0 v lt out all in
      record {
        link = λ c q ltc e. ground (
          arith,
          v.link c q ltc e,
          out,
          over,
          taken c ltc,
          e,
          append-nil (w.results c),
          tree.lower c q e,
          ==→eq c 0,
          ==→eq q 0,
        );
        count = λ q ltq o. ground (arith, v.count q ltq, over, o, ==→eq q 0);
        once = λ clean c q ltc e. ground (
          arith,
          v.once (ground (arith, clean)) c q ltc e,
          v.root_new (ground (arith, clean)) out,
          v.link c q ltc e,
          out,
          over,
          taken c ltc,
          e,
          append-nil (w.results c),
          tree.lower c q e,
          ==→eq c 0,
          ==→eq q 0,
        );
        root_new = λ clean o. ground (arith, over, o);
        root_sends = ground (arith, v.root_sends);
        sum = λ clean o. absurd (ground (arith, over, o));
        marked = λ bad o. absurd (ground (arith, over, o));
      }
