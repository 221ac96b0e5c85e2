-- ===== src/Wave/Invariant.antt =====
-- Every check of the periodic reduction keeps the invariant.
use circle.Prelude.{
  ℕ, ◌<◌, ◌≡◌, refl, sym, ◌∙◌, Bool, true, false, not, ◌&&◌, List, [], Option, none, some, arith,
  elem, bit, ◌==◌, if◌then◌else◌, Bool-cases, Option-cases, inl, inr, subst,
}
use circle.Reduce.{Callbacks, start, refuse, is_asked, reduce_check}
use circle.Gather.Shape.{IsTree}
use circle.Wave.{Wave, is_out, starts_to, replies_found, noted, checked, checks, Reach, here, next}
use circle.Wave.Held.{Inv}
use circle.Wave.Ends.{waits-Inv}
use circle.Wave.Starts.{refuses-Inv, begins-Inv}
use circle.Wave.Root.{root_begins-Inv}
use circle.Wave.Checks.{
  start_lem, check_out, check_not_asked, check_asked, refuse_lem, refuse_root, message_asked,
}
use circle.Wave.Cases.{after, outstanding-Inv}

module _ (size : ℕ) (parent : ℕ → Option ℕ) (kids : ℕ → List ℕ) (tree : IsTree size parent kids)
    (cb : Callbacks) where
  idle_waits :
      (w : Wave) (i count : ℕ) (found : ℕ → Bool) (asked : Bool)
      → Inv size parent kids w
      → is_out w i ≡ false
      → (asked ≡ true → parent i ≡ none)
      → Inv size parent kids
          (after size parent kids tree cb w i count found false asked (w.reduces i, [], none))
  idle_waits w i count found asked v free root =
      subst
        (λ b. Inv size parent kids (
          noted cb parent kids asked b false
            (b && (elim (parent i) [ none ↦ true | some _ ↦ false ])) w i count (w.reduces i) []))
        (sym free) (waits-Inv size parent kids tree cb w i count asked v root)

  -- A check that starts a reduction, or refuses to.
  asked-Inv :
      (w : Wave) (i count : ℕ) (found : ℕ → Bool) (cleanup : Bool) (now : ℕ)
      → Inv size parent kids w
      → i < size
      → is_out w i ≡ false
      → is_asked (parent i) cleanup now (not (w.starts i == 0)) (w.reduces i) ≡ true
      → Inv size parent kids (
          after size parent kids tree cb w i count found false true (
            if cleanup
            then refuse (parent i) (w.reduces i)
            else start cb (kids i) now (w.reduces i)))
  asked-Inv w i count found true now v lt free asked =
      let r = w.reduces i in
      elim (Option-cases (parent i)) [
        | inl root ↦
            subst
              (λ o.
                Inv size parent kids
                  (after size parent kids tree cb w i count found false true (refuse o r)))
              (sym root)
              (subst
                (λ x.
                  Inv size parent kids
                    (after size parent kids tree cb w i count found false true x))
                (sym (refuse_root cb r)) (idle_waits w i count found true v free (λ f. root)))
        | inr (p, up) ↦
            let (m, kept, none_sent, one, valid, _) = refuse_lem cb p r in
            let over : (refuse (some p) r).0.reduce_outstanding ≡ false = kept ∙ free in
            let message =
              message_asked cb p true now (not (w.starts i == 0)) r
                (subst (λ o. is_asked o true now (not (w.starts i == 0)) r ≡ true) up asked) in
            subst
              (λ o.
                Inv size parent kids
                  (after size parent kids tree cb w i count found false true (refuse o r)))
              (sym up)
              (rw over (
                refuses-Inv size parent kids tree cb w i p count (refuse (some p) r).0
                  (refuse (some p) r).1 m v lt up free (ground (arith, message)) over none_sent one
                  valid))
      ]
  asked-Inv w i count found false now v lt free asked =
      let r = w.reduces i in
      let x = start cb (kids i) now r in
      let (out, fresh, good, zero_objects, sent_to, none_sent, _) =
        start_lem cb (kids i) now r (tree.once i) in
      elim (Option-cases (parent i)) [
        | inl root ↦
            let begun : Inv size parent kids
                (noted cb parent kids true true false true w i count x.0 x.1) =
              subst
                (λ (j : ℕ).
                  is_out w j ≡ false
                  → ((k : ℕ) → starts_to k x.1 ≡ bit (elem k (kids j)))
                  → Inv size parent kids
                      (noted cb parent kids true true false true w j count x.0 x.1))
                (sym (tree.is_root i root))
                (λ f to.
                  root_begins-Inv size parent kids tree cb w count true x.0 x.1 v f out fresh good
                    zero_objects to none_sent)
                free sent_to in
            rw (out, root) begun
        | inr (p, up) ↦
            let message =
              message_asked cb p false now (not (w.starts i == 0)) r
                (subst (λ o. is_asked o false now (not (w.starts i == 0)) r ≡ true) up asked) in
            rw (out, up)
              (begins-Inv size parent kids tree cb w i p count x.0 x.1 v lt up free
                (ground (arith, message)) out fresh good zero_objects sent_to none_sent)
      ]

  -- A check without a reduction outstanding.
  idle-Inv :
      (w : Wave) (i count : ℕ) (found : ℕ → Bool) (cleanup : Bool) (now : ℕ)
      → Inv size parent kids w
      → i < size
      → is_out w i ≡ false
      → let pm = not (w.starts i == 0) in
        Inv size parent kids (
          after size parent kids tree cb w i count found false
            (is_asked (parent i) cleanup now pm (w.reduces i))
            (reduce_check cb
              (parent i)
              (kids i)
              (w.reduces i)
              count
              cleanup
              (replies_found w found (kids i))
              now
              pm))
  idle-Inv w i count found cleanup now v lt free =
      let pm = not (w.starts i == 0) in
      let r = w.reduces i in
      let ms = replies_found w found (kids i) in
      elim (Bool-cases (is_asked (parent i) cleanup now pm r)) [
        | inr no_one ↦
            subst
              (λ b. Inv size parent kids (
                after size parent kids tree cb w i count found false b
                  (reduce_check cb (parent i) (kids i) r count cleanup ms now pm)))
              (sym no_one)
              (subst
                (λ x.
                  Inv size parent kids
                    (after size parent kids tree cb w i count found false false x))
                (sym (check_not_asked cb (parent i) (kids i) r count cleanup ms now pm free no_one))
                (idle_waits w i count found false v free (λ f. absurd (ground (arith, f)))))
        | inl asked ↦
            subst
              (λ b. Inv size parent kids (
                after size parent kids tree cb w i count found false b
                  (reduce_check cb (parent i) (kids i) r count cleanup ms now pm)))
              (sym asked)
              (subst
                (λ x.
                  Inv size parent kids
                    (after size parent kids tree cb w i count found false true x))
                (sym (check_asked cb (parent i) (kids i) r count cleanup ms now pm free asked))
                (asked-Inv w i count found cleanup now v lt free asked))
      ]

  pub checked-Inv :
      (w : Wave) (i count : ℕ) (cleanup : Bool) (now : ℕ) (found : ℕ → Bool)
      → Inv size parent kids w
      → i < size
      → Inv size parent kids (checked cb parent kids w i count cleanup now found).0
  checked-Inv w i count cleanup now found v lt =
      let pm = not (w.starts i == 0) in
      let ms = replies_found w found (kids i) in
      let x = reduce_check cb (parent i) (kids i) (w.reduces i) count cleanup ms now pm in
      let asked = is_asked (parent i) cleanup now pm (w.reduces i) in
      elim (Bool-cases (is_out w i)) [
        | inl out ↦
            subst
              (λ b. Inv size parent kids (after size parent kids tree cb w i count found b asked x))
              (sym out)
              (subst
                (λ y.
                  Inv size parent kids
                    (after size parent kids tree cb w i count found true asked y))
                (sym (check_out cb (parent i) (kids i) (w.reduces i) count cleanup ms now pm out))
                (outstanding-Inv size parent kids tree cb w i count found asked v lt out))
        | inr free ↦
            subst
              (λ b. Inv size parent kids (after size parent kids tree cb w i count found b asked x))
              (sym free) (idle-Inv w i count found cleanup now v lt free)
      ]

  pub Reach-Inv : {w : Wave} → Reach cb parent kids size w → Inv size parent kids w
  Reach-Inv (here reduces free) = record {
    link = λ c p lt e. ground (arith, free c, free p);
    count = λ p lt o. absurd (ground (arith, free p, o));
    once = λ clean c p lt e. ground (arith, free p);
    root_new = λ clean o. refl;
    root_sends = refl;
    sum = λ clean o. absurd (ground (arith, free 0, o));
    marked = λ bad. absurd (ground (arith, bad));
  }
  Reach-Inv (next {v} r (checks i count cleanup now found lt)) =
      checked-Inv v i count cleanup now found (Reach-Inv r) lt
