-- ===== src/Wave/Take.antt =====
-- Taking results keeps the invariant of the periodic reduction.
use circle.Prelude.{
  ℕ, ◌+◌, ◌<◌, ◌≡◌, ◌≢◌, refl, ap, ◌∙◌, Bool, true, false, ◌&&◌, List, [], ◌∷◌, Option, arith,
  length, drop, elem, update, bit, ◌==◌, ==→eq, if◌then◌else◌, total, total_change, total_same,
  member-le-total, elem_apart, NoDup, Bool-cases, inl, inr,
}
use circle.State.{ReduceState}
use circle.Reduce.{Callbacks, Reply, take_reply, take_replies}
use circle.Reduce.Rules.{take_reply-Adds, Adds}
use circle.Gather.Shape.{IsTree, NoDup-ranks_from}
use circle.Tree.Family.{ranks_from, elem-ranks_from}
use circle.Wave.{Wave, is_out, invalids, first_of, is_found, replies_found, take_one, take_found}
use circle.Wave.Held.{held, marks, Inv}

module _ (size : ℕ) (parent : ℕ → Option ℕ) (kids : ℕ → List ℕ) (tree : IsTree size parent kids)
    (cb : Callbacks) where
  -- Two ranks of the job change what they hold.
  total_change2 :
      (f g : ℕ → ℕ) (a b : ℕ)
      → a < size
      → b < size
      → a ≢ b
      → ((x : ℕ) → x ≢ a → x ≢ b → f x ≡ g x)
      → total f (ranks_from 0 size) + g a + g b ≡ total g (ranks_from 0 size) + f a + f b
  total_change2 f g a b lta ltb ne same =
      let h = update g a (f a) in
      let first =
        total_change h g a (ranks_from 0 size) (NoDup-ranks_from 0 size)
          ((elem-ranks_from a 0 size).1 (omega arith, omega (arith, lta)))
          (λ x n. ground (arith, n)) in
      let second =
        total_change f h b (ranks_from 0 size) (NoDup-ranks_from 0 size)
          ((elem-ranks_from b 0 size).1 (omega arith, omega (arith, ltb)))
          (λ x n. ground (arith, n, same x, ==→eq x a)) in
      let ha : h a ≡ f a = ground arith in
      let hb : h b ≡ g b = ground (arith, ne, ==→eq b a) in omega (arith, first, second, ha, hb)

  take_one-Inv :
      (w : Wave) (p c : ℕ) (m : Reply) (ms : List Reply)
      → Inv size parent kids w
      → p < size
      → is_out w p ≡ true
      → elem c (kids p) ≡ true
      → w.results c ≡ m ∷ ms
      → Inv size parent kids (take_one cb w p c)
  take_one-Inv w p c m ms v lt out kid there =
      let ltc = tree.kid_in p c kid in
      let up = tree.of_kid p c kid in
      let low = tree.lower c p up in
      let u = take_reply cb (w.reduces p) (first_of (w.results c)) in
      let a : Adds (w.reduces p) u (m ∷ []) = rw there (take_reply-Adds cb (w.reduces p) m) in
      let left : drop 1 (w.results c) ≡ ms = ap (drop 1) there in
      let had = ap length there in
      let w1 = take_one cb w p c in
      let link_c = v.link c p ltc up in
      let untaken : w.taken c ≡ false = ground (arith, link_c, out, had) in
      record {
        link = λ d q ltd e. ground (
          arith,
          v.link d q ltd e,
          link_c,
          out,
          had,
          a.outstanding,
          untaken,
          ap length left,
          up,
          e,
          ==→eq d p,
          ==→eq q p,
          ==→eq d c,
        );
        count = λ q ltq oq. elim (Bool-cases (q == p)) [
          | inl same ↦
              let more =
                total_change (λ x. bit (w1.taken x)) (λ x. bit (w.taken x)) c (kids p) (tree.once p)
                  kid (λ x ne. ground (arith, ne)) in
              let new : bit (w1.taken c) ≡ 1 = ground arith in
              let old : bit (w.taken c) ≡ 0 = ground (arith, untaken) in
              let is_p : q ≡ p = ==→eq q p same in
              let here_p : (w1.reduces q).reduce_replies ≡ (w.reduces p).reduce_replies + 1 =
                ground (arith, same, a.replies) in
              let of_p = ap (λ (x : ℕ). total (λ (d : ℕ). bit (w1.taken d)) (kids x)) is_p in
              omega (arith, here_p, of_p, more, new, old, v.count p lt out)
          | inr other ↦
              let same_total =
                total_same (λ x. bit (w1.taken x)) (λ x. bit (w.taken x)) (kids q)
                  (λ x inq. ground (arith, other, up, tree.of_kid q x inq, ==→eq x c)) in
              ground (arith, other, v.count q ltq, oq, same_total)
        ];
        once = λ clean d q ltd e. ground (
          arith,
          v.once clean d q ltd e,
          link_c,
          out,
          had,
          a.outstanding,
          untaken,
          ap length left,
          up,
          e,
          ==→eq d p,
          ==→eq q p,
          ==→eq d c,
        );
        root_new = λ clean o. ground (arith, v.root_new clean, o, a.outstanding, out, ==→eq 0 p);
        root_sends = ground (arith, v.root_sends, low, ==→eq 0 c);
        sum = λ clean o.
            let two =
              total_change2 (held w1) (held w) p c lt ltc (omega (arith, low))
                (λ x n1 n2. ground (arith, n1, n2)) in
            let at_p : held w1 p ≡ held w p + (if m.valid then m.objects else 0) =
              ground (arith, low, a.objects, a.outstanding, out, ==→eq p c) in
            let at_c : held w c ≡ (if m.valid then m.objects else 0) + held w1 c =
              ground (arith, low, link_c, out, had, there, left, ==→eq c p) in
            let o1 : is_out w 0 ≡ true = ground (arith, o, a.outstanding, out, ==→eq 0 p) in
            omega (arith, v.sum clean o1, two, at_p, at_c);
        marked = λ bad o.
            let two =
              total_change2 (marks w1) (marks w) p c lt ltc (omega (arith, low))
                (λ x n1 n2. ground (arith, n1, n2)) in
            let at_p : marks w1 p
                ≡ (if (w.reduces p).result_valid && m.valid then 0 else 1)
                  + invalids (w.results p) =
              ground (arith, low, a.valid, a.outstanding, out, ==→eq p c) in
            let old_p : marks w p
                ≡ (if (w.reduces p).result_valid then 0 else 1) + invalids (w.results p) =
              ground (arith, out) in
            let at_c : marks w c ≡ (if m.valid then 0 else 1) + marks w1 c =
              ground (arith, low, link_c, out, had, there, left, ==→eq c p) in
            ground (
              arith,
              v.marked bad,
              o,
              a.outstanding,
              out,
              ==→eq 0 p,
              two,
              at_p,
              old_p,
              at_c,
              member-le-total (marks w1) p (ranks_from 0 size)
                  ((elem-ranks_from p 0 size).1 (omega arith, omega (arith, lt))),
              member-le-total (marks w1) c (ranks_from 0 size)
                  ((elem-ranks_from c 0 size).1 (omega arith, omega (arith, ltc))),
            );
      }

  replies_found-same :
      (w w1 : Wave) (found : ℕ → Bool) (cs : List ℕ)
      → ((x : ℕ) → elem x cs ≡ true → w1.results x ≡ w.results x)
      → replies_found w1 found cs ≡ replies_found w found cs
  replies_found-same w w1 found [] h = refl
  replies_found-same w w1 found (c ∷ cs) h =
      let rest = replies_found-same w w1 found cs (λ x m. h x (ground (arith, m))) in
      rw (h c (ground arith), rest) refl

  -- What taking results does, besides keeping the invariant.
  pub record Taken (w w1 : Wave) (p : ℕ) (ms : List (Option Reply)) : Type 0 where
    pub inv : Inv size parent kids w1
    pub mine : w1.reduces p ≡ take_replies cb (w.reduces p) ms
    pub others : (j : ℕ) → j ≢ p → w1.reduces j ≡ w.reduces j
    pub starts : (j : ℕ) → w1.starts j ≡ w.starts j
    pub gave : (j : ℕ) → w1.gave j ≡ w.gave j
    pub given : (j : ℕ) → w1.given j ≡ w.given j
    pub spoiled : w1.spoiled ≡ w.spoiled

  found_there :
      (b : Bool) (l : List Reply)
      → b && (elim l [ [] ↦ false | _ ∷ _ ↦ true ]) ≡ true
      → (m : Reply) × (ms : List Reply) × (l ≡ m ∷ ms)
  found_there b [] h = ground (arith, h)
  found_there b (m ∷ ms) h = (m, ms, refl)

  pub take_found-Taken :
      (w : Wave) (p : ℕ) (found : ℕ → Bool) (cs : List ℕ)
      → Inv size parent kids w
      → p < size
      → is_out w p ≡ true
      → NoDup cs
      → ((c : ℕ) → elem c cs ≡ true → elem c (kids p) ≡ true)
      → Taken w (take_found cb w p found cs) p (replies_found w found cs)
  unfolding take_replies
  take_found-Taken w p found [] v lt out once inside = record {
    inv = v;
    mine = refl;
    others = λ j ne. refl;
    starts = λ j. refl;
    gave = λ j. refl;
    given = λ j. refl;
    spoiled = refl;
  }
  take_found-Taken w p found (c ∷ cs) v lt out once inside =
      elim (Bool-cases (is_found w found c)) [
        | inl e ↦
            let (m, ms, there) = found_there (found c) (w.results c) e in
            let w1 = take_one cb w p c in
            let a : Adds (w.reduces p) (take_reply cb (w.reduces p) (first_of (w.results c)))
                (m ∷ []) =
              rw there (take_reply-Adds cb (w.reduces p) m) in
            let v1 = take_one-Inv w p c m ms v lt out (inside c (ground arith)) there in
            let ih =
              take_found-Taken w1 p found cs v1 lt (ground (arith, a.outstanding, out)) once.1
                (λ d i. inside d (ground (arith, i))) in
            let at_p : w1.reduces p ≡ take_reply cb (w.reduces p) (first_of (w.results c)) =
              ground arith in
            let same =
              replies_found-same w w1 found cs
                (λ x i. ground (arith, elem_apart c x cs once.0 i)) in
            rw e (record {
              inv = ih.inv;
              mine =
                  ih.mine
                  ∙ (ap (λ (r : ReduceState). take_replies cb r (replies_found w1 found cs)) at_p
                      ∙ ap (take_replies cb (take_reply cb (w.reduces p) (first_of (w.results c))))
                          same);
              others = λ j ne. ground (arith, ih.others j ne, ne);
              starts = ih.starts;
              gave = ih.gave;
              given = ih.given;
              spoiled = ih.spoiled;
            })
        | inr e ↦
            let ih =
              take_found-Taken w p found cs v lt out once.1 (λ d i. inside d (ground (arith, i))) in
            rw e (record {
              inv = ih.inv;
              mine = ih.mine;
              others = ih.others;
              starts = ih.starts;
              gave = ih.gave;
              given = ih.given;
              spoiled = ih.spoiled;
            })
      ]
