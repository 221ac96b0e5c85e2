-- ===== src/Abort/Spread.antt =====
-- A check for an abort: what it asks, and what holds of all ranks.
use circle.Prelude.{
  ℕ, ◌+◌, ◌<◌, ◌≡◌, inl, inr, refl, Bool, true, false, List, [], ◌∷◌, ◌++◌, Option, none, some,
  arith, elem, ◌==◌, ==→eq, Bool-cases, Option-cases, subst,
}
use circle.State.{AbortState, Message, Send, to_children}
use circle.Abort.{neighbours, abort_start, answer_request, abort_check}
use circle.Abort.System.{Aborts, asks_to, flagged, aborted, Reach, here, next, flags, checks}

asks_to-to_children :
    (b : ℕ) (around : List ℕ)
    → elem b around ≡ true
    → 0 < asks_to b (to_children around Message.abort_request)
asks_to-to_children b [] h = cc
asks_to-to_children b (c ∷ around) h = ground (arith, h, asks_to-to_children b around)

asks_to-around :
    (b : ℕ) (around : List ℕ) (ms : List Send)
    → asks_to b (to_children around Message.abort_request ++ ms)
      ≡ asks_to b (to_children around Message.abort_request) + asks_to b ms
asks_to-around b [] ms = omega arith
asks_to-around b (c ∷ around) ms = ground (arith, asks_to-around b around ms)

-- What a check does: the state follows the flag and the requests, and entering it asks everybody
-- around.
check_lem :
    (parent : Option ℕ) (kids : List ℕ) (a : AbortState) (source : Option ℕ) (all_done : Bool)
    → (a.abort_state ≡ true → a.abort_flag ≡ true)
    → let (a1, sent) = abort_check parent kids false a source all_done in
      (a1.abort_state ≡ a1.abort_flag)
      × (a.abort_flag ≡ true → a1.abort_state ≡ true)
      × ((s : ℕ) → source ≡ some s → a1.abort_state ≡ true)
      × (a.abort_flag ≡ false
          → source ≡ none
          → (a1.abort_state ≡ false) × ((b : ℕ) → asks_to b sent ≡ 0))
      × ((b : ℕ)
          → elem b (neighbours parent kids) ≡ true
          → a.abort_state ≡ false
          → a1.abort_state ≡ true
          → 0 < asks_to b sent)
unfolding abort_check abort_start answer_request
check_lem parent kids a none all_done m =
    let around = neighbours parent kids in
    (
      ground (arith, m),
      λ f. ground (arith, f),
      λ s e. cc,
      λ f e. (ground (arith, f, m), λ b. ground (arith, f)),
      λ b e old new.
          ground (arith, old, new, m, asks_to-to_children b around e, asks_to-around b around []),
    )
check_lem parent kids a (some s) all_done m =
    let around = neighbours parent kids in
    (
      ground (arith, m),
      λ f. ground (arith, f),
      λ q e. ground (arith, m),
      λ f e. cc,
      λ b e old new. ground (
        arith,
        old,
        new,
        m,
        asks_to-to_children b around e,
        asks_to-around b around ((s, Message.abort_reply) ∷ []),
      ),
    )

module _ (size : ℕ) (parent : ℕ → Option ℕ) (kids : ℕ → List ℕ) where
  -- `spread`: a rank in the abort state has asked its neighbours, and each has entered the state, or
  -- the request is under way.
  pub record Inv (w : Aborts) : Type 0 where
    pub marked : (i : ℕ) → (w.aborts i).abort_state ≡ true → (w.aborts i).abort_flag ≡ true
    pub spread :
        (a b : ℕ)
        → elem b (neighbours (parent a) (kids a)) ≡ true
        → (w.aborts a).abort_state ≡ true
        → w.requests a b ≡ 0
        → (w.aborts b).abort_state ≡ true
    pub cause_flag : w.called ≡ false → (i : ℕ) → (w.aborts i).abort_flag ≡ false
    pub cause_request : w.called ≡ false → (a b : ℕ) → w.requests a b ≡ 0

  flagged-Inv : (w : Aborts) (i : ℕ) → Inv w → Inv (flagged w i)
  flagged-Inv w i v = record {
    marked = λ j h. ground (arith, v.marked j, h);
    spread = λ a b e h z. ground (arith, v.spread a b e, h, z, ==→eq a i, ==→eq b i);
    cause_flag = λ clean j. absurd (ground (arith, clean));
    cause_request = λ clean a b. absurd (ground (arith, clean));
  }

  aborted-Inv :
      (w : Aborts) (i : ℕ) (source : Option ℕ) (all_done : Bool)
      → Inv w
      → ((s : ℕ) → source ≡ some s → 0 < w.requests s i)
      → Inv (aborted parent kids w i source all_done)
  aborted-Inv w i source all_done v there =
      let (same, kept, heard, silent, asked) =
        check_lem (parent i) (kids i) (w.aborts i) source all_done (v.marked i) in
      let w1 = aborted parent kids w i source all_done in
      elim (Option-cases source) [
        | inl none_there ↦ record {
          marked = λ j h. ground (arith, v.marked j, h, same);
          spread = λ a b e h z. elim (Bool-cases (a == i)) [
            | inl same_a ↦
                let around =
                  subst (λ (q : ℕ). elem b (neighbours (parent q) (kids q)) ≡ true)
                    (==→eq a i same_a) e in
                ground (
                  arith,
                  v.spread a b e,
                  v.marked i,
                  kept,
                  h,
                  z,
                  same_a,
                  none_there,
                  ==→eq a i same_a,
                  ==→eq b i,
                  asked b around,
                )
            | inr other ↦
                ground (arith, v.spread a b e, v.marked i, kept, h, z, other, none_there, ==→eq b i)
          ];
          cause_flag = λ clean j.
              ground (arith, v.cause_flag clean j, v.cause_flag clean i, silent, same, none_there);
          cause_request = λ clean a b. ground (
            arith,
            v.cause_request clean a b,
            (silent (v.cause_flag clean i) none_there).1 b,
            none_there,
          );
        }
        | inr (s, there_s) ↦ record {
          marked = λ j h. ground (arith, v.marked j, h, same);
          spread = λ a b e h z. elim (Bool-cases (a == i)) [
            | inl same_a ↦
                let around =
                  subst (λ (q : ℕ). elem b (neighbours (parent q) (kids q)) ≡ true)
                    (==→eq a i same_a) e in
                ground (
                  arith,
                  v.spread a b e,
                  v.marked i,
                  kept,
                  h,
                  z,
                  same_a,
                  there_s,
                  heard s there_s,
                  ==→eq a s,
                  ==→eq a i same_a,
                  ==→eq b i,
                  asked b around,
                )
            | inr other ↦ ground (
              arith,
              v.spread a b e,
              v.marked i,
              kept,
              h,
              z,
              other,
              there_s,
              heard s there_s,
              ==→eq a s,
              ==→eq b i,
            )
          ];
          cause_flag =
              λ clean j. absurd (omega (arith, v.cause_request clean s i, there s there_s));
          cause_request =
              λ clean a b. absurd (omega (arith, v.cause_request clean s i, there s there_s));
        }
      ]

  pub Reach-Inv : {w : Aborts} → Reach parent kids size w → Inv w
  Reach-Inv (here aborts free out) = record {
    marked = λ i h. ground (arith, out i, h);
    spread = λ a b e h z. ground (arith, out a, h);
    cause_flag = λ clean i. free i;
    cause_request = λ clean a b. refl;
  }
  Reach-Inv (next {v} r (flags i lt)) = flagged-Inv v i (Reach-Inv r)
  Reach-Inv (next {v} r (checks i source all_done lt there)) =
      aborted-Inv v i source all_done (Reach-Inv r) there
