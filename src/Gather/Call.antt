-- ===== src/Gather/Call.antt =====
-- One call of a handler: messages of children are received, the rank goes up or not, and leaves or
-- not, with all that it sends.
use circle.Prelude.{
  ℕ, ◌+◌, ◌≤◌, ◌<◌, ◌≡◌, ◌≢◌, ◌⊎◌, inl, inr, refl, sym, ap, subst, ◌∙◌, Bool, true, false, ◌||◌,
  List, [], ◌∷◌, Option, none, some, arith, length, update, ==→eq, if◌then◌else◌,
}
use circle.Gather.Shape.{IsTree}
use circle.Gather.Safety.{Reach-all_ready}
use circle.Gather.{Gather, received, sent_up, sent_down}
use circle.Gather.Moves.{
  Reaches, Reaches-Same, received_all, received_up, Available, Told, sent_down-cong, takes-Reaches,
  goes_up-Reaches, leaves-Reaches,
}

-- What a call of rank `i` receives and sends.
abbrev pub call_flight : Option ℕ → List ℕ → ℕ → List ℕ → Bool → Bool → (ℕ → ℕ → ℕ) → ℕ → ℕ → ℕ
call_flight parent kids i cs goes done f =
    let f1 = received_all i cs f in
    let f2 = if done then received_up i parent f1 else f1 in
    let f3 = if goes then sent_up i parent f2 else f2 in if done then sent_down i kids f3 else f3

abbrev pub called : (ℕ → Option ℕ) → (ℕ → List ℕ) → Gather → ℕ → List ℕ → Bool → Bool → Gather
called parent kids h i cs goes done = record {
  ready = h.ready;
  replies = update h.replies i (h.replies i + length cs);
  up = if goes then update h.up i true else h.up;
  left = if done then update h.left i true else h.left;
  flight = call_flight (parent i) (kids i) i cs goes done h.flight;
}

Told-sent_up : (i : ℕ) (o : Option ℕ) (f : ℕ → ℕ → ℕ) → Told i o f → Told i o (sent_up i o f)
Told-sent_up i none f told = tt
Told-sent_up i (some p) f told = ground (arith, told)

-- What the rank sends to its parent and what it receives from there do not meet.
received_up-sent_up :
    (i : ℕ) (o : Option ℕ) (f : ℕ → ℕ → ℕ) (x y : ℕ)
    → o ≢ some i
    → received_up i o (sent_up i o f) x y ≡ sent_up i o (received_up i o f) x y
received_up-sent_up i none f x y ne = refl
received_up-sent_up i (some p) f x y ne =
    let apart : p ≢ i = λ e. ne (ap some e) in ground (arith, apart, ==→eq x p, ==→eq x i)

module _ (size : ℕ) (parent : ℕ → Option ℕ) (kids : ℕ → List ℕ) where
  takes_all-Reaches :
      (h : Gather) (i : ℕ) (cs : List ℕ)
      → i < size
      → h.left i ≡ false
      → h.replies i + length cs ≤ length (kids i)
      → Available i cs h.flight
      → Reaches size parent kids h
      → Reaches size parent kids (record h {
        replies = update h.replies i (h.replies i + length cs);
        flight = received_all i cs h.flight;
      })
  takes_all-Reaches h i [] lt stays room there r =
      Reaches-Same size parent kids
        (record {
          ready = λ j. refl;
          left = λ j. refl;
          flight = λ a b. refl;
          replies = λ j e. ground (arith, ==→eq j i);
          up = λ j e. refl;
        })
        r
  takes_all-Reaches h i (c ∷ cs) lt stays room there r =
      let h1 : Gather = record h {
        replies = update h.replies i (h.replies i + 1);
        flight = received c i h.flight;
      } in
      let r1 = takes-Reaches size parent kids h i lt stays c (omega (arith, room)) there.0 r in
      Reaches-Same size parent kids
        (record {
          ready = λ j. refl;
          left = λ j. refl;
          flight = λ a b. refl;
          replies = λ j e. ground arith;
          up = λ j e. refl;
        })
        (takes_all-Reaches h1 i cs lt stays (ground (arith, room)) there.1 r1)

  -- A call moves the protocol if it goes up only with all replies, for the first time and ready to,
  -- and leaves only when it has gone up and its parent has told it to.
  pub called-Reaches :
      (h : Gather) (i : ℕ) (cs : List ℕ) (goes done : Bool)
      → i < size
      → parent i ≢ some i
      → h.left i ≡ false
      → h.replies i + length cs ≤ length (kids i)
      → Available i cs h.flight
      → (goes ≡ true
          → (h.up i ≡ false) × (h.ready i ≡ true) × (h.replies i + length cs ≡ length (kids i)))
      → (done ≡ true → (h.up i || goes ≡ true) × Told i (parent i) (received_all i cs h.flight))
      → Reaches size parent kids h
      → Reaches size parent kids (called parent kids h i cs goes done)
  called-Reaches h i cs false false lt ne stays room there may_go may_leave r =
      takes_all-Reaches h i cs lt stays room there r
  called-Reaches h i cs true false lt ne stays room there may_go may_leave r =
      let g = may_go refl in
      let r1 = takes_all-Reaches h i cs lt stays room there r in
      goes_up-Reaches size parent kids _ i lt stays g.0 g.1 (ground (arith, g.2)) r1
  called-Reaches h i cs false true lt ne stays room there may_go may_leave r =
      let l = may_leave refl in
      let r1 = takes_all-Reaches h i cs lt stays room there r in
      leaves-Reaches size parent kids _ i lt stays (ground (arith, l.0)) (parent i) refl l.1 r1
  called-Reaches h i cs true true lt ne stays room there may_go may_leave r =
      let g = may_go refl in
      let l = may_leave refl in
      let r1 = takes_all-Reaches h i cs lt stays room there r in
      let r2 = goes_up-Reaches size parent kids _ i lt stays g.0 g.1 (ground (arith, g.2)) r1 in
      let told = Told-sent_up i (parent i) (received_all i cs h.flight) l.1 in
      let r3 =
        leaves-Reaches size parent kids _ i lt stays (ground arith) (parent i) refl told r2 in
      Reaches-Same size parent kids
        (record {
          ready = λ j. refl;
          left = λ j. refl;
          flight = λ a b.
              sent_down-cong i (kids i) _ _ a b
                (received_up-sent_up i (parent i) (received_all i cs h.flight) a b ne);
          replies = λ j e. refl;
          up = λ j e. refl;
        })
        r3

-- If one rank has left, every rank of the job was ready.
pub Reaches-all_ready :
    {size : ℕ} {parent : ℕ → Option ℕ} {kids : ℕ → List ℕ}
    → IsTree size parent kids
    → (h : Gather) → Reaches size parent kids h
    → (i j : ℕ) → h.left i ≡ true
    → j < size
    → h.ready j ≡ true
unfolding Reaches
Reaches-all_ready tree h (g, r, s) i j left lt =
    sym (s.ready j) ∙ (Reach-all_ready tree r i j (s.left i ∙ left) lt).1

pub to-Told :
    (i : ℕ) (parent : Option ℕ) (told : Bool) (f : ℕ → ℕ → ℕ)
    → (parent ≡ none) ⊎ (told ≡ true)
    → (told ≡ true → Told i parent f)
    → Told i parent f
to-Told i parent told f (inl e) h = subst (λ o. Told i o f) (sym e) tt
to-Told i parent told f (inr e) h = h e
