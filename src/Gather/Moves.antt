-- ===== src/Gather/Moves.antt =====
-- What a handler does in one call, as moves of the protocol: it receives messages of children, goes
-- up if it can, and leaves if it can.
use circle.Prelude.{
  ℕ, ◌+◌, ◌-◌, ◌<◌, ◌≡◌, refl, ap, ◌∙◌, true, false, ◌&&◌, List, [], ◌∷◌, Option, none, some, arith,
  length, update, ◌==◌, if◌then◌else◌,
}
use circle.Gather.{
  Gather, start, here, sent, received, sent_up, sent_down, Reach, readies, takes, goes_up,
  leaves_root, leaves, next,
}

-- The same but for what a rank that has left still keeps.
pub record Same (g h : Gather) : Type 0 where
  pub ready : (j : ℕ) → g.ready j ≡ h.ready j
  pub left : (j : ℕ) → g.left j ≡ h.left j
  pub flight : (a b : ℕ) → g.flight a b ≡ h.flight a b
  pub replies : (j : ℕ) → h.left j ≡ false → g.replies j ≡ h.replies j
  pub up : (j : ℕ) → h.left j ≡ false → g.up j ≡ h.up j

abbrev pub received_all : ℕ → List ℕ → (ℕ → ℕ → ℕ) → ℕ → ℕ → ℕ
received_all i [] f = f
received_all i (c ∷ cs) f = received_all i cs (received c i f)

abbrev pub received_up : ℕ → Option ℕ → (ℕ → ℕ → ℕ) → ℕ → ℕ → ℕ
received_up i none f = f
received_up i (some p) f = received p i f

-- The messages of these ranks to `i` are there.
abbrev pub Available : ℕ → List ℕ → (ℕ → ℕ → ℕ) → Type 0
Available i [] f = Unit
Available i (c ∷ cs) f = (0 < f c i) × Available i cs (received c i f)

abbrev pub Told : ℕ → Option ℕ → (ℕ → ℕ → ℕ) → Type 0
Told i none f = Unit
Told i (some p) f = 0 < f p i

pub sent-cong :
    (a b : ℕ) (f g : ℕ → ℕ → ℕ) (x y : ℕ) → f x y ≡ g x y → sent a b f x y ≡ sent a b g x y
sent-cong a b f g x y e = ap (λ n. if (x == a) && (y == b) then n + 1 else n) e

pub received-cong :
    (a b : ℕ) (f g : ℕ → ℕ → ℕ) (x y : ℕ) → f x y ≡ g x y → received a b f x y ≡ received a b g x y
received-cong a b f g x y e = ap (λ n. if (x == a) && (y == b) then n - 1 else n) e

sent_up-cong :
    (i : ℕ) (o : Option ℕ) (f g : ℕ → ℕ → ℕ) (x y : ℕ)
    → f x y ≡ g x y
    → sent_up i o f x y ≡ sent_up i o g x y
sent_up-cong i none f g x y e = e
sent_up-cong i (some p) f g x y e = sent-cong i p f g x y e

pub sent_down-cong :
    (i : ℕ) (kids : List ℕ) (f g : ℕ → ℕ → ℕ) (x y : ℕ)
    → f x y ≡ g x y
    → sent_down i kids f x y ≡ sent_down i kids g x y
sent_down-cong i [] f g x y e = e
sent_down-cong i (k ∷ kids) f g x y e =
    sent_down-cong i kids (sent i k f) (sent i k g) x y (sent-cong i k f g x y e)

pub Same-trans : {g h k : Gather} → Same g h → Same h k → Same g k
Same-trans s t = record {
  ready = λ j. s.ready j ∙ t.ready j;
  left = λ j. s.left j ∙ t.left j;
  flight = λ a b. s.flight a b ∙ t.flight a b;
  replies = λ j e. s.replies j (t.left j ∙ e) ∙ t.replies j e;
  up = λ j e. s.up j (t.left j ∙ e) ∙ t.up j e;
}

module _ (size : ℕ) (parent : ℕ → Option ℕ) (kids : ℕ → List ℕ) where
  unfoldable pub Reaches : Gather → Type 0
  Reaches h = (g : Gather) × Reach size parent kids g × Same g h

  pub start-Reaches : Reaches start
  unfolding Reaches
  start-Reaches = (
    start,
    here,
    record {
      ready = λ j. refl;
      left = λ j. refl;
      flight = λ a b. refl;
      replies = λ j e. refl;
      up = λ j e. refl;
    },
  )

  pub Reaches-Same : {h k : Gather} → Same h k → Reaches h → Reaches k
  unfolding Reaches
  Reaches-Same t (g, r, s) = (g, r, Same-trans s t)

  pub readies-Reaches :
      (h : Gather) (i : ℕ) → Reaches h → Reaches (record h { ready = update h.ready i true })
  unfolding Reaches
  readies-Reaches h i (g, r, s) = (
    record g { ready = update g.ready i true },
    next r (readies i),
    record {
      ready = λ j. ground (arith, s.ready j);
      left = s.left;
      flight = s.flight;
      replies = s.replies;
      up = s.up;
    },
  )

  module _ (h : Gather) (i : ℕ) (lt : i < size) (stays : h.left i ≡ false) where
    pub takes-Reaches :
        (c : ℕ)
        → h.replies i < length (kids i)
        → 0 < h.flight c i
        → Reaches h
        → Reaches (record h {
          replies = update h.replies i (h.replies i + 1);
          flight = received c i h.flight;
        })
    unfolding Reaches
    takes-Reaches c waits pos (g, r, s) = (
      record g { replies = update g.replies i (g.replies i + 1); flight = received c i g.flight },
      next r (
          takes i c lt (s.left i ∙ stays) (omega (arith, s.replies i stays))
            (omega (arith, s.flight c i))),
      record {
        ready = s.ready;
        left = s.left;
        flight = λ a b. received-cong c i g.flight h.flight a b (s.flight a b);
        replies = λ j e. ground (arith, s.replies j e, s.replies i stays);
        up = s.up;
      },
    )

    pub goes_up-Reaches :
        h.up i ≡ false
        → h.ready i ≡ true
        → h.replies i ≡ length (kids i)
        → Reaches h
        → Reaches (record h { up = update h.up i true; flight = sent_up i (parent i) h.flight })
    unfolding Reaches
    goes_up-Reaches down ready full (g, r, s) = (
      record g { up = update g.up i true; flight = sent_up i (parent i) g.flight },
      next r (
          goes_up i lt (s.left i ∙ stays) (s.up i stays ∙ down) (s.ready i ∙ ready)
            (s.replies i stays ∙ full)),
      record {
        ready = s.ready;
        left = s.left;
        flight = λ a b. sent_up-cong i (parent i) g.flight h.flight a b (s.flight a b);
        replies = s.replies;
        up = λ j e. ground (arith, s.up j e);
      },
    )

    pub leaves-Reaches :
        h.up i ≡ true
        → (o : Option ℕ) → parent i ≡ o
        → Told i o h.flight
        → Reaches h
        → Reaches (record h {
          left = update h.left i true;
          flight = sent_down i (kids i) (received_up i o h.flight);
        })
    unfolding Reaches
    leaves-Reaches up none e told (g, r, s) = (
      record g { left = update g.left i true; flight = sent_down i (kids i) g.flight },
      next r (leaves_root i lt (s.left i ∙ stays) (s.up i stays ∙ up) e),
      record {
        ready = s.ready;
        left = λ j. ground (arith, s.left j);
        flight = λ a b. sent_down-cong i (kids i) g.flight h.flight a b (s.flight a b);
        replies = λ j e. ground (arith, s.replies j, e);
        up = λ j e. ground (arith, s.up j, e);
      },
    )
    leaves-Reaches up (some p) e told (g, r, s) = (
      record g {
        left = update g.left i true;
        flight = sent_down i (kids i) (received p i g.flight);
      },
      next r (
          leaves i p lt (s.left i ∙ stays) (s.up i stays ∙ up) e
            (omega (arith, told, s.flight p i))),
      record {
        ready = s.ready;
        left = λ j. ground (arith, s.left j);
        flight = λ a b.
            sent_down-cong i (kids i) (received p i g.flight) (received p i h.flight) a b
              (received-cong p i g.flight h.flight a b (s.flight a b));
        replies = λ j e. ground (arith, s.replies j, e);
        up = λ j e. ground (arith, s.up j, e);
      },
    )
