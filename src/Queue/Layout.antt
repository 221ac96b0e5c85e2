-- ===== src/Queue/Layout.antt =====
-- How the pool of a `Queue` is laid out: the strings stand one behind the other from address 0 up
-- to `head`, and `strings[i]` is where the i-th begins.
use native.Mathlib.Decide.{dec_lt}
use circle.Prelude.{
  ℕ, zero, suc, ◌+◌, ◌-◌, ◌^◌, ◌≤◌, ◌<◌, ◌≡◌, refl, List, [], ◌∷◌, arith, length, All,
}
use circle.Buffer.{slice, slice_agree, length-slice}
use circle.Queue.{Queue, new_queue}

-- The first `k` strings end at `e`, and none of them is empty.
abbrev pub Layout : (ℕ → ℕ) → ℕ → ℕ → Type 0
Layout s zero e = e ≡ 0
Layout s (suc k) e = (s k < e) × Layout s k (s k)

-- The first `k` strings, newest first, if the last of them ends at `e`.
abbrev pub items : (ℕ → ℕ) → (ℕ → ℕ) → ℕ → ℕ → List (List ℕ)
items b s zero e = []
items b s (suc k) e = slice b (s k) (e - s k) ∷ items b s k (s k)

-- What the queue holds: a stack, its top first.
abbrev pub contents : Queue → List (List ℕ)
contents q = items q.base.cell q.strings.cell q.count q.head

pub record IsValid (q : Queue) : Type 0 where
  pub layout : Layout q.strings.cell q.count q.head
  pub base_in : q.head ≤ q.base.size
  pub strings_in : q.count ≤ q.strings.size
  pub small : q.head < 2 ^ 64

pub new_queue-IsValid : IsValid new_queue
new_queue-IsValid = record {
  layout = refl;
  base_in = omega arith;
  strings_in = omega arith;
  small = omega arith;
}

pub Layout-agree :
    (s t : ℕ → ℕ) (k e : ℕ) → ((j : ℕ) → j < k → s j ≡ t j) → Layout s k e → Layout t k e
Layout-agree s t zero e same h = h
Layout-agree s t (suc k) e same h =
    ground (arith, same k, Layout-agree s t k (s k) (λ j lt. same j (omega arith)) h.1)

pub items_agree :
    (b c s t : ℕ → ℕ) (k e : ℕ)
    → ((j : ℕ) → j < e → b j ≡ c j)
    → ((j : ℕ) → j < k → s j ≡ t j)
    → Layout s k e
    → items b s k e ≡ items c t k e
items_agree b c s t zero e same_b same_s h = refl
items_agree b c s t (suc k) e same_b same_s h = ground (
  arith,
  same_s k,
  slice_agree b c (s k) (e - s k) (λ j lo hi. same_b j (omega (arith, h.0))),
  items_agree b c s t k (s k) (λ j lt. same_b j (omega (arith, h.0)))
      (λ j lt. same_s j (omega arith)) h.1,
)

pub length-items : (b s : ℕ → ℕ) (k e : ℕ) → length (items b s k e) ≡ k
length-items b s zero e = refl
length-items b s (suc k) e = omega (arith, length-items b s k (s k))

-- Every string begins below the end of the last.
pub Layout-lt : (s : ℕ → ℕ) (k e i : ℕ) → Layout s k e → i < k → s i < e
Layout-lt s zero e i h lt = absurd (omega arith)
Layout-lt s (suc k) e i h lt = ground (arith, Layout-lt s k (s k) i h.1)

-- The bytes of some strings together.
abbrev pub weight : List (List ℕ) → ℕ
weight [] = 0
weight (x ∷ xs) = length x + weight xs

-- The strings fill the pool up to the end of the last, and none is empty.
pub weight-items :
    (b s : ℕ → ℕ) (k e : ℕ)
    → Layout s k e
    → (weight (items b s k e) ≡ e) × All (λ x. 0 < length x) (items b s k e)
weight-items b s zero e h = (omega arith, tt)
weight-items b s (suc k) e h =
    let n = length-slice b (s k) (e - s k) in
    let ih = weight-items b s k (s k) h.1 in
    (omega (arith, n, ih.0, h.0), (omega (arith, n, h.0), ih.1))

-- The strings begin one behind the other.
pub Layout-mono : (s : ℕ → ℕ) (n e i j : ℕ) → Layout s n e → i < j → j < n → s i < s j
Layout-mono s zero e i j h lt in_range = absurd (omega arith)
Layout-mono s (suc n) e i j h lt in_range = elim (dec_lt j n) [
  | yes below ↦ Layout-mono s n (s n) i j h.1 lt below
  | no last ↦ let top : j ≡ n = omega arith in rw top (Layout-lt s n (s n) i h.1 (omega arith))
]
