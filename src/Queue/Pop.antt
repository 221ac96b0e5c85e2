-- ===== src/Queue/Pop.antt =====
-- `Queue::pop` and `Queue::lastSize`: the string on top goes, and the rest stays as it was.
use circle.Prelude.{
  ℕ, zero, suc, ◌-◌, ◌^◌, ◌≡◌, refl, List, [], ◌∷◌, inl, inr, ◌⊎◌, arith, length, sym, ◌+◌,
}
use circle.Buffer.{slice, length-slice}
use circle.Queue.{Status, Queue, success, failure, pop, last_size}
use circle.Queue.Layout.{Layout, contents, IsValid}

-- The queue without its top string.
abbrev pub popped : Queue → ℕ → Queue
popped q k = record q { head = q.strings.cell k; count = k }

pop-zero : (q : Queue) (c : List ℕ) → q.count ≡ 0 → pop q c ≡ (failure, c, q)
unfolding pop
pop-zero q c e = ground arith

pop-suc :
    (q : Queue) (c : List ℕ) (k : ℕ)
    → q.count ≡ suc k
    → IsValid q
    → pop q c
      ≡ (success, slice q.base.cell (q.strings.cell k) (q.head - q.strings.cell k), popped q k)
unfolding pop
pop-suc q c k e v =
    let l : Layout q.strings.cell (suc k) q.head = rw e at v.layout in
    let pred : q.count - 1 ≡ k = omega arith in rw (pred, e) (ground (arith, l.0, v.small))

popped-IsValid : (q : Queue) (k : ℕ) → q.count ≡ suc k → IsValid q → IsValid (popped q k)
popped-IsValid q k e v =
    let l : Layout q.strings.cell (suc k) q.head = rw e at v.layout in
    record {
      layout = l.1;
      base_in = omega (arith, l.0, v.base_in);
      strings_in = omega arith;
      small = omega (arith, l.0, v.small);
    }

contents-suc :
    (q : Queue) (k : ℕ)
    → q.count ≡ suc k
    → contents q
      ≡ slice q.base.cell (q.strings.cell k) (q.head - q.strings.cell k) ∷ contents (popped q k)
contents-suc q k e = rw e

contents-zero : (q : Queue) → q.count ≡ 0 → contents q ≡ []
contents-zero q e = rw e

-- What `pop` promises of its result `r` on a queue that holds `stack`.
abbrev pub Pops : Queue → List ℕ → List (List ℕ) → Status × List ℕ × Queue → Type 0
Pops q c [] r = r ≡ (failure, c, q)
Pops q c (x ∷ rest) r =
    (q1 : Queue) × (r ≡ (success, x, q1))
    × IsValid q1
    × (contents q1 ≡ rest)
    × (q1.head + length x ≡ q.head)
    × (suc q1.count ≡ q.count)

count-cases : (n : ℕ) → (n ≡ 0) ⊎ ((k : ℕ) × (n ≡ suc k))
count-cases zero = inl refl
count-cases (suc k) = inr (k, refl)

-- On an empty queue `pop` fails and changes nothing. Otherwise it succeeds, returns the string on
-- top, and leaves a valid queue of the strings below it; `head` goes back by the string's length.
pub pop-Pops : (q : Queue) (c : List ℕ) → IsValid q → Pops q c (contents q) (pop q c)
pop-Pops q c v = elim (count-cases q.count) [
  | inl e ↦ rw (contents-zero q e) (pop-zero q c e)
  | inr (k, e) ↦
      let l : Layout q.strings.cell (suc k) q.head = rw e at v.layout in
      rw (contents-suc q k e) (
        popped q k,
        pop-suc q c k e v,
        popped-IsValid q k e v,
        refl,
        omega (arith, l.0, length-slice q.base.cell (q.strings.cell k) (q.head - q.strings.cell k)),
        sym e,
      )
]

-- `lastSize` is the length of the string on top; on an empty queue it is the largest `size_t`.
pub last_size_lem :
    (q : Queue) → IsValid q → last_size q ≡ elim (contents q) [ [] ↦ 2 ^ 64 - 1 | x ∷ _ ↦ length x ]
unfolding last_size
last_size_lem q v = elim (count-cases q.count) [
  | inl e ↦ ground arith
  | inr (k, e) ↦
      let l : Layout q.strings.cell (suc k) q.head = rw e at v.layout in
      let pred : q.count - 1 ≡ k = omega arith in
      rw (contents-suc q k e, pred)
        (ground (
          arith,
          l.0,
          v.small,
          length-slice q.base.cell (q.strings.cell k) (q.head - q.strings.cell k),
        ))
]
