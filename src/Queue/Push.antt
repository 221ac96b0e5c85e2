-- ===== src/Queue/Push.antt =====
-- `Queue::push`: the writes are in bounds, and the string is on top afterwards.
use native.Mathlib.Numerals.{add-one}
use circle.Prelude.{
  ℕ, ◌+◌, ◌*◌, ◌%◌, ◌^◌, ◌≤◌, ◌<◌, ◌≡◌, refl, ◌∙◌, ap, List, ◌∷◌, arith, length, take_all,
}
use circle.Buffer.{slice-copy_in, put, copy_in}
use circle.Queue.{Queue, success, failure, reserve_str, reserve, store, push}
use circle.Queue.Layout.{contents, IsValid, Layout-agree, items_agree}
use circle.Queue.Room.{
  Extends, Extends-trans, Extends-contents, Extends-IsValid, reserve_str-Extends, reserve-Extends,
}

-- With room for it, the string goes on top.
module _ {q : Queue} (v : IsValid q) (x : List ℕ) (pos : 0 < length x)
    (base_room : q.head + length x ≤ q.base.size) (strings_room : q.count < q.strings.size)
    (no_wrap : q.head + length x < 2 ^ 64) where
  store-contents : contents (store q x (length x)) ≡ x ∷ contents q
  unfolding store
  store-contents =
      rw (take_all (length x) x (omega arith), add-one)
        (ground (
          arith,
          slice-copy_in q.base q.head x,
          items_agree q.base.cell (copy_in q.base q.head x).cell q.strings.cell
              (put q.strings q.count q.head).cell q.count q.head (λ j lt. ground arith)
              (λ j lt. ground arith) v.layout,
        ))

  store-IsValid : IsValid (store q x (length x))
  unfolding store
  store-IsValid = record {
    layout = rw add-one (
        ground (
          arith,
          Layout-agree q.strings.cell (put q.strings q.count q.head).cell q.count q.head
              (λ j lt. ground arith) v.layout,
        ));
    base_in = omega (arith, v.base_in);
    strings_in = omega arith;
    small = omega arith;
  }

-- What `push` is for a string of 1 to 2 ^ 32 - 1 bytes: two reservations, then the writes.
module _ (page_size : ℕ) (pages : 0 < page_size) {q : Queue} (v : IsValid q) (x : List ℕ)
    (pos : 0 < length x) (short : length x < 2 ^ 32) (few : q.count < 2 ^ 31)
    (room : q.head + length x + page_size * 4096 ≤ 2 ^ 64) where
  abbrev pub grown : Queue
  grown = (reserve page_size (reserve_str q).1 (length x)).1

  made_str :
      ((reserve_str q).0 ≡ success)
      × Extends q (reserve_str q).1
      × (q.count < (reserve_str q).1.strings.size)
  made_str = reserve_str-Extends q few

  made :
      ((reserve page_size (reserve_str q).1 (length x)).0 ≡ success)
      × Extends (reserve_str q).1 grown
      × ((reserve_str q).1.head + length x ≤ grown.base.size)
  made =
      reserve-Extends page_size pages (reserve_str q).1 (length x) pos
        (omega (arith, made_str.1.head_same))

  push-eq-store : push page_size q x ≡ (success, store grown x (length x))
  unfolding push
  push-eq-store = ground (arith, made_str.0, made.0)

  grown-Extends : Extends q grown
  grown-Extends = Extends-trans made_str.1 made.1

  -- The memory that `push` writes to is there: entry `count` of the string array, and the bytes
  -- from `head` on.
  pub push_in_bounds :
      (grown.count < grown.strings.size) × (grown.head + length x ≤ grown.base.size)
  push_in_bounds = (
    omega (arith, made_str.2, made.1.strings_size, grown-Extends.count_same),
    omega (arith, made.2, made.1.head_same),
  )

  -- A string of 1 to 2 ^ 32 - 1 bytes is pushed on top of what a valid queue holds, and the queue
  -- stays valid; `head` moves by the string's length and `count` by one.
  pub push_lem :
      ((push page_size q x).0 ≡ success)
      × IsValid (push page_size q x).1
      × (contents (push page_size q x).1 ≡ x ∷ contents q)
      × ((push page_size q x).1.head ≡ q.head + length x)
      × ((push page_size q x).1.count ≡ q.count + 1)
  unfolding store
  push_lem =
      let w = Extends-IsValid v grown-Extends in
      let wrap : grown.head + length x < 2 ^ 64 = omega (arith, grown-Extends.head_same) in
      rw push-eq-store (
        refl,
        store-IsValid w x pos push_in_bounds.1 push_in_bounds.0 wrap,
        store-contents w x pos push_in_bounds.1 push_in_bounds.0 wrap
            ∙ ap (◌∷◌ x) (Extends-contents v grown-Extends),
        omega (arith, grown-Extends.head_same),
        omega (arith, grown-Extends.count_same),
      )

-- What `push` refuses: the empty string, and one whose length is a multiple of 2 ^ 32.
pub push_refused :
    (page_size : ℕ) (q : Queue) (x : List ℕ)
    → length x % 2 ^ 32 ≡ 0
    → push page_size q x ≡ (failure, q)
unfolding push
push_refused page_size q x e = ground arith
