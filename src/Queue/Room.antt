-- ===== src/Queue/Room.antt =====
-- `Queue::extendStr` and `Queue::extend`: they make room, and the queue holds what it held.
use circle.Prelude.{
  ℕ, ◌+◌, ◌*◌, ◌^◌, ◌≤◌, ◌<◌, ◌≡◌, refl, sym, ◌∙◌, inl, inr, arith, ltb, Bool-cases, ltb→le,
}
use circle.Buffer.{resize}
use circle.Queue.{Queue, success, u64, str_step, extend_str, extend, reserve_str, reserve}
use circle.Queue.Grow.{grow_bounds}
use circle.Queue.Layout.{contents, IsValid, Layout-agree, items_agree}

-- `r` is `q` in larger memory.
pub record Extends (q r : Queue) : Type 0 where
  pub head_same : r.head ≡ q.head
  pub count_same : r.count ≡ q.count
  pub base_size : q.base.size ≤ r.base.size
  pub strings_size : q.strings.size ≤ r.strings.size
  pub base_cell : (j : ℕ) → j < q.base.size → q.base.cell j ≡ r.base.cell j
  pub strings_cell : (j : ℕ) → j < q.strings.size → q.strings.cell j ≡ r.strings.cell j

pub Extends-refl : (q : Queue) → Extends q q
Extends-refl q = record {
  head_same = refl;
  count_same = refl;
  base_size = omega arith;
  strings_size = omega arith;
  base_cell = λ j lt. refl;
  strings_cell = λ j lt. refl;
}

pub Extends-trans : {q r t : Queue} → Extends q r → Extends r t → Extends q t
Extends-trans x y = record {
  head_same = y.head_same ∙ x.head_same;
  count_same = y.count_same ∙ x.count_same;
  base_size = omega arith;
  strings_size = omega arith;
  base_cell = λ j lt. x.base_cell j lt ∙ y.base_cell j (omega arith);
  strings_cell = λ j lt. x.strings_cell j lt ∙ y.strings_cell j (omega arith);
}

pub Extends-contents : {q r : Queue} → IsValid q → Extends q r → contents r ≡ contents q
Extends-contents {q} {r} v x =
    rw (x.count_same, x.head_same)
      (sym (
        items_agree q.base.cell r.base.cell q.strings.cell r.strings.cell q.count q.head
          (λ j lt. x.base_cell j (omega (arith, v.base_in)))
          (λ j lt. x.strings_cell j (omega (arith, v.strings_in))) v.layout))

pub Extends-IsValid : {q r : Queue} → IsValid q → Extends q r → IsValid r
Extends-IsValid {q} {r} v x = record {
  layout =
      rw (x.count_same, x.head_same)
        (Layout-agree q.strings.cell r.strings.cell q.count q.head
          (λ j lt. x.strings_cell j (omega (arith, v.strings_in))) v.layout);
  base_in = omega arith;
  strings_in = omega arith;
  small = omega arith;
}

resize_strings-Extends :
    (q : Queue) (n : ℕ) → q.strings.size ≤ n → Extends q (record q { strings = resize q.strings n })
resize_strings-Extends q n hn = record {
  head_same = refl;
  count_same = refl;
  base_size = omega arith;
  strings_size = hn;
  base_cell = λ j lt. refl;
  strings_cell = λ j lt. ground arith;
}

resize_base-Extends :
    (q : Queue) (n : ℕ) → q.base.size ≤ n → Extends q (record q { base = resize q.base n })
resize_base-Extends q n hn = record {
  head_same = refl;
  count_same = refl;
  base_size = hn;
  strings_size = omega arith;
  base_cell = λ j lt. ground arith;
  strings_cell = λ j lt. refl;
}

-- `extendStr` succeeds, covers the amount and keeps what the queue holds.
pub extend_str-Extends :
    (q : Queue) (amount : ℕ)
    → amount + str_step ≤ 2 ^ 64
    → ((extend_str q amount).0 ≡ success)
      × Extends q (extend_str q amount).1
      × (amount ≤ (extend_str q amount).1.strings.size)
unfolding extend_str
extend_str-Extends q amount room =
    let b =
      grow_bounds (amount + 1) str_step q.strings.size amount (omega arith) room (omega arith) in
    (refl, resize_strings-Extends q _ b.1, b.0)

pub reserve_str-Extends :
    (q : Queue)
    → q.count < 2 ^ 31
    → ((reserve_str q).0 ≡ success)
      × Extends q (reserve_str q).1
      × (q.count < (reserve_str q).1.strings.size)
unfolding reserve_str
reserve_str-Extends q small = elim (Bool-cases (ltb q.strings.size (q.count + 1))) [
  | inl more ↦
      let x = extend_str-Extends q (q.count + 1) (omega arith) in
      rw more (x.0, x.1, omega (arith, x.2))
  | inr enough ↦ rw enough (refl, Extends-refl q, omega (arith, ltb→le _ _ enough))
]

-- `page_size` is positive, and one more block of pages above `amount` is addressable.
module _ (page_size : ℕ) (pages : 0 < page_size) where
  -- `extend` succeeds, covers the amount and keeps what the queue holds.
  pub extend-Extends :
      (q : Queue) (amount : ℕ)
      → 0 < amount
      → amount + page_size * 4096 ≤ 2 ^ 64
      → ((extend page_size q amount).0 ≡ success)
        × Extends q (extend page_size q amount).1
        × (amount ≤ (extend page_size q amount).1.base.size)
  unfolding extend
  extend-Extends q amount pos room =
      let b =
        grow_bounds (amount + 1) (u64 (page_size * 4096)) q.base.size amount (omega arith)
          (omega arith) (omega arith) in
      (refl, resize_base-Extends q _ b.1, b.0)

  pub reserve-Extends :
      (q : Queue) (len : ℕ)
      → 0 < len
      → q.head + len + page_size * 4096 ≤ 2 ^ 64
      → ((reserve page_size q len).0 ≡ success)
        × Extends q (reserve page_size q len).1
        × (q.head + len ≤ (reserve page_size q len).1.base.size)
  unfolding reserve
  reserve-Extends q len pos room = elim (Bool-cases (ltb q.base.size (u64 (q.head + len)))) [
    | inl more ↦
        let x = extend-Extends q (u64 (q.head + len)) (omega arith) (omega arith) in
        rw more (x.0, x.1, omega (arith, x.2))
    | inr enough ↦ rw enough (refl, Extends-refl q, omega (arith, ltb→le _ _ enough))
  ]
