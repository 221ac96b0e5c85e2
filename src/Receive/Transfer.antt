-- ===== src/Receive/Transfer.antt =====
-- Work goes from one queue to another: what `sendWork` sends, `workReceive` takes in.
use native.Mathlib.Numerals.{add-two}
use native.Mathlib.Nat.{add-zero}
use native.Mathlib.Decide.{dec_lt}
use circle.Prelude.{
  ℕ, zero, suc, ◌+◌, ◌-◌, ◌*◌, ◌^◌, ◌≤◌, ◌<◌, ◌≡◌, refl, ap, sym, subst, ◌∙◌, inl, inr, List, ◌∷◌,
  ◌++◌, some, arith, get_or, ltb, Bool-cases, ltb→lt, ltb→le,
}
use circle.Buffer.{Buffer, slice, put, copy_in, get_or-slice, length-slice}
use circle.Queue.{Queue, sub_u64, u64}
use circle.Queue.Layout.{Layout, Layout-lt, Layout-mono, items, contents, IsValid}
use circle.Queue.Room.{Extends, Extends-refl, Extends-trans, extend-Extends, extend_str-Extends}
use circle.Work.{to_int, send_offsets, without_last}
use circle.Receive.{sign_extend, set_offsets, room_base, room_strings, take_in}
use circle.Receive.Split.{items_split, Layout-split, Layout-rest}

get_or-send_offsets :
    (s : ℕ → ℕ) (start i n j : ℕ)
    → j < n
    → get_or (send_offsets s start i n) j 0 ≡ to_int (sub_u64 (s (i + j)) start)
unfolding send_offsets
get_or-send_offsets s start i zero j h = absurd (omega arith)
get_or-send_offsets s start i (suc n) zero h = let e : i + 0 ≡ i = omega arith in rw e
get_or-send_offsets s start i (suc n) (suc j) h =
    get_or-send_offsets s start (i + 1) n j (omega arith)
    ∙ ap (λ x. to_int (sub_u64 (s x) start)) (omega arith)

set_offsets-below :
    (b : Buffer) (ints : List ℕ) (i n j : ℕ) → j < i → (set_offsets b ints i n).cell j ≡ b.cell j
unfolding set_offsets
set_offsets-below b ints i zero j h = refl
set_offsets-below b ints i (suc n) j h =
    set_offsets-below (put b i (sign_extend (get_or ints (i + 2) 0))) ints (i + 1) n j (omega arith)
    ∙ ground arith

-- The entries that the loop has written.
set_offsets-cell :
    (b : Buffer) (ints : List ℕ) (i n j : ℕ)
    → i ≤ j
    → j < i + n
    → (set_offsets b ints i n).cell j ≡ sign_extend (get_or ints (j + 2) 0)
unfolding set_offsets
set_offsets-cell b ints i zero j lo hi = absurd (omega arith)
set_offsets-cell b ints i (suc n) j lo hi = elim (dec_lt i j) [
  | yes later ↦
      set_offsets-cell (put b i (sign_extend (get_or ints (i + 2) 0))) ints (i + 1) n j
        (omega arith) (omega arith)
  | no first ↦
      let e : j ≡ i = omega arith in
      rw e (
        set_offsets-below (put b i (sign_extend (get_or ints (i + 2) 0))) ints (i + 1) n i
          (omega arith)
        ∙ ground arith)
]

set_offsets-size : (b : Buffer) (ints : List ℕ) (i n : ℕ) → (set_offsets b ints i n).size ≡ b.size
unfolding set_offsets
set_offsets-size b ints i zero = refl
set_offsets-size b ints i (suc n) =
    set_offsets-size (put b i (sign_extend (get_or ints (i + 2) 0))) ints (i + 1) n

room_strings-Extends :
    (q : Queue) (count : ℕ)
    → count < 2 ^ 31
    → Extends q (room_strings q count) × (count ≤ (room_strings q count).strings.size)
unfolding room_strings
room_strings-Extends q count small = elim (Bool-cases (ltb q.strings.size count)) [
  | inl more ↦ let x = extend_str-Extends q count (omega arith) in rw more (x.1, x.2)
  | inr enough ↦ rw enough (Extends-refl q, ltb→le _ _ enough)
]

module _ (page_size : ℕ) (pages : 0 < page_size) where
  room_base-Extends :
      (q : Queue) (bytes : ℕ)
      → bytes < 2 ^ 31
      → q.head ≡ 0
      → 2 ^ 31 + page_size * 4096 ≤ 2 ^ 64
      → Extends q (room_base page_size q bytes) × (bytes ≤ (room_base page_size q bytes).base.size)
  unfolding room_base
  room_base-Extends q bytes small e room =
      let n : u64 (q.head + sign_extend bytes) ≡ bytes = ground arith in
      rw n (elim (Bool-cases (ltb q.base.size bytes)) [
        | inl more ↦
            let x =
              extend-Extends page_size pages q bytes (omega (arith, ltb→lt _ _ more))
                (omega arith) in
            rw more (x.1, x.2)
        | inr enough ↦ rw enough (Extends-refl q, ltb→le _ _ enough)
      ])

  -- `q` takes in the last `k` strings of `s`.
  module _ (s q : Queue) (k : ℕ) (v : IsValid s) (some_work : 0 < k) (in_queue : k ≤ s.count)
      (few : s.count < 2 ^ 31) (small : s.head < 2 ^ 31) (fresh : q.head ≡ 0)
      (room : 2 ^ 31 + page_size * 4096 ≤ 2 ^ 64) where
    abbrev pub first : ℕ
    first = s.count - k

    abbrev pub from : ℕ
    from = s.strings.cell first

    abbrev pub reply : List ℕ
    reply = to_int k ∷ to_int (sub_u64 s.head from) ∷ send_offsets s.strings.cell from first k

    abbrev pub chars : List ℕ
    chars = slice s.base.cell from (to_int (sub_u64 s.head from))

    abbrev pub larger : Queue
    larger = room_strings (room_base page_size q (to_int (sub_u64 s.head from))) (to_int k)

    abbrev pub taken : Queue
    taken = record {
      base = copy_in larger.base 0 chars;
      head = u64 (larger.head + sign_extend (to_int (sub_u64 s.head from)));
      strings = set_offsets larger.strings reply 0 (to_int k);
      count = to_int k;
    }

    from-lt : from < s.head
    from-lt = Layout-lt s.strings.cell s.count s.head first v.layout (omega arith)

    pub count-eq : to_int k ≡ k
    count-eq = omega arith

    bytes-eq : to_int (sub_u64 s.head from) ≡ s.head - from
    bytes-eq = omega (arith, from-lt)

    larger-room : Extends q larger × (s.head - from ≤ larger.base.size) × (k ≤ larger.strings.size)
    larger-room =
        let one =
          room_base-Extends q (to_int (sub_u64 s.head from)) (omega (arith, bytes-eq)) fresh room in
        let two =
          room_strings-Extends (room_base page_size q (to_int (sub_u64 s.head from))) (to_int k)
            (omega arith) in
        (
          Extends-trans one.0 two.0,
          omega (arith, one.1, two.0.base_size, bytes-eq),
          omega (arith, two.1),
        )

    from-le : (i : ℕ) → i < k → from ≤ s.strings.cell (first + i)
    from-le zero h = omega (arith, ap s.strings.cell (add-zero first))
    from-le (suc i) h = omega (
      arith,
      Layout-mono s.strings.cell s.count s.head first (first + suc i) v.layout (omega arith)
          (omega arith),
    )

    taken-strings : (i : ℕ) → i < k → taken.strings.cell i ≡ s.strings.cell (first + i) - from
    taken-strings i h =
        let below = Layout-lt s.strings.cell s.count s.head (first + i) v.layout (omega arith) in
        let low = from-le i h in
        let entry =
          set_offsets-cell larger.strings reply 0 (to_int k) i (omega arith) (omega arith) in
        let sent = get_or-send_offsets s.strings.cell from first k i h in
        entry ∙ rw (add-two, sent) (ground (arith, below, low))

    taken-base : (j : ℕ) → j < s.head - from → taken.base.cell j ≡ s.base.cell (from + j)
    taken-base j h =
        let n = length-slice s.base.cell from (to_int (sub_u64 s.head from)) in
        let c =
          get_or-slice s.base.cell from (to_int (sub_u64 s.head from)) j
            (omega (arith, bytes-eq)) in
        ground (arith, n, c, bytes-eq)

    head-eq : taken.head ≡ s.head - from
    head-eq = ground (arith, larger-room.0.head_same, bytes-eq)

    pub take_in-taken : take_in page_size q reply chars ≡ some taken
    unfolding take_in
    take_in-taken =
        let start : taken.strings.cell 0 ≡ 0 =
          taken-strings 0 some_work ∙ omega (arith, ap s.strings.cell (add-zero first)) in
        ground (arith, start)

    -- A first string is moved, so the case of no string does not arise.
    not-empty : k ≡ 0 → s.head ≡ from
    not-empty e = absurd (omega arith)

    pub taken-IsValid : IsValid taken
    taken-IsValid = record {
      layout =
          subst (λ n. Layout taken.strings.cell n taken.head) (sym count-eq)
            (subst (λ e. Layout taken.strings.cell k e) (sym head-eq)
              (Layout-split s.base.cell taken.base.cell s.strings.cell taken.strings.cell first k
                s.count s.head (omega arith) not-empty v.layout taken-strings));
      base_in = omega (arith, head-eq, larger-room.1);
      strings_in =
          omega
            (arith, set_offsets-size larger.strings reply 0 (to_int k), larger-room.2, count-eq);
      small = omega (arith, head-eq);
    }

    -- The strings of `s` are those of `taken` on top of what `s` keeps.
    pub taken-contents : contents s ≡ contents taken ++ contents (without_last s k)
    unfolding without_last
    taken-contents =
        items_split s.base.cell taken.base.cell s.strings.cell taken.strings.cell first k s.count
          s.head (omega arith) not-empty v.layout taken-base taken-strings
        ∙ ap (λ e. items taken.base.cell taken.strings.cell k e ++ contents (without_last s k))
            (sym head-eq)
        ∙ ap
            (λ n.
              items taken.base.cell taken.strings.cell n taken.head ++ contents (without_last s k))
            (sym count-eq)

    pub rest-IsValid : IsValid (without_last s k)
    unfolding without_last
    rest-IsValid =
        let k' : suc (k - 1) ≡ k = omega arith in
        record {
          layout =
              Layout-rest s.base.cell taken.base.cell s.strings.cell taken.strings.cell first
                (k - 1) s.count s.head (omega arith) v.layout;
          base_in = omega (arith, from-lt, v.base_in);
          strings_in = omega (arith, v.strings_in);
          small = omega (arith, from-lt);
        }
