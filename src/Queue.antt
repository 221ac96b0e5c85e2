-- ===== src/Queue.antt =====
-- src/queue.cpp, include/queue.hpp: `Queue`, a stack of byte strings in one pool. An operation
-- returns the new queue beside the status that the source returns as `int8_t`. `size_t` and
-- `uintptr_t` sums wrap at 2 ^ 64; `count` is an `int` that is never negative.
pub mod Grow
pub mod Dump
pub mod Layout
pub mod Room
pub mod Push
pub mod Pop
pub mod Stack
pub mod Refine
mod Tests
use circle.Prelude.{
  ℕ, zero, suc, ◌+◌, ◌-◌, ◌*◌, ◌/◌, ◌%◌, ◌^◌, Bool, List, [], ◌∷◌, ltb, ◌==◌, if◌then◌else◌, length,
  take,
}
use circle.Buffer.{Buffer, no_cells, resize, put, copy_in, slice}

-- The `int8_t` results: 0 and -1.
pub data Status : Type 0 where
  success failure : Status

pub record Queue : Type 0 where
  pub base : Buffer
  pub head : ℕ
  pub strings : Buffer
  pub count : ℕ

abbrev pub u64 : ℕ → ℕ
u64 n = n % 2 ^ 64

-- `a - b` on `size_t` and `uintptr_t`
abbrev pub sub_u64 : ℕ → ℕ → ℕ
sub_u64 a b = (a + 2 ^ 64 - b) % 2 ^ 64

-- `Queue::Queue`
abbrev pub new_queue : Queue
new_queue = record { base = no_cells; head = 0; strings = no_cells; count = 0 }

unfoldable pub get_count : Queue → ℕ
get_count q = q.count

-- `while (newSize < amount) newSize += step`, on fuel.
unfoldable pub grow : ℕ → ℕ → ℕ → ℕ → ℕ
grow zero step new_size amount = new_size
grow (suc fuel) step new_size amount =
    let rest = grow fuel step (u64 (new_size + step)) amount in
    if ltb new_size amount then rest else new_size

-- The step is 4096 / sizeof(uintptr_t) entries.
abbrev pub str_step : ℕ
str_step = 4096 / 8

unfoldable pub extend_str : Queue → ℕ → Status × Queue
extend_str q amount = (
  success,
  record q { strings = resize q.strings (grow (amount + 1) str_step q.strings.size amount) },
)

infixl 5 ◌>>=◌
abbrev pub ◌>>=◌ : Status × Queue → (Queue → Status × Queue) → Status × Queue
(success, q) >>= f = f q
(failure, q) >>= f = (failure, q)

-- The extension of the string array in `push`.
unfoldable pub reserve_str : Queue → Status × Queue
reserve_str q =
    if ltb q.strings.size (q.count + 1) then extend_str q (q.count + 1) else (success, q)

-- The writes at the end of `push`.
unfoldable pub store : Queue → List ℕ → ℕ → Queue
store q content len = record q {
  strings = put q.strings q.count q.head;
  base = copy_in q.base q.head (take len content);
  head = u64 (q.head + len);
  count = q.count + 1;
}

-- `page_size` is the result of `sysconf(_SC_PAGESIZE)`.
module _ (page_size : ℕ) where
  unfoldable pub extend : Queue → ℕ → Status × Queue
  extend q amount = (
    success,
    record q {
      base = resize q.base (grow (amount + 1) (u64 (page_size * 4096)) q.base.size amount);
    },
  )

  -- The extension of the pool by a push of `len` bytes.
  unfoldable pub reserve : Queue → ℕ → Status × Queue
  reserve q len =
      let new_bytes = u64 (q.head + len) in
      if ltb q.base.size new_bytes then extend q new_bytes else (success, q)

  -- The length is cut to 32 bits.
  unfoldable pub push : Queue → List ℕ → Status × Queue
  push q content =
      let len = length content % 2 ^ 32 in
      if len == 0
      then (failure, q)
      else (do q1 ← reserve_str q; q2 ← reserve q1 len; (success, store q2 content len))

-- `pop(std::vector<uint8_t> &content)`: the vector is left alone on failure.
unfoldable pub pop : Queue → List ℕ → Status × List ℕ × Queue
pop q content =
    let current = q.strings.cell (q.count - 1) in
    if ltb q.count 1 then (failure, content, q) else (
      success,
      slice q.base.cell current (sub_u64 q.head current),
      record q { head = current; count = q.count - 1 },
    )

-- -1 as a `size_t` on an empty queue.
unfoldable pub last_size : Queue → ℕ
last_size q = if ltb q.count 1 then 2 ^ 64 - 1 else sub_u64 q.head (q.strings.cell (q.count - 1))

-- The overloads for `std::string`. `pop` starts from an empty vector and copies it to the string
-- whatever the result is.
unfoldable pub push_string : ℕ → Queue → List ℕ → Status × Queue
push_string page_size q element = push page_size q element

unfoldable pub pop_string : Queue → List ℕ → Status × List ℕ × Queue
pop_string q element = let (result, content, q1) = pop q [] in (result, content, q1)
