-- ===== src/Queue/Dump.antt =====
-- src/queue.cpp, `Queue::dump` and `Queue::print`: what they log of a queue.
use circle.Prelude.{
  ℕ, zero, suc, ◌+◌, ◌-◌, ◌≤◌, ◌<◌, ◌≡◌, ◌↔◌, true, List, [], ◌∷◌, arith, ltb, ◌==◌, if◌then◌else◌,
  elem,
}
use circle.Buffer.{slice}
use circle.Queue.{Queue}

-- `while (p++ < &base[0] + base.size())`: the indices that `*p` reads, from `p` on, on fuel.
unfoldable pub dump_loop : ℕ → ℕ → ℕ → List ℕ
dump_loop zero p size = []
dump_loop (suc fuel) p size =
    let rest = dump_loop fuel (p + 1) size in if ltb p size then (p + 1) ∷ rest else []

unfoldable pub dump : Queue → List ℕ
dump q = dump_loop (q.base.size + 1) 0 q.base.size

-- "%s": the bytes before the first NUL.
unfoldable pub string_at : List ℕ → List ℕ
string_at [] = []
string_at (c ∷ cs) = let rest = string_at cs in if c == 0 then [] else c ∷ rest

-- The loop of `print` from index `i` on, with `n` strings left: the offset, the index, the string.
unfoldable pub print_from : ℕ → ℕ → Queue → List (ℕ × ℕ × List ℕ)
print_from zero i q = []
print_from (suc n) i q =
    let off = q.strings.cell i in
    (off, i, string_at (slice q.base.cell off (q.base.size - off))) ∷ print_from n (i + 1) q

unfoldable pub print : Queue → List (ℕ × ℕ × List ℕ)
print q = print_from q.count 0 q

dump_loop-reads :
    (fuel p size j : ℕ)
    → size < p + fuel
    → (elem j (dump_loop fuel p size) ≡ true) ↔ ((p < j) × (j ≤ size))
unfolding dump_loop
dump_loop-reads zero p size j h = (λ e. cc, λ b. absurd (omega (arith, h, b)))
dump_loop-reads (suc fuel) p size j h =
    let rest = dump_loop-reads fuel (p + 1) size j (omega (arith, h)) in ground (arith, rest)

-- `dump` ends, and reads the indices from 1 to the size of the pool: not index 0, and one that is
-- past the last.
pub dump-reads : (q : Queue) (j : ℕ) → (elem j (dump q) ≡ true) ↔ ((0 < j) × (j ≤ q.base.size))
unfolding dump
dump-reads q j = dump_loop-reads (q.base.size + 1) 0 q.base.size j (omega arith)
