-- ===== src/Checkpoint/Read.antt =====
-- `Queue::read`, and a checkpoint that is read back.
use mathlib.Core.List.{reverse-cons}
use circle.Prelude.{
  ℕ, ◌+◌, ◌*◌, ◌^◌, ◌≤◌, ◌<◌, ◌≡◌, refl, ◌∙◌, ap, true, List, [], ◌∷◌, ◌++◌, reverse, append-nil,
  append_assoc, arith, length, All,
}
use circle.Queue.{Queue, success, new_queue, push}
use circle.Queue.Layout.{contents, IsValid, new_queue-IsValid, weight, weight-items, length-items}
use circle.Queue.Push.{push_lem, push_refused}
use circle.Checkpoint.{Disk, read_loop, read, write}
use circle.Checkpoint.Lines.{IsPlain, lines-text_of}
use circle.Checkpoint.Write.{write_lem}

-- The lines that are not empty, which `push` takes.
abbrev pub kept : List (List ℕ) → List (List ℕ)
kept [] = []
kept ([] ∷ ls) = kept ls
kept ((c ∷ x) ∷ ls) = (c ∷ x) ∷ kept ls

abbrev pub IsShort : List ℕ → Type 0
IsShort x = length x < 2 ^ 32

module _ (page_size : ℕ) (pages : 0 < page_size) where
  -- Reading lines pushes those that are not empty, in order: the last line ends on top.
  pub read_loop_lem :
      (ls : List (List ℕ)) (q : Queue)
      → IsValid q
      → All IsShort ls
      → q.head + weight ls + page_size * 4096 ≤ 2 ^ 64
      → q.count + length ls ≤ 2 ^ 31
      → IsValid (read_loop page_size q ls)
        × (contents (read_loop page_size q ls) ≡ reverse (kept ls) ++ contents q)
  unfolding read_loop
  read_loop_lem [] q v short room few = (v, refl)
  read_loop_lem ([] ∷ ls) q v short room few =
      let e : read_loop page_size q ([] ∷ ls) ≡ read_loop page_size q ls =
        ap (λ r. read_loop page_size r.1 ls) (push_refused page_size q [] refl) in
      rw e (read_loop_lem ls q v short.1 (omega arith) (omega arith))
  read_loop_lem ((c ∷ x) ∷ ls) q v short room few =
      let p =
        push_lem page_size pages v (c ∷ x) (omega arith) short.0 (omega arith) (omega arith) in
      let ih =
        read_loop_lem ls (push page_size q (c ∷ x)).1 p.1 short.1 (omega (arith, p.3))
          (omega (arith, p.4)) in
      (ih.0, ih.1 ∙ rw (p.2, reverse-cons, append_assoc))

  -- An item that holds no byte is never in a valid queue, so nothing that was written is skipped.
  kept-All : (ls : List (List ℕ)) → All (λ x. 0 < length x) ls → kept ls ≡ ls
  kept-All [] h = refl
  kept-All ([] ∷ ls) h = absurd (omega (arith, h.0))
  kept-All ((c ∷ x) ∷ ls) h = ap (◌∷◌ (c ∷ x)) (kept-All ls h.1)

  -- A checkpoint of a valid queue, taken with a file that can be written and read back into a new
  -- queue, gives the strings in reverse order: the one that was on top is then at the bottom. Each
  -- string has fewer than 2 ^ 32 bytes and neither a NUL nor a line end among them.
  pub read-write :
      (d : Disk)
      → d.opens ≡ true
      → ((i : ℕ) → d.prints i ≡ true)
      → d.closes ≡ true
      → (q : Queue) → IsValid q
      → 0 < q.count
      → q.count ≤ 2 ^ 31
      → q.head + page_size * 4096 ≤ 2 ^ 64
      → All IsPlain (contents q)
      → All IsShort (contents q)
      → (q2 : Queue) × (read page_size new_queue (write d q).1 ≡ (success, q2))
        × IsValid q2
        × (contents q2 ≡ reverse (contents q))
  unfolding read
  read-write d opens prints closes q v work few room plain short =
      let (q1, w, v1, empty) = write_lem d prints closes q v opens work in
      let whole = weight-items q.base.cell q.strings.cell q.count q.head v.layout in
      let number = length-items q.base.cell q.strings.cell q.count q.head in
      let loaded =
        read_loop_lem (contents q) new_queue new_queue-IsValid short (omega (arith, whole.0))
          (omega (arith, number)) in
      (
        read_loop page_size new_queue (contents q),
        rw (w, lines-text_of (contents q) plain),
        loaded.0,
        loaded.1
            ∙ append-nil (reverse (kept (contents q)))
            ∙ ap reverse (kept-All (contents q) whole.1),
      )
