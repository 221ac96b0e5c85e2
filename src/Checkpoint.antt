-- ===== src/Checkpoint.antt =====
-- src/queue.cpp, `Queue::read` and `Queue::write`, with src/circle.cpp's `readRestarts` and
-- `checkpoint`, which call them: a queue in the text file of its rank. The file is the list of its
-- bytes; the C library's part is `std::getline`, "%s\n" and what can fail (`Disk`).
pub mod Lines
pub mod Write
pub mod Read
mod Tests
use circle.Prelude.{
  ℕ, zero, suc, ◌+◌, Bool, List, [], ◌∷◌, ◌++◌, Option, none, some, ◌==◌, if◌then◌else◌,
}
use circle.Queue.{Status, success, failure, Queue, pop, push}

-- The byte that ends a line.
abbrev pub newline : ℕ
newline = 10

-- Which of the calls on the file succeed: `fopen`, the `fprintf` of the string at an index, and
-- `fclose`.
pub record Disk : Type 0 where
  pub opens : Bool
  pub prints : ℕ → Bool
  pub closes : Bool

-- What "%s" prints: the bytes before the first NUL.
unfoldable pub c_str : List ℕ → List ℕ
c_str [] = []
c_str (c ∷ cs) = let rest = c_str cs in if c == 0 then [] else c ∷ rest

-- `fprintf(checkpoint_file, "%s\n", str.c_str())`
abbrev pub line : List ℕ → List ℕ
line x = c_str x ++ newline ∷ []

-- `while (count > 0)`, with fuel above `count`. The text is what the file holds.
unfoldable pub write_loop : Disk → ℕ → Queue → List ℕ → Status × List ℕ × Queue
write_loop d zero q text = (failure, text, q)
write_loop d (suc fuel) q text =
    let (popped, content, q1) = pop q [] in
    let rest = write_loop d fuel q1 (text ++ line content) in
    let printed = if d.prints q1.count then rest else (failure, text, q1) in
    let body : Status × List ℕ × Queue = elim popped [
      | success ↦ printed
      | failure ↦ (failure, text, q1)
    ] in
    if q.count == 0 then (if d.closes then success else failure, text, q) else body

-- The second part is the file's new text, or `none` where the file is not touched.
unfoldable pub write : Disk → Queue → Status × Option (List ℕ) × Queue
write d q =
    let (s, text, q1) = write_loop d (q.count + 1) q [] in
    if q.count == 0
    then (success, none, q)
    else if d.opens
    then (s, some text, q1)
    else (failure, none, q)

cons_line : ℕ → List (List ℕ) → List (List ℕ)
cons_line c [] = (c ∷ []) ∷ []
cons_line c (l ∷ ls) = (c ∷ l) ∷ ls

-- The lines that `std::getline` returns until the end of the file.
unfoldable pub lines : List ℕ → List (List ℕ)
unfolding cons_line
lines [] = []
lines (c ∷ cs) = let rest = lines cs in if c == newline then [] ∷ rest else cons_line c rest

module _ (page_size : ℕ) where
  -- A line that cannot be pushed is reported and passed over.
  unfoldable pub read_loop : Queue → List (List ℕ) → Queue
  read_loop q [] = q
  read_loop q (l ∷ ls) = read_loop (push page_size q l).1 ls

  -- The file of the rank, or `none` if it cannot be opened.
  unfoldable pub read : Queue → Option (List ℕ) → Status × Queue
  read q none = (failure, q)
  read q (some text) = (success, read_loop q (lines text))

-- `CircleImpl::readRestarts` and `CircleImpl::checkpoint`, on the file that each rank has.
unfoldable pub read_restarts : ℕ → (ℕ → Option (List ℕ)) → ℕ → Queue → Status × Queue
read_restarts page_size files rank q = read page_size q (files rank)

unfoldable pub checkpoint :
    Disk → (ℕ → Option (List ℕ)) → ℕ → Queue → Status × (ℕ → Option (List ℕ)) × Queue
checkpoint d files rank q =
    let (s, text, q1) = write d q in
    let written : ℕ → Option (List ℕ) =
      λ r. if r == rank then elim text [ none ↦ files r | some t ↦ some t ] else files r in
    (s, written, q1)
