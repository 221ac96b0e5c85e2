-- ===== src/Checkpoint/Write.antt =====
-- `Queue::write`: the strings go to the file from the top of the stack down, and the queue is empty
-- afterwards.
use circle.Prelude.{
  ℕ, zero, suc, ◌+◌, ◌<◌, ◌≡◌, refl, ◌∙◌, ap, sym, true, false, List, [], ◌∷◌, ◌++◌, none, some,
  append-nil, append_assoc, arith, length, ne→==,
}
use circle.Queue.{Status, success, failure, Queue, pop}
use circle.Queue.Layout.{contents, IsValid, length-items}
use circle.Queue.Pop.{Pops, pop-Pops}
use circle.Checkpoint.{Disk, line, write_loop, write}
use circle.Checkpoint.Lines.{text_of}

-- The loop has written `stack` behind `text`, and the queue is empty.
abbrev Wrote : List ℕ → List (List ℕ) → Status × List ℕ × Queue → Type 0
Wrote text stack r =
    (q1 : Queue) × (r ≡ (success, text ++ text_of stack, q1)) × IsValid q1 × (contents q1 ≡ [])

-- The disk takes every string, and the file is closed without an error.
module _ (d : Disk) (prints : (i : ℕ) → d.prints i ≡ true) (closes : d.closes ≡ true) where
  write_loop_step :
      (fuel : ℕ) (q : Queue) (text : List ℕ) (stack : List (List ℕ))
      → Pops q [] stack (pop q [])
      → IsValid q
      → contents q ≡ stack
      → ((q1 : Queue) (t : List ℕ)
          → IsValid q1
          → suc q1.count ≡ q.count
          → Wrote t (contents q1) (write_loop d fuel q1 t))
      → Wrote text stack (write_loop d (suc fuel) q text)
  unfolding write_loop
  write_loop_step fuel q text [] p v e ih =
      let n : q.count ≡ 0 =
        sym (length-items q.base.cell q.strings.cell q.count q.head) ∙ ap length e in
      (q, ground (arith, append-nil text), v, e)
  write_loop_step fuel q text (x ∷ stack) (q1, r, v1, held, head, count) v e ih =
      let (q2, w, v2, empty) = ih q1 (text ++ line x) v1 count in
      let w1 : write_loop d fuel q1 (text ++ line x)
          ≡ (success, text ++ (line x ++ text_of stack), q2) =
        rw (w, held, append_assoc) in
      (q2, ground (arith, r, prints q1.count, w1), v2, empty)

  write_loop_lem :
      (fuel : ℕ) (q : Queue) (text : List ℕ)
      → IsValid q
      → q.count < fuel
      → Wrote text (contents q) (write_loop d fuel q text)
  write_loop_lem zero q text v h = absurd (omega arith)
  write_loop_lem (suc fuel) q text v h =
      write_loop_step fuel q text (contents q) (pop-Pops q [] v) v refl
        λ q1 t v1 c. write_loop_lem fuel q1 t v1 (omega arith)

  -- With a file that opens, a queue that is not empty is written out whole, top first, one line for
  -- each string, and it is empty and valid afterwards.
  pub write_lem :
      (q : Queue)
      → IsValid q
      → d.opens ≡ true
      → 0 < q.count
      → (q1 : Queue) × (write d q ≡ (success, some (text_of (contents q)), q1))
        × IsValid q1
        × (contents q1 ≡ [])
  unfolding write
  write_lem q v opens some_work =
      let (q1, w, v1, empty) = write_loop_lem (q.count + 1) q [] v (omega arith) in
      (q1, rw (w, ne→== q.count 0 (omega arith), opens), v1, empty)

-- The file is not touched on an empty queue, and a file that does not open loses nothing.
pub write_nothing :
    (d : Disk) (q : Queue)
    → ((q.count ≡ 0) → write d q ≡ (success, none, q))
      × ((0 < q.count) → d.opens ≡ false → write d q ≡ (failure, none, q))
unfolding write
write_nothing d q = (λ e. ground arith, λ h e. ground arith)
