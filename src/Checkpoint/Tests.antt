-- ===== src/Checkpoint/Tests.antt =====
-- Tests of the checkpoints, on the strings "ab" and "c".
use circle.Prelude.{ℕ, ◌≡◌, refl, List, [], ◌∷◌, reverse, arith}
use circle.Queue.{Queue, success, new_queue}
use circle.Queue.Layout.{contents, IsValid}
use circle.Checkpoint.{write, read}
use circle.Checkpoint.Read.{read-write}
use circle.Examples.{two_items, two_items-IsValid, good_disk}

abbrev two_lines : List (List ℕ)
two_lines = (97 ∷ []) ∷ [] ∷ (98 ∷ 99 ∷ []) ∷ []

read-write_example :
    (q2 : Queue) × (read 1 new_queue (write good_disk two_items).1 ≡ (success, q2))
    × IsValid q2
    × (contents q2 ≡ reverse (contents two_items))
unfolding circle.Buffer.slice
read-write_example =
    read-write 1 (omega arith) good_disk refl (λ i. refl) refl two_items two_items-IsValid
      (omega arith) (omega arith) (omega arith)
      (
        ((λ e. absurd (omega (arith, e)), λ e. absurd (omega (arith, e))), tt),
        (
          (
            (λ e. absurd (omega (arith, e)), λ e. absurd (omega (arith, e))),
            ((λ e. absurd (omega (arith, e)), λ e. absurd (omega (arith, e))), tt),
          ),
          tt,
        ),
      )
      (omega arith, (omega arith, tt))
