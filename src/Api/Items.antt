-- ===== src/Api/Items.antt =====
-- The C interface gives back what it was given.
use circle.Prelude.{
  ℕ, ◌^◌, ◌≡◌, refl, ap, ◌∙◌, subst, true, false, List, [], ◌∷◌, some, arith, length, take_all, min,
  ◌-◌,
}
use circle.Queue.{success, Queue, pop, last_size}
use circle.Queue.Layout.{contents, IsValid}
use circle.Queue.Pop.{Pops, pop-Pops, last_size_lem}
use circle.Api.{dequeue, c_dequeue}

-- A call without a buffer tells the length of the string on top and leaves the queue alone; a call
-- with a buffer of that length then gets the string, and the queue loses it.
pub peek_then_take :
    (q : Queue) (x : List ℕ) (rest : List (List ℕ)) (capacity : ℕ)
    → IsValid q
    → contents q ≡ x ∷ rest
    → let (s, _, size, q1) = c_dequeue false (some capacity) q in
      (s ≡ success)
      × (size ≡ some (length x))
      × (q1 ≡ q)
      × (let (t, bytes, told, q2) = c_dequeue true size q1 in
          (t ≡ success) × (bytes ≡ x) × (told ≡ size) × IsValid q2 × (contents q2 ≡ rest))
unfolding c_dequeue dequeue
peek_then_take q x rest capacity v e =
    let size : last_size q ≡ length x =
      last_size_lem q v ∙ ap (λ c. elim c [ [] ↦ 2 ^ 64 - 1 | y ∷ _ ↦ length y ]) e in
    let (q1, r, v1, held, _, _) = subst (λ c. Pops q [] c (pop q [])) e (pop-Pops q [] v) in
    rw (size, r)
      (
        refl,
        refl,
        refl,
        (refl, take_all (min (length x) (length x)) x (omega arith), refl, v1, held),
      )
