-- ===== src/Term/Completes.antt =====
-- The termination allreduce ends: with no transfer outstanding, calls can bring it to an end on all
-- ranks.
use circle.Prelude.{
  ℕ, zero, suc, ◌+◌, ◌≤◌, ◌<◌, ◌≡◌, inl, inr, refl, ◌∙◌, Bool, true, false, ◌||◌, List, [], ◌∷◌,
  Option, none, some, arith, length, update_all,
}
use circle.Term.System.{Terms, checked, reply_of, IsTold, Reach, checks, next}
use circle.Term.Moves.{is_some, is_root, check-outstanding}
use circle.Term.Invariant.{Inv, view, call_lem}
use circle.Term.Safety.{Reach-Inv}
use circle.Gather.Amount.{amount_of, amount, most, amount-le-most, amount-grows}
use circle.Gather.Mail.{Mail, flags_from, get_all, lengths, IsThere}
use circle.Gather.Moves.{Told}
use circle.Gather.Shape.{tree_parent, tree_kids, children-IsTree}
use circle.Gather.Progress.{Enabled, can_take, can_go, can_leave, Reaches-progress}

-- Calls one after another, on ranks that have not finished.
pub data Checks (size k : ℕ) (u : Terms) : Terms → Type 0 where
  stop : Checks size k u u
  check :
      {w : Terms} (i : ℕ) (cs : List ℕ) (told : Bool)
      → i < size
      → w.finished i ≡ false
      → (w.terms i).term_replies + length cs ≤ length (tree_kids size k i)
      → IsThere i cs w.mail
      → IsTold (tree_parent size k i) i told (get_all i cs w.mail)
      → Checks size k u (checked size k w i cs told)
      → Checks size k u w

unheard-IsTold : (o : Option ℕ) (i : ℕ) (mail : Mail) → IsTold o i false mail
unheard-IsTold none i mail = tt
unheard-IsTold (some p) i mail = tt

Told-IsTold : (o : Option ℕ) (i : ℕ) (mail : Mail) → Told i o (lengths mail) → IsTold o i true mail
Told-IsTold none i mail told = tt
Told-IsTold (some p) i mail told = told

has_reply :
    (o : Option ℕ) (i : ℕ) (mail : Mail) → is_root o || is_some (reply_of o i true mail) ≡ true
has_reply none i mail = refl
has_reply (some p) i mail = refl

module _ (size k : ℕ) (pos : 0 < k) where
  -- A call on an enabled rank gets on.
  helps :
      (w : Terms) (i : ℕ)
      → Inv size k pos w
      → w.finished i ≡ false
      → (w.terms i).work_outstanding ≡ 0
      → Enabled (tree_parent size k i) (length (tree_kids size k i)) i (view w)
      → (cs : List ℕ) × (told : Bool) × ((w.terms i).term_replies + length cs
          ≤ length (tree_kids size k i))
        × IsThere i cs w.mail
        × IsTold (tree_parent size k i) i told (get_all i cs w.mail)
        × (amount_of size (tree_kids size k) (view w) i
            < amount_of size (tree_kids size k) (view (checked size k w i cs told)) i)
  helps w i v stays idle (can_take c fewer there) =
      let o = v.open_terms i in
      let quiet = unheard-IsTold (tree_parent size k i) i (get_all i (c ∷ []) w.mail) in
      let room : (w.terms i).term_replies + length (c ∷ []) ≤ length (tree_kids size k i) =
        omega (arith, fewer) in
      let l = call_lem size k pos w i (c ∷ []) false v room quiet in
      (c ∷ [], false, room, (there, tt), quiet, ground (arith, stays, l.1, o.few, o.all_in, fewer))
  helps w i v stays idle (can_go down full) =
      let o = v.open_terms i in
      let quiet = unheard-IsTold (tree_parent size k i) i w.mail in
      let room : (w.terms i).term_replies + length {A = ℕ} [] ≤ length (tree_kids size k i) =
        omega (arith, full) in
      let l = call_lem size k pos w i [] false v room quiet in
      ([], false, room, tt, quiet, ground (arith, stays, l.1, o.few, down, full, idle))
  helps w i v stays idle (can_leave up told) =
      let o = v.open_terms i in
      let said = Told-IsTold (tree_parent size k i) i w.mail told in
      let room : (w.terms i).term_replies + length {A = ℕ} [] ≤ length (tree_kids size k i) =
        omega (arith, o.few) in
      let l = call_lem size k pos w i [] true v room said in
      let reply = has_reply (tree_parent size k i) i w.mail in
      ([], true, room, tt, said, ground (arith, stays, l.0, o.few, up, idle, reply))

  checked-grows :
      (w : Terms) (i : ℕ) (cs : List ℕ) (told : Bool)
      → i < size
      → amount_of size (tree_kids size k) (view w) i
        < amount_of size (tree_kids size k) (view (checked size k w i cs told)) i
      → amount size (tree_kids size k) (view w)
        < amount size (tree_kids size k) (view (checked size k w i cs told))
  checked-grows w i cs told lt more =
      amount-grows size (tree_kids size k) (view w) (view (checked size k w i cs told)) i lt
        (λ j ne. ground (arith, ne)) more

  finish_from :
      (n : ℕ) (w : Terms)
      → Reach size k w
      → ((j : ℕ) → (w.terms j).work_outstanding ≡ 0)
      → most size (tree_kids size k) < amount size (tree_kids size k) (view w) + n
      → (u : Terms) × Checks size k u w × ((j : ℕ) → j < size → u.finished j ≡ true)
  finish_from zero w r idle few = absurd (
      omega (
        arith,
        few,
        amount-le-most size (tree_kids size k) (view w)
            (λ i. ((Reach-Inv size k pos r).open_terms i).few),
      ))
  finish_from (suc n) w r idle few =
      let v = Reach-Inv size k pos r in
      elim (Reaches-progress (children-IsTree size k pos) (view w) v.moves) [
        | inl done ↦ (w, stop, done)
        | inr (i, lt, stays, can) ↦
            let (cs, told, room, there, said, more) = helps w i v stays (idle i) can in
            let w1 = checked size k w i cs told in
            let idle1 : (j : ℕ) → (w1.terms j).work_outstanding ≡ 0 =
              update_all (λ j t. t.work_outstanding ≡ 0) w.terms i _
                (check-outstanding (tree_parent size k i) (tree_kids size k i) (w.terms i)
                    (flags_from i cs w.mail)
                    (reply_of (tree_parent size k i) i told (get_all i cs w.mail))
                  ∙ idle i)
                idle in
            let (u, path, done) =
              finish_from n w1 (next r (checks i cs told lt stays room there said)) idle1
                (omega (arith, few, checked-grows w i cs told lt more)) in
            (u, check i cs told lt stays room there said path, done)
      ]

-- From every state that a job reaches and in which no rank has a work transfer outstanding, there
-- are calls, with flags that have been sent, after which the allreduce has reported termination to
-- every rank: no rank is stuck, and no flag is missing. The tree has a positive width.
pub all_terminate :
    (size k : ℕ) (w : Terms)
    → 0 < k
    → Reach size k w
    → ((j : ℕ) → (w.terms j).work_outstanding ≡ 0)
    → (u : Terms) × Checks size k u w × ((j : ℕ) → j < size → u.finished j ≡ true)
all_terminate size k w pos r idle =
    finish_from size k pos (suc (most size (tree_kids size k))) w r idle (omega arith)
