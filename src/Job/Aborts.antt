-- ===== src/Job/Aborts.antt =====
-- After `abortReduce` all ranks agree on the abort flag.
use circle.Prelude.{
  elem, ℕ, ◌≡◌, refl, sym, ap, subst, ◌∙◌, Bool, true, false, ◌||◌, List, [], ◌∷◌, none, some,
  arith,
}
use circle.State.{Message, Send, to_children}
use circle.Abort.{abort_reduce, join_flags}
use circle.Job.{
  Subtree, Subtrees, node, no_more, child, root, roots, first_flag, flag_for, abort_up, abort_flags,
  abort_all, abort_below,
}

-- Does a rank have the flag?
abbrev mutual
  pub any_aborted : Subtree → Bool
  any_aborted (node s kids) = s.aborts.abort_flag || any_aborted_below kids

  pub any_aborted_below : Subtrees → Bool
  any_aborted_below no_more = false
  any_aborted_below (child t ts) = any_aborted t || any_aborted_below ts

abbrev mutual
  pub EveryFlag : Bool → Subtree → Type 0
  EveryFlag b (node s kids) =
      (s.aborts.abort_flag ≡ b) × (s.aborts.abort_state ≡ b) × EveryFlagBelow b kids

  pub EveryFlagBelow : Bool → Subtrees → Type 0
  EveryFlagBelow b no_more = Unit
  EveryFlagBelow b (child t ts) = EveryFlag b t × EveryFlagBelow b ts

or_assoc : (a b c : Bool) → (a || b) || c ≡ a || (b || c)
or_assoc true b c = refl
or_assoc false b c = refl

mutual
  unfolding abort_up abort_reduce join_flags

  first_flag-abort_up : (parent : ℕ) (t : Subtree) → first_flag (abort_up parent t) ≡ any_aborted t
  first_flag-abort_up parent (node s kids) = join_flags-abort_flags s.rank kids s.aborts.abort_flag

  join_flags-abort_flags :
      (parent : ℕ) (ts : Subtrees) (flag : Bool)
      → join_flags flag (abort_flags parent ts) ≡ flag || any_aborted_below ts
  join_flags-abort_flags parent no_more true = refl
  join_flags-abort_flags parent no_more false = refl
  join_flags-abort_flags parent (child t ts) flag =
      join_flags-abort_flags parent ts (flag || first_flag (abort_up parent t))
      ∙ ap (λ f. (flag || f) || any_aborted_below ts) (first_flag-abort_up parent t)
      ∙ or_assoc flag (any_aborted t) (any_aborted_below ts)

flag_for-kept :
    (r : ℕ) (kids : List ℕ) (flag : Bool)
    → flag_for r (to_children kids (Message.abort_reduce flag)) flag ≡ flag
flag_for-kept r [] flag = refl
flag_for-kept r (k ∷ kids) flag = ground (arith, flag_for-kept r kids flag)

flag_for-to_children :
    (r : ℕ) (kids : List ℕ) (flag other : Bool)
    → elem r kids ≡ true
    → flag_for r (to_children kids (Message.abort_reduce flag)) other ≡ flag
flag_for-to_children r [] flag other h = cc
flag_for-to_children r (k ∷ kids) flag other h =
    ground (arith, flag_for-kept r kids flag, flag_for-to_children r kids flag other)

-- What `abortReduce` of a rank gives all its children.
abbrev Tells : Bool → List ℕ → List Send → Type 0
Tells flag kids sent = (r : ℕ) → elem r kids ≡ true → flag_for r sent false ≡ flag

mutual
  unfolding abort_all abort_reduce

  abort_all-EveryFlag :
      (p : ℕ) (flag : Bool) (t : Subtree) → EveryFlag flag (abort_all (some p) flag t)
  abort_all-EveryFlag p flag (node s kids) =
      let flags = abort_flags s.rank kids in
      let sent = (abort_reduce (some p) (roots kids) s.aborts flags flag).1 in
      (
        refl,
        refl,
        abort_below-EveryFlag s.rank flag sent kids
            (λ r h. flag_for-to_children r (roots kids) flag _ h),
      )

  abort_below-EveryFlag :
      (p : ℕ) (flag : Bool) (sent : List Send) (ts : Subtrees)
      → Tells flag (roots ts) sent
      → EveryFlagBelow flag (abort_below p sent ts)
  abort_below-EveryFlag p flag sent no_more tells = tt
  abort_below-EveryFlag p flag sent (child t ts) tells =
      let got : flag_for (root t) sent false ≡ flag = tells (root t) (ground arith) in
      (
        subst (λ f. EveryFlag flag (abort_all (some p) f t)) (sym got)
            (abort_all-EveryFlag p flag t),
        abort_below-EveryFlag p flag sent ts (λ r h. tells r (ground (arith, h))),
      )

-- When the flags of all ranks are collected on the tree and the result is sent down, every rank of
-- the job ends with the same flag: set exactly if one of them had it set before.
pub abort_all-agrees :
    (result : Bool) (t : Subtree) → EveryFlag (any_aborted t) (abort_all none result t)
unfolding abort_all abort_reduce
abort_all-agrees result (node s kids) =
    let flag = join_flags-abort_flags s.rank kids s.aborts.abort_flag in
    (
      flag,
      flag,
      abort_below-EveryFlag s.rank (any_aborted (node s kids)) _ kids
          (λ r h. flag_for-to_children r (roots kids) _ false h ∙ flag),
    )
