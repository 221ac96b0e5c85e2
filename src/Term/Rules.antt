-- ===== src/Term/Rules.antt =====
-- What the allreduce does on one rank.
use circle.Prelude.{
  ℕ, zero, suc, ◌+◌, ◌<◌, ◌≡◌, refl, Bool, true, false, ◌&&◌, List, [], ◌∷◌, Option, none, some,
  arith, length, min, take, drop, and-true, and_assoc,
}
use circle.State.{white, terminate, TermState, Message, to_children}
use circle.Term.{collect, check_for_term_all_reduce}

-- The flags of some children, joined.
abbrev pub all_flags : List Bool → Bool
all_flags [] = true
all_flags (f ∷ fs) = f && all_flags fs

pub work_outstanding-collect :
    (nchildren : ℕ) (t : TermState) (flags : List Bool)
    → (collect nchildren t flags).0.work_outstanding ≡ t.work_outstanding
unfolding collect
work_outstanding-collect nchildren t [] = refl
work_outstanding-collect nchildren t (f ∷ flags) = ground (
  arith,
  work_outstanding-collect nchildren
      (record t { term_flag = t.term_flag && f; term_replies = t.term_replies + 1 }) flags,
)

-- With `n` children missing the loop takes at most `n` flags, joins them to the field, leaves the
-- others for a later call, and touches nothing else.
pub collect_lem :
    (nchildren n : ℕ) (flags : List Bool) (t : TermState)
    → t.term_replies + n ≡ nchildren
    → collect nchildren t flags ≡ (
      record t {
        term_flag = t.term_flag && all_flags (take n flags);
        term_replies = t.term_replies + min n (length flags);
      },
      drop n flags,
    )
unfolding collect
collect_lem nchildren zero [] t h = ground (arith, and-true t.term_flag)
collect_lem nchildren (suc n) [] t h = ground (arith, and-true t.term_flag)
collect_lem nchildren zero (f ∷ flags) t h = ground (arith, and-true t.term_flag)
collect_lem nchildren (suc n) (f ∷ flags) t h = ground (
  arith,
  and_assoc t.term_flag f (all_flags (take n flags)),
  collect_lem nchildren n flags
      (record t { term_flag = t.term_flag && f; term_replies = t.term_replies + 1 }),
)

-- Outstanding work transfers hold the allreduce back: no message is sent, whatever has arrived, and
-- the process is not done.
pub outstanding_waits :
    (parent : Option ℕ) (kids : List ℕ) (t : TermState) (flags : List Bool) (reply : Option Bool)
    → 0 < t.work_outstanding
    → let (color, t1, sent) = check_for_term_all_reduce parent kids t flags reply in
      (color ≡ white) × (sent ≡ []) × (t1 ≡ (collect (length kids) t flags).0)
unfolding check_for_term_all_reduce
outstanding_waits parent kids t flags reply h =
    ground (arith, work_outstanding-collect (length kids) t flags)

-- Two states that differ in `term_flag` at most.
pub record SameButFlag (t u : TermState) : Type 0 where
  pub outstanding : t.work_outstanding ≡ u.work_outstanding
  pub up : t.term_up ≡ u.term_up
  pub replies : t.term_replies ≡ u.term_replies

collect_same :
    (nchildren : ℕ) (flags others : List Bool) (t u : TermState)
    → SameButFlag t u
    → length flags ≡ length others
    → SameButFlag (collect nchildren t flags).0 (collect nchildren u others).0
unfolding collect
collect_same nchildren [] [] t u same h = same
collect_same nchildren [] (g ∷ others) t u same h = absurd (omega arith)
collect_same nchildren (f ∷ flags) [] t u same h = absurd (omega arith)
collect_same nchildren (f ∷ flags) (g ∷ others) t u same h = ground (
  arith,
  collect_same nchildren flags others
      (record t { term_flag = t.term_flag && f; term_replies = t.term_replies + 1 })
      (record u { term_flag = u.term_flag && g; term_replies = u.term_replies + 1 }),
)

-- The field `term_flag` and the flags of the children have no influence: two calls that differ in
-- nothing else report the same and send the same messages. So the flag that a receipt of work
-- clears, to force another allreduce, does not do so.
pub term_flag_ignored :
    (parent : Option ℕ) (kids : List ℕ) (t u : TermState) (flags others : List Bool)
    (reply : Option Bool)
    → length flags ≡ length others
    → SameButFlag t u
    → let (color, _, sent) = check_for_term_all_reduce parent kids t flags reply in
      let (color', _, sent') = check_for_term_all_reduce parent kids u others reply in
      (color ≡ color') × (sent ≡ sent')
unfolding check_for_term_all_reduce
term_flag_ignored parent kids t u flags others reply h same =
    ground (arith, collect_same (length kids) flags others t u same h)

-- On the root, with no work outstanding, the first call after the last child's message ends the
-- run for everybody: it reports termination and sends 1 to all children, also where a child, or the
-- rank itself, has asked for another allreduce by a flag of 0.
pub root_terminates :
    (kids : List ℕ) (t : TermState) (flags : List Bool) (reply : Option Bool)
    → t.work_outstanding ≡ 0
    → t.term_up ≡ false
    → t.term_replies + length flags ≡ length kids
    → let (color, t1, sent) = check_for_term_all_reduce none kids t flags reply in
      (color ≡ terminate)
      × (sent ≡ to_children kids (Message.term true))
      × (t1.term_replies ≡ 0)
      × (t1.term_up ≡ false)
unfolding check_for_term_all_reduce
root_terminates kids t flags reply idle fresh all_here =
    rw (collect_lem (length kids) (length flags) flags t all_here) (ground arith)

-- On another rank what goes up is always 0, once for each allreduce, and the result that the parent
-- sends down is reported and passed on as it is.
pub inner_rank :
    (p : ℕ) (kids : List ℕ) (t : TermState) (flags : List Bool) (reply : Option Bool)
    → t.work_outstanding ≡ 0
    → t.term_up ≡ false
    → t.term_replies + length flags ≡ length kids
    → let (color, t1, sent) = check_for_term_all_reduce (some p) kids t flags reply in
      (sent
        ≡ (p, Message.term false)
          ∷ (elim reply [ none ↦ [] | some r ↦ to_children kids (Message.term r) ]))
      × (color ≡ elim reply [ some true ↦ terminate | _ ↦ white ])
      × (t1.term_up ≡ elim reply [ none ↦ true | some _ ↦ false ])
unfolding check_for_term_all_reduce
inner_rank p kids t flags reply idle fresh all_here =
    rw (collect_lem (length kids) (length flags) flags t all_here) (ground arith)
