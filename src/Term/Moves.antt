-- ===== src/Term/Moves.antt =====
-- A call of the allreduce as a call of the protocol.
use circle.Prelude.{
  ℕ, ◌+◌, ◌≤◌, ◌≡◌, ◌≢◌, refl, Bool, true, false, not, ◌&&◌, ◌||◌, List, [], ◌∷◌, ◌++◌, Option,
  none, some, arith, length, ltb, ◌==◌, if◌then◌else◌,
}
use circle.State.{is_terminate, TermState, Message, to_children}
use circle.Term.Rules.{work_outstanding-collect}
use circle.Term.{collect, check_for_term_all_reduce}
use circle.Gather.Post.{to_parent}

-- Does the call go up?
abbrev pub goes : ℕ → TermState → ℕ → Bool
goes nchildren t received =
    not (ltb 0 t.work_outstanding) && (not t.term_up && (t.term_replies + received == nchildren))

abbrev pub is_some : Option Bool → Bool
is_some none = false
is_some (some _) = true

abbrev pub is_root : Option ℕ → Bool
is_root none = true
is_root (some _) = false

-- Does it complete?
abbrev pub completes : Option ℕ → ℕ → TermState → ℕ → Option Bool → Bool
completes parent nchildren t received reply =
    not (ltb 0 t.work_outstanding)
    && ((t.term_up || goes nchildren t received) && (is_root parent || is_some reply))

-- A rank's state between calls: never more replies than children, all of them once it has gone up,
-- and a root that has gone up has finished at once.
pub record IsOpen (parent : Option ℕ) (nchildren : ℕ) (t : TermState) : Type 0 where
  pub few : t.term_replies ≤ nchildren
  pub all_in : t.term_up ≡ true → t.term_replies ≡ nchildren
  pub root : parent ≡ none → t.term_up ≡ false

collect_all :
    (nchildren : ℕ) (flags : List Bool) (t : TermState)
    → t.term_replies + length flags ≤ nchildren
    → let t1 = (collect nchildren t flags).0 in
      (t1.work_outstanding ≡ t.work_outstanding)
      × (t1.term_up ≡ t.term_up)
      × (t1.term_replies ≡ t.term_replies + length flags)
unfolding collect
collect_all nchildren [] t room = ground arith
collect_all nchildren (f ∷ flags) t room = ground (
  arith,
  room,
  collect_all nchildren flags
      (record t { term_flag = t.term_flag && f; term_replies = t.term_replies + 1 }),
)

pub check-goes :
    (parent : Option ℕ) (kids : List ℕ) (t : TermState) (flags : List Bool) (reply : Option Bool)
    → t.term_replies + length flags ≤ length kids
    → IsOpen parent (length kids) t
    → reply ≢ some false
    → let (color, t1, sends) = check_for_term_all_reduce parent kids t flags reply in
      let up = goes (length kids) t (length flags) in
      let done = is_terminate color in
      (done ≡ completes parent (length kids) t (length flags) reply)
      × (done ≡ false
          → (t1.term_replies ≡ t.term_replies + length flags) × (t1.term_up ≡ (t.term_up || up)))
      × (sends
          ≡ (if up then to_parent parent (Message.term false) else [])
            ++ (if done then to_children kids (Message.term true) else []))
      × IsOpen parent (length kids) t1
unfolding check_for_term_all_reduce is_terminate
check-goes none kids t flags reply room v ne =
    ground (arith, collect_all (length kids) flags t room, v.few, v.all_in, v.root refl)
check-goes (some p) kids t flags none room v ne =
    ground (arith, collect_all (length kids) flags t room, v.few, v.all_in)
check-goes (some p) kids t flags (some true) room v ne =
    ground (arith, collect_all (length kids) flags t room, v.few, v.all_in)
check-goes (some p) kids t flags (some false) room v ne = absurd (ne refl)

pub check-outstanding :
    (parent : Option ℕ) (kids : List ℕ) (t : TermState) (flags : List Bool) (reply : Option Bool)
    → (check_for_term_all_reduce parent kids t flags reply).1.work_outstanding ≡ t.work_outstanding
unfolding check_for_term_all_reduce
check-outstanding none kids t flags reply =
    ground (arith, work_outstanding-collect (length kids) t flags)
check-outstanding (some p) kids t flags none =
    ground (arith, work_outstanding-collect (length kids) t flags)
check-outstanding (some p) kids t flags (some r) =
    ground (arith, work_outstanding-collect (length kids) t flags)
