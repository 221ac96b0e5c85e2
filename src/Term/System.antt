-- ===== src/Term/System.antt =====
-- The termination allreduce on all ranks of a job. Between its calls on a rank the other handlers
-- change the rank's count of outstanding work transfers, and clear its `term_flag`.
use circle.Prelude.{
  ℕ, ◌+◌, ◌≤◌, ◌<◌, ◌≡◌, Bool, true, false, List, [], Option, none, some, length, update, ltb,
  if◌then◌else◌,
}
use circle.State.{is_terminate, TermState}
use circle.Term.{check_for_term_all_reduce}
use circle.Gather.Shape.{tree_parent, tree_kids}
use circle.Gather.Mail.{Mail, first, flags_from, get_all, get_up, post_flags, IsThere}

-- `idle`: the ranks that have called the allreduce with no transfer outstanding. `finished`: those
-- that it has reported termination to. `mail` holds the flags under way.
pub record Terms : Type 0 where
  pub idle : ℕ → Bool
  pub finished : ℕ → Bool
  pub terms : ℕ → TermState
  pub mail : Mail

abbrev pub no_term : TermState
no_term = record { work_outstanding = 0; term_flag = true; term_up = false; term_replies = 0 }

abbrev pub no_terms : Terms
no_terms = record {
  idle = λ i. false;
  finished = λ i. false;
  terms = λ i. no_term;
  mail = λ a b. [];
}

-- The parent's flag, if the probe finds it.
abbrev pub reply_of : Option ℕ → ℕ → Bool → Mail → Option Bool
reply_of none i told mail = none
reply_of (some p) i false mail = none
reply_of (some p) i true mail = some (first (mail p i))

abbrev pub IsTold : Option ℕ → ℕ → Bool → Mail → Type 0
IsTold none i told mail = Unit
IsTold (some p) i false mail = Unit
IsTold (some p) i true mail = 0 < length (mail p i)

-- A call on rank `i`, which receives the flags of the children `cs` and, if it is `told`, its
-- parent's.
abbrev pub checked : ℕ → ℕ → Terms → ℕ → List ℕ → Bool → Terms
checked size k w i cs told =
    let parent = tree_parent size k i in
    let kids = tree_kids size k i in
    let mail1 = get_all i cs w.mail in
    let reply = reply_of parent i told mail1 in
    let (color, t1, sends) =
      check_for_term_all_reduce parent kids (w.terms i) (flags_from i cs w.mail) reply in
    let done = is_terminate color in
    let mail2 = if done then get_up i parent mail1 else mail1 in
    record {
      idle = if ltb 0 (w.terms i).work_outstanding then w.idle else update w.idle i true;
      finished = if done then update w.finished i true else w.finished;
      terms = update w.terms i t1;
      mail = post_flags i sends mail2;
    }

module _ (size k : ℕ) where
  pub data Step (w : Terms) : Terms → Type 0 where
    works :
        (i outstanding : ℕ) (flag : Bool)
        → Step w (record w {
          terms =
              update w.terms i
                (record (w.terms i) { work_outstanding = outstanding; term_flag = flag });
        })
    checks :
        (i : ℕ) (cs : List ℕ) (told : Bool)
        → i < size
        → w.finished i ≡ false
        → (w.terms i).term_replies + length cs ≤ length (tree_kids size k i)
        → IsThere i cs w.mail
        → IsTold (tree_parent size k i) i told (get_all i cs w.mail)
        → Step w (checked size k w i cs told)

  pub data Reach : Terms → Type 0 where
    here : Reach no_terms
    next : {v w : Terms} → Reach v → Step v w → Reach w
