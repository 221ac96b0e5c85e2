-- ===== src/Term/Safety.antt =====
-- The termination allreduce on all ranks: nobody is told to terminate before everybody has been
-- without outstanding transfers.
use circle.Prelude.{ℕ, ◌<◌, ◌≡◌, refl, Bool, true, arith, length, update, update_all, ==→eq}
use circle.Term.System.{Terms, no_terms, Reach, works, checks, here, next}
use circle.Term.Moves.{IsOpen}
use circle.Gather.Shape.{tree_parent, tree_kids, children-IsTree}
use circle.Gather.Moves.{Reaches-Same, start-Reaches}
use circle.Gather.Call.{Reaches-all_ready}
use circle.Term.Invariant.{view, Inv, checked-Inv}

module _ (size k : ℕ) (pos : 0 < k) where
  works-Inv :
      (w : Terms) (i outstanding : ℕ) (flag : Bool)
      → Inv size k pos w
      → Inv size k pos (record w {
        terms =
            update w.terms i
              (record (w.terms i) { work_outstanding = outstanding; term_flag = flag });
      })
  works-Inv w i outstanding flag v =
      let same = v.open_terms i in
      record {
        moves =
            Reaches-Same size (tree_parent size k) (tree_kids size k)
              (record {
                ready = λ j. refl;
                left = λ j. refl;
                flight = λ a b. refl;
                replies = λ j e. ground (arith, ==→eq j i);
                up = λ j e. ground (arith, ==→eq j i);
              })
              v.moves;
        open_terms =
            update_all (λ j. IsOpen (tree_parent size k j) (length (tree_kids size k j))) w.terms i
              _ (record { few = same.few; all_in = same.all_in; root = same.root }) v.open_terms;
        flags = v.flags;
      }

  no_terms-Inv : Inv size k pos no_terms
  no_terms-Inv = record {
    moves = start-Reaches size (tree_parent size k) (tree_kids size k);
    open_terms = λ i. record { few = omega arith; all_in = λ e. cc; root = λ e. refl };
    flags = record { set = λ p i e. refl };
  }

  pub Reach-Inv : {w : Terms} → Reach size k w → Inv size k pos w
  Reach-Inv here = no_terms-Inv
  Reach-Inv (next {v} r (works i outstanding flag)) = works-Inv v i outstanding flag (Reach-Inv r)
  Reach-Inv (next {v} r (checks i cs told lt stays room probed there)) =
      checked-Inv size k pos v i cs told (Reach-Inv r) room there lt stays probed

-- In every state of a job whose ranks test for termination by the allreduce, in any order, with
-- messages that arrive at any time and with any changes to the counts of outstanding transfers in
-- between: once a call has reported termination on one rank, every rank of the job has made a call
-- while it had no transfer outstanding. The tree has a positive width.
pub Reach-all_idle :
    (size k : ℕ) (w : Terms) (i j : ℕ)
    → 0 < k
    → Reach size k w
    → w.finished i ≡ true
    → j < size
    → w.idle j ≡ true
Reach-all_idle size k w i j pos r fin lt =
    Reaches-all_ready (children-IsTree size k pos) (view w) (Reach-Inv size k pos r).moves i j fin
      lt
