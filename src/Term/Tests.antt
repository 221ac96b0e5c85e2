-- ===== src/Term/Tests.antt =====
-- Tests of the termination allreduce.
use circle.Prelude.{◌<◌, ℕ, ◌≡◌, refl, true, false, List, [], ◌∷◌, some, none, arith, update}
use circle.State.{is_terminate, terminate, TermState, Message, to_children}
use circle.Term.{collect, check_for_term_all_reduce, send_up, receive_down, finish}
use circle.Term.System.{Terms, no_terms, checked, Reach, here, next, checks, works}
use circle.Term.Completes.{Checks, all_terminate}
use circle.Term.Safety.{Reach-all_idle}
use circle.Term.Rules.{term_flag_ignored, root_terminates}
use circle.Examples.{fresh_term}

abbrev asks_again : TermState
asks_again = record fresh_term { term_flag = false }

abbrev busy : TermState
busy = record fresh_term { work_outstanding = 1 }

abbrev two_kids : List ℕ
two_kids = 1 ∷ 2 ∷ []

root_terminates_example :
    let (color, t1, sent) =
      check_for_term_all_reduce none two_kids asks_again (false ∷ true ∷ []) none in
    (color ≡ terminate)
    × (sent ≡ to_children two_kids (Message.term true))
    × (t1.term_replies ≡ 0)
    × (t1.term_up ≡ false)
root_terminates_example =
    root_terminates two_kids asks_again (false ∷ true ∷ []) none refl refl refl

term_flag_ignored_example :
    let (color, _, sent) =
      check_for_term_all_reduce (some 0) two_kids asks_again (false ∷ []) (some true) in
    let (color', _, sent') =
      check_for_term_all_reduce (some 0) two_kids fresh_term (true ∷ []) (some true) in
    (color ≡ color') × (sent ≡ sent')
term_flag_ignored_example =
    term_flag_ignored (some 0) two_kids asks_again fresh_term (false ∷ []) (true ∷ []) (some true)
      refl (record { outstanding = refl; up = refl; replies = refl })

-- Two ranks: rank 1 answers, and rank 0 ends the run.
abbrev answered : Terms
answered = checked 2 2 no_terms 1 [] false

abbrev ended : Terms
ended = checked 2 2 answered 0 (1 ∷ []) false

ended-Reach : Reach 2 2 ended
unfolding check_for_term_all_reduce collect send_up receive_down finish is_terminate
ended-Reach =
    next (next here (checks 1 [] false (omega arith) refl (omega arith) tt tt))
      (checks 0 (1 ∷ []) false (omega arith) refl (omega arith) (omega arith, tt) tt)

Reach-all_idle_example : ended.idle 1 ≡ true
unfolding check_for_term_all_reduce collect send_up receive_down finish is_terminate
Reach-all_idle_example = Reach-all_idle 2 2 ended 0 1 (omega arith) ended-Reach refl (omega arith)

answered-Reach : Reach 2 2 answered
answered-Reach = next here (checks 1 [] false (omega arith) refl (omega arith) tt tt)

all_terminate_example :
    (u : Terms) × Checks 2 2 u answered × ((j : ℕ) → j < 2 → u.finished j ≡ true)
unfolding check_for_term_all_reduce collect send_up receive_down
all_terminate_example = all_terminate 2 2 answered (omega arith) answered-Reach (λ j. ground arith)

-- Three ranks: ranks 1 and 2 answer, rank 0 ends the run, rank 2 then gives work away, and rank 1
-- leaves while that transfer is outstanding.
abbrev both_answered : Terms
both_answered = checked 3 2 (checked 3 2 no_terms 1 [] false) 2 [] false

abbrev root_ended : Terms
root_ended = checked 3 2 both_answered 0 (1 ∷ 2 ∷ []) false

abbrev gave_work : Terms
gave_work = record root_ended {
  terms =
      update root_ended.terms 2
        (record (root_ended.terms 2) { work_outstanding = 1; term_flag = false });
}

abbrev left_early : Terms
left_early = checked 3 2 gave_work 1 [] true

both_answered-Reach : Reach 3 2 both_answered
unfolding check_for_term_all_reduce collect send_up receive_down finish is_terminate
both_answered-Reach =
    next (next here (checks 1 [] false (omega arith) refl (omega arith) tt tt))
      (checks 2 [] false (omega arith) refl (omega arith) tt tt)

root_ended-Reach : Reach 3 2 root_ended
unfolding check_for_term_all_reduce collect send_up receive_down finish is_terminate
root_ended-Reach = next both_answered-Reach (
    checks 0 (1 ∷ 2 ∷ []) false (omega arith) refl (omega arith) (omega arith, (omega arith, tt))
      tt)

left_early-Reach : Reach 3 2 left_early
unfolding check_for_term_all_reduce collect send_up receive_down finish is_terminate
left_early-Reach =
    next (next root_ended-Reach (works 2 1 false))
      (checks 1 [] true (omega arith) refl (omega arith) tt (omega arith))

left_with_transfer : (left_early.finished 1 ≡ true) × ((left_early.terms 2).work_outstanding ≡ 1)
unfolding check_for_term_all_reduce collect send_up receive_down finish is_terminate
left_with_transfer = (refl, refl)
