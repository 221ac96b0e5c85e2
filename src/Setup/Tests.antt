-- ===== src/Setup/Tests.antt =====
-- Tests of the start of MPI.
use circle.Prelude.{◌≡◌, ◌↔◌, ◌⊎◌, refl, true, false, [], ◌∷◌, ◌++◌, some, none}
use circle.Queue.{success, failure}
use circle.Setup.{Answers, init, at_exit, init_all, mpi_initialized, mpi_init, mpi_finalize}
use circle.Setup.Rules.{init_errors, init_again}

abbrev refused : Answers
refused = record { initialized = some false; starts = false }

abbrev fresh : Answers
fresh = record { initialized = some false; starts = true }

abbrev running : Answers
running = record { initialized = some true; starts = true }

init_errors_example :
    let (status, must_finalize, calls) = init refused in
    ((status ≡ failure) ↔ (
      (refused.initialized ≡ none)
      ⊎ ((refused.initialized ≡ some false) × (refused.starts ≡ false))))
    × ((must_finalize ≡ true) ↔ ((refused.initialized ≡ some false) × (refused.starts ≡ true)))
    × ((at_exit must_finalize ≡ mpi_finalize ∷ [])
        ↔ ((status ≡ success) × (calls ≡ mpi_initialized ∷ mpi_init ∷ [])))
init_errors_example = init_errors refused

init_again_example : at_exit (init_all false ((fresh ∷ []) ++ running ∷ [])) ≡ []
init_again_example = init_again (fresh ∷ []) running false refl
