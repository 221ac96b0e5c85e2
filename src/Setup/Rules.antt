-- ===== src/Setup/Rules.antt =====
-- What `circle::init` returns, and what happens at the end of the program.
use circle.Prelude.{◌≡◌, ◌↔◌, ◌⊎◌, Bool, true, false, List, [], ◌∷◌, ◌++◌, none, some, arith}
use circle.Queue.{success, failure}
use circle.Setup.{Answers, init, at_exit, init_all, mpi_initialized, mpi_init, mpi_finalize}

-- `init` fails exactly if MPI_Initialized fails, or says no and MPI_Init fails. The flag is set
-- exactly if MPI has been started by this call, so that of one call and the end of the program
-- together MPI_Finalize is called exactly if MPI_Init was called and worked.
pub init_errors :
    (a : Answers)
    → let (status, must_finalize, calls) = init a in
      ((status ≡ failure)
        ↔ ((a.initialized ≡ none) ⊎ ((a.initialized ≡ some false) × (a.starts ≡ false))))
      × ((must_finalize ≡ true) ↔ ((a.initialized ≡ some false) × (a.starts ≡ true)))
      × ((at_exit must_finalize ≡ mpi_finalize ∷ [])
          ↔ ((status ≡ success) × (calls ≡ mpi_initialized ∷ mpi_init ∷ [])))
unfolding init at_exit
init_errors a = ground arith

-- A later call, which finds MPI initialised as it is after the first, clears the flag: whatever
-- calls came before, MPI_Finalize is not called at the end.
pub init_again :
    (answers : List Answers) (a : Answers) (flag : Bool)
    → a.initialized ≡ some true
    → at_exit (init_all flag (answers ++ a ∷ [])) ≡ []
unfolding init_all init at_exit
init_again [] a flag h = ground (arith, h)
init_again (b ∷ answers) a flag h = init_again answers a (init b).1 h
