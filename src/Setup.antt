-- ===== src/Setup.antt =====
-- src/circle.cpp, `GlobalInit` and `circle::init`: MPI is started if nobody has, and finalised at the
-- end of the program if this library has started it. What MPI answers is an `Answers`.
pub mod Rules
mod Tests
use circle.Prelude.{Bool, true, false, List, [], ◌∷◌, Option, none, some, if◌then◌else◌}
use circle.Queue.{Status, success, failure}

pub data MpiCall : Type 0 where
  mpi_initialized mpi_init mpi_finalize : MpiCall

-- `initialized`: the flag that MPI_Initialized sets, unless it fails; `starts`: does MPI_Init work?
pub record Answers : Type 0 where
  pub initialized : Option Bool
  pub starts : Bool

-- `GlobalInit::init`: the result, `must_finalize_mpi`, and the calls of MPI.
unfoldable pub init : Answers → Status × Bool × List MpiCall
init a = elim a.initialized [
  | none ↦ (failure, false, mpi_initialized ∷ [])
  | some true ↦ (success, false, mpi_initialized ∷ [])
  | some false ↦
      if a.starts
      then (success, true, mpi_initialized ∷ mpi_init ∷ [])
      else (failure, false, mpi_initialized ∷ mpi_init ∷ [])
]

-- `GlobalInit::~GlobalInit`
unfoldable pub at_exit : Bool → List MpiCall
at_exit must_finalize = if must_finalize then mpi_finalize ∷ [] else []

-- `circle::init` any number of times, on the one object: what `must_finalize_mpi` is in the end. It
-- starts as 0.
unfoldable pub init_all : Bool → List Answers → Bool
init_all must_finalize [] = must_finalize
init_all must_finalize (a ∷ rest) = init_all (init a).1 rest
