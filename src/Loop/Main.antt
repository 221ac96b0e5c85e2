-- ===== src/Loop/Main.antt =====
-- `mainLoop` as a whole: the working loop, the cleaning loop, and what follows. The probes of the
-- rounds are lists, one for each loop; a run whose lists are too short is not finished.
use circle.Prelude.{ℕ, Bool, List, [], ◌∷◌, ◌++◌, Option}
use circle.Queue.{Queue, Status}
use circle.State.{State, Send}
use circle.Reduce.{Callbacks, Reply, Result}
use circle.Checkpoint.{Disk}
use circle.Loop.{Inputs, Phase, again, left, ended, go_on, work_loop, cleanup_step, finish}

-- What the collective operations at the end receive, and the files.
pub record Last : Type 0 where
  pub disk : Disk
  pub files : ℕ → Option (List ℕ)
  pub replies : List Reply
  pub abort_flags : List Bool
  pub abort_result : Bool

pub record Ending : Type 0 where
  pub checkpointed : Status
  pub files : ℕ → Option (List ℕ)
  pub state : State
  pub result : Option Result

pub data Run : Type 0 where
  unfinished : State → Run
  job_ended : State → Run
  finished : Ending → Run

module _ (rand_r : ℕ → ℕ × ℕ) (fuel page_size : ℕ) (allocates : Bool) (callbacks : Callbacks)
    (process : Queue → Queue) where
  unfoldable pub cleanup_loop : State → List Inputs → Phase × State × List Send
  cleanup_loop s [] = (again, s, [])
  cleanup_loop s (i ∷ rounds) =
      let (phase, s1, sent) = cleanup_step rand_r fuel page_size allocates callbacks process s i in
      let (phase2, s2, sent2) = cleanup_loop s1 rounds in
      go_on phase s1 sent (phase2, s2, sent ++ sent2)

-- The end of a run, by how the loops were left.
unfoldable pub conclude : Phase → State → Run → Run
conclude again s run = unfinished s
conclude ended s run = job_ended s
conclude left s run = run

unfoldable pub last_part : Callbacks → State → Last → Run × List Send
last_part callbacks s l =
    let (status, files, s1, sent, result) =
      finish callbacks l.disk l.files s l.replies l.abort_flags l.abort_result in
    (finished (record { checkpointed = status; files = files; state = s1; result = result }), sent)

unfoldable pub main_loop :
    (ℕ → ℕ × ℕ)
    → ℕ
    → ℕ
    → Bool
    → Callbacks
    → (Queue → Queue)
    → State
    → List Inputs
    → List Inputs
    → Last
    → Run × List Send
main_loop rand_r fuel page_size allocates callbacks process s working cleaning l =
    let (phase1, s1, sent1) =
      work_loop rand_r fuel page_size allocates callbacks process s working in
    let (phase2, s2, sent2) =
      cleanup_loop rand_r fuel page_size allocates callbacks process s1 cleaning in
    let (run, sent3) = last_part callbacks s2 l in
    let sent : List Send = elim phase1 [
      | left ↦ sent1 ++ (elim phase2 [ left ↦ sent2 ++ sent3 | again ↦ sent2 | ended ↦ sent2 ])
      | again ↦ sent1
      | ended ↦ sent1
    ] in
    (conclude phase1 s1 (conclude phase2 s2 run), sent)
