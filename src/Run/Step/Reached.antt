-- ===== src/Run/Step/Reached.antt =====
-- internal/flows/impl_loop/state/state.go: the runs that the methods reach from `NewRun`.
use stepan.Base.{◌≡◌, ◌≤◌, true, List, [], ◌∷◌, ok, arith, refl}
use stepan.Evidence.{RunIdentity, Task}
use stepan.Run.{Run}
use stepan.Run.Tasks.{fresh_run, new_run, pending_leaves}
use stepan.Run.Validate.{lifecycle_valid}
use stepan.Run.Step.{Command, execute, execute_all}
use stepan.Run.Step.Opens.{open_count}
use stepan.Run.Step.OneOpen.{execute-open_count}
use stepan.Run.Step.StopReasons.{execute-lifecycle_valid}

execute_all-keeps :
    (cs : List Command) (r : Run)
    → lifecycle_valid r ≡ true
    → open_count r.assignments ≤ 1
    → (lifecycle_valid (execute_all cs r) ≡ true) × (open_count (execute_all cs r).assignments ≤ 1)
unfolding execute_all
execute_all-keeps [] r h one = (h, one)
execute_all-keeps (c ∷ cs) r h one =
    execute_all-keeps cs (execute c r).1 (execute-lifecycle_valid c r h)
      (execute-open_count c r one)

new_run-made :
    (identity : RunIdentity) (tasks : List Task) (r : Run)
    → new_run identity tasks ≡ ok r
    → r ≡ record (fresh_run identity tasks) { leaf_status = pending_leaves tasks tasks }
unfolding new_run
new_run-made identity tasks r made = ground arith

-- Whatever calls are made on a run that `NewRun` has made, in whatever order, and whether they fail
-- or not: the run shows the stop reasons of its status and no other, and at most one of its
-- assignments is not committed.
pub new_run-reaches :
    (identity : RunIdentity) (tasks : List Task) (r : Run) (cs : List Command)
    → new_run identity tasks ≡ ok r
    → (lifecycle_valid (execute_all cs r) ≡ true) × (open_count (execute_all cs r).assignments ≤ 1)
unfolding fresh_run lifecycle_valid
new_run-reaches identity tasks r cs made =
    let same = new_run-made identity tasks r made in
    execute_all-keeps cs r (rw same refl) (rw same (omega arith))
