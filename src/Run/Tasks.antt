-- ===== src/Run/Tasks.antt =====
-- internal/flows/impl_loop/state/state.go: the task hierarchy of a run: its validation, the
-- constructors of a run, the appended corrective tasks and the derived status of a parent.
pub mod Terminates
use stepan.Base.{
  ℕ, zero, suc, String, Bool, true, false, ◌&&◌, ◌||◌, Option, none, some, List, [], ◌∷◌, ◌++◌,
  ◌==◌, ◌!=◌, not, string_eq, pos, int_eq, geb, length, is_empty, all, any, find?, contains, insert,
  is_blank, text_append, if◌then◌else◌, Result, ok, err, done, invalid_state,
}
use stepan.Status.{RunStatus, InitialBaselineStatus, TaskStatus, task_status_eq}
use stepan.Evidence.{
  TaskId, RunIdentity, Task, FinalFindingReference, identity_valid, finding_reference_valid,
}
use stepan.Run.{
  Run, Returns, fail, is_active, has_task, is_leaf, is_leaf_of, children, leaf_status_of,
  is_failed_final_review,
}

-- The key under which a cited finding is remembered.
unfoldable pub finding_key : FinalFindingReference → String
finding_key f = text_append f.review_result_id (text_append "\0" f.finding_id)

-- The loop over the findings of one task, with the keys that it has seen.
unfoldable pub provenance_valid : Run → List String → List FinalFindingReference → Bool
provenance_valid r seen [] = true
provenance_valid r seen (f ∷ rest) =
    finding_reference_valid f
    && not (contains seen (finding_key f))
    && is_failed_final_review r f.review_result_id
    && provenance_valid r (finding_key f ∷ seen) rest

-- A parent stands above its child.
unfoldable pub parent_valid : List Task → Task → Bool
parent_valid seen t = t.parent_id == "" || (elim (find? (λ p. p.id == t.parent_id) seen) [
  | none ↦ false
  | some p ↦ not (geb p.order t.order)
])

-- The loop of `validateStructure`, at `index`, with the tasks that it has seen.
unfoldable pub tasks_valid : Run → ℕ → List Task → List Task → Bool
tasks_valid r index seen [] = true
tasks_valid r index seen (t ∷ rest) =
    t.id != ""
    && t.title != ""
    && t.order == pos index
    && not (any (λ s. s.id == t.id) seen)
    && provenance_valid r [] t.final_findings
    && parent_valid seen t
    && tasks_valid r (suc index) (t ∷ seen) rest

-- `validateStructure` returns nil.
unfoldable pub structure_valid : Run → Bool
structure_valid r =
    identity_valid r.identity
    && not (is_empty r.tasks && not r.task_extraction_pending)
    && not (not (is_empty r.tasks) && r.task_extraction_pending)
    && tasks_valid r 0 [] r.tasks

-- The loop that stores a pending status for each leaf.
unfoldable pub pending_leaves : List Task → List Task → List (TaskId × TaskStatus)
pending_leaves tasks [] = []
pending_leaves tasks (t ∷ rest) =
    if is_leaf_of tasks t.id
    then (t.id, TaskStatus.pending) ∷ pending_leaves tasks rest
    else pending_leaves tasks rest

-- The literal of `NewRun`, with the zero values written out.
unfoldable pub fresh_run : RunIdentity → List Task → Run
fresh_run identity tasks = record {
  identity = identity;
  status = RunStatus.active;
  current_state = identity.baseline_state;
  tasks = tasks;
  task_extraction_pending = false;
  initial_baseline_status = InitialBaselineStatus.baseline_pending;
  initial_baseline = none;
  leaf_status = [];
  assignments = [];
  run_operations = [];
  run_results = [];
  final_acceptance = none;
  final_acceptance_history = [];
  final_review_rounds = 0;
  final_review_cycle = 0;
  run_explorer_counters = [];
  run_explorer_cycles = [];
  pause_reason = "";
  execution_block = none;
  limit_pause = none;
  close_reason = "";
}

unfoldable pub new_run : RunIdentity → List Task → Result Run
unfolding fresh_run
new_run identity tasks =
    let r = fresh_run identity tasks in
    if structure_valid r
    then ok (record r { leaf_status = pending_leaves tasks tasks })
    else err invalid_state

-- The literal of `NewRunPendingTaskExtraction`, before its validation.
unfoldable pub extraction_run : RunIdentity → Run
unfolding fresh_run
extraction_run identity = record (fresh_run identity []) { task_extraction_pending = true }

unfoldable pub complete_initial_task_extraction : List Task → Run → Returns (Unit {0})
complete_initial_task_extraction tasks r =
    if not (is_active r) || not r.task_extraction_pending
    then fail invalid_state r
    else if not (
        structure_valid (record (fresh_run r.identity tasks) {
          status = r.status;
          current_state = r.current_state;
        }))
    then fail invalid_state r
    else (
      done,
      record r {
        tasks = tasks;
        task_extraction_pending = false;
        leaf_status = pending_leaves tasks tasks;
      },
    )

-- The loop over the appended tasks, at `order`, with the identifiers that it has seen.
unfoldable pub appended_valid : Run → ℕ → List TaskId → List Task → Bool
appended_valid r order seen [] = true
appended_valid r order seen (t ∷ rest) =
    t.id != ""
    && not (is_blank t.title)
    && t.parent_id == ""
    && t.order == pos order
    && not (contains seen t.id)
    && not (is_empty t.final_findings)
    && provenance_valid r [] t.final_findings
    && appended_valid r (suc order) (t.id ∷ seen) rest

unfoldable pub task_ids : List Task → List TaskId
task_ids [] = []
task_ids (t ∷ rest) = t.id ∷ task_ids rest

unfoldable pub append_tasks : List Task → Run → Run
append_tasks [] r = r
append_tasks (t ∷ rest) r = append_tasks rest (record r {
  tasks = r.tasks ++ t ∷ [];
  leaf_status = insert t.id TaskStatus.pending r.leaf_status;
})

-- Every stored leaf is complete.
abbrev pub all_complete : List (TaskId × TaskStatus) → Bool
all_complete leaves = all (λ kv. kv.1 == TaskStatus.complete) leaves

-- `TaskStatus` by recursion over the children; `none` means that the fuel ran out.
unfoldable pub children_status :
    (TaskId → Option (Result TaskStatus)) → List Task → Option (Result TaskStatus)
children_status status_of [] = some (ok TaskStatus.complete)
children_status status_of (c ∷ rest) = elim (status_of c.id) [
  | none ↦ none
  | some (err e) ↦ some (err e)
  | some (ok s) ↦
      if s != TaskStatus.complete
      then some (ok TaskStatus.pending)
      else children_status status_of rest
]

unfoldable pub task_status_from : ℕ → Run → TaskId → Option (Result TaskStatus)
task_status_from zero r id = none
task_status_from (suc fuel) r id =
    if not (has_task r id)
    then some (err invalid_state)
    else if is_leaf r id
    then some (ok (leaf_status_of r id))
    else children_status (task_status_from fuel r) (children r id)

unfoldable pub task_status : Run → TaskId → Option (Result TaskStatus)
task_status r id = task_status_from (suc (length r.tasks)) r id

-- The leaves with a pending status, in order.
unfoldable pub pending_from : Run → List Task → List TaskId
pending_from r [] = []
pending_from r (t ∷ rest) =
    if is_leaf r t.id && leaf_status_of r t.id == TaskStatus.pending
    then t.id ∷ pending_from r rest
    else pending_from r rest

unfoldable pub pending_leaf_tasks : Run → List TaskId
pending_leaf_tasks r = pending_from r r.tasks

unfoldable pub leaves_from : Run → List Task → List TaskId
leaves_from r [] = []
leaves_from r (t ∷ rest) = if is_leaf r t.id then t.id ∷ leaves_from r rest else leaves_from r rest

unfoldable pub all_leaf_tasks : Run → List TaskId
all_leaf_tasks r = leaves_from r r.tasks
