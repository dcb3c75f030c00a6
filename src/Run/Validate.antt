-- ===== src/Run/Validate.antt =====
-- internal/flows/impl_loop/state/state.go: `Validate`, the test of a loaded run; `Succeed`, which
-- makes it; and the constructors and journal events that rest on it.
pub mod Events
pub mod NoPanic
pub mod Success
use stepan.Base.{
  ℕ, suc, ◌+◌, String, Bool, true, false, ◌&&◌, ◌||◌, Option, none, some, List, [], ◌∷◌, ◌==◌, ◌!=◌,
  not, string_eq, nat_eq, bool_eq, ℤ, pos, int_eq, inc_int, leb, ltb, length, is_empty, all, any,
  find?, contains, lookup, lookup_or, insert, take, drop, list_beq, is_blank, if◌then◌else◌,
  Failure, Result, ok, err, Done, done, ◌>>=◌, ◌>>◌, invalid_state, invalid_transition, panic,
}
use stepan.Status.{
  EventKind, event_kind_eq, RunStatus, InitialBaselineStatus, TaskStatus, AssignmentStatus,
  OperationKind, CycleCounter, ResultStatus, run_status_eq, run_status_valid,
  initial_baseline_status_valid, task_status_eq, task_status_valid, assignment_status_eq,
  assignment_status_valid, operation_kind_eq, cycle_counter_eq, result_status_eq, valid_run_counter,
}
use stepan.Evidence.{
  TaskId, AssignmentId, BriefId, OperationId, ResultId, RunIdentity, Task, BriefVersion,
  evidence_eq, evidence_valid, basis_eq, identity_valid, brief_valid, commit_valid, matches_intent,
}
use stepan.Operation.{
  Operation, OperationResult, TaskReviewRecord, operation_valid, result_valid, review_valid,
  dispute_valid,
}
use stepan.Counters.{limit_pause_valid, block_valid}
use stepan.Assignment
use stepan.Assignment.{
  AcceptanceEvidence, Assignment, has_brief, has_duplicates, validate_acceptance, accept,
}
use stepan.Run.{Run, Returns, fail, is_active, is_some, current_basis, is_leaf, run_operation}
use stepan.Run.Tasks.{
  structure_valid, extraction_run, pending_leaf_tasks, all_leaf_tasks, all_complete,
}
use stepan.Run.Baseline.{initial_baseline_valid}
use stepan.Run.Work.{result_fits, review_matches}
use stepan.Run.Final.{final_acceptance_valid}
use stepan.Run.Counters.{counters_valid}

-- A failed test returns the error of `Validate`; the message that it wraps is left out.
abbrev pub require : Bool → Done
require true = done
require false = err invalid_state

-- A callee whose error is replaced by one of `Validate`; a panic stays one.
abbrev pub as_invalid : Done → Done
as_invalid (ok _) = done
as_invalid (err Failure.panic) = err panic
as_invalid (err _) = err invalid_state

-- `validateLifecycle` returns nil.
unfoldable pub lifecycle_valid : Run → Bool
lifecycle_valid r = elim r.status [
  | RunStatus.active ↦
      r.pause_reason == ""
      && not (is_some r.execution_block)
      && r.close_reason == ""
      && not (is_some r.limit_pause)
  | RunStatus.paused ↦
      not (is_blank r.pause_reason)
      && r.close_reason == ""
      && (elim r.execution_block [ none ↦ true | some b ↦ block_valid b ])
      && (elim r.limit_pause [ none ↦ true | some p ↦ limit_pause_valid p ])
  | RunStatus.closed ↦
      not (is_blank r.close_reason)
      && r.pause_reason == ""
      && not (is_some r.execution_block)
      && not (is_some r.limit_pause)
  | RunStatus.succeeded ↦
      r.pause_reason == ""
      && not (is_some r.execution_block)
      && r.close_reason == ""
      && not (is_some r.limit_pause)
  | RunStatus.unknown ↦ true
]

-- Exactly the leaves have a stored status, and a valid one.
unfoldable pub leaves_valid : Run → Bool
leaves_valid r =
    all
      (λ t. elim (lookup t.id r.leaf_status) [
        | none ↦ not (is_leaf r t.id)
        | some s ↦ is_leaf r t.id && task_status_valid s
      ])
      r.tasks
    && all (λ kv. is_leaf r kv.0) r.leaf_status

-- The operations of an assignment, as `validateAssignment` tests them.
unfoldable pub assignment_operation_valid : Assignment → Operation → Bool
assignment_operation_valid a o =
    operation_valid o
    && o.supersedes == ""
    && o.brief_id != ""
    && not o.uncounted_resume_check
    && has_brief a o.brief_id

unfoldable pub assignment_result_valid : Assignment → OperationResult → Bool
assignment_result_valid a x =
    result_valid x
    && (elim (Assignment.operation a x.operation_id) [ none ↦ false | some o ↦ result_fits o x ])

unfoldable pub reviews_valid : Assignment → ℕ → List TaskReviewRecord → Bool
reviews_valid a index [] = true
reviews_valid a index (v ∷ rest) =
    review_valid v && v.round == suc index && review_matches a v && reviews_valid a (suc index) rest

unfoldable pub history_valid : Assignment → List AcceptanceEvidence → Done
history_valid a [] = done
history_valid a (e ∷ rest) = as_invalid (validate_acceptance a e false) >> history_valid a rest

-- `assignment.accept(*assignment.Acceptance)`, and the tests of the commit: pointers that are
-- dereferenced behind the tests that they are there.
abbrev pub accept_pending : Assignment → Done
accept_pending a = elim a.acceptance [ none ↦ err panic | some e ↦ as_invalid (accept a e) ]

abbrev pub commit_fits : Assignment → Done
commit_fits a = elim a.commit [
  | none ↦ err panic
  | some c ↦ elim a.acceptance [
    | none ↦ err panic
    | some e ↦ require (
        commit_valid c
        && matches_intent c e.pending_commit
        && c.state == e.state
        && c.basis == e.basis)
  ]
]

-- The evidence that the status of an assignment calls for.
unfoldable pub status_valid : Assignment → Done
status_valid a = elim a.status [
  | AssignmentStatus.active ↦ require (not (is_some a.acceptance) && not (is_some a.commit))
  | AssignmentStatus.accepted_awaiting_commit ↦
      require (is_some a.acceptance && not (is_some a.commit)) >> accept_pending a
  | AssignmentStatus.committed ↦
      require (is_some a.acceptance)
      >> (accept_pending a >> (require (is_some a.commit) >> commit_fits a))
  | AssignmentStatus.unknown ↦ done
]

unfoldable pub validate_assignment : Run → Assignment → Done
validate_assignment r a = do
  require (not (is_empty a.task_ids) && not (has_duplicates a.task_ids))
  require (all (is_leaf r) a.task_ids)
  require (all brief_valid a.briefs)
  require (all (assignment_operation_valid a) a.operations)
  require (all (assignment_result_valid a) a.results)
  require (reviews_valid a 0 a.task_reviews)
  require (all dispute_valid a.pending_task_review_disputes)
  history_valid a a.acceptance_history
  require (all commit_valid a.reconciled_commits)
  status_valid a

-- What the loop over the assignments has seen, and the leaves that it has not reached.
pub record Walk : Type 0 where
  pub seen : List AssignmentId
  pub assigned : List (TaskId × AssignmentStatus)
  pub briefs : List BriefId
  pub operations : List OperationId
  pub results : List ResultId
  pub open_assignments : ℕ
  pub left : List TaskId

-- The loops that refuse an identifier for the second time.
unfoldable pub brief_ids : List BriefId → ℤ → List BriefVersion → Result (List BriefId)
brief_ids seen last [] = ok seen
brief_ids seen last (b ∷ rest) =
    require (not (contains seen b.id) && b.number == inc_int last)
    >> brief_ids (b.id ∷ seen) b.number rest

unfoldable pub operation_ids : List OperationId → List Operation → Result (List OperationId)
operation_ids seen [] = ok seen
operation_ids seen (o ∷ rest) =
    require (not (contains seen o.id)) >> operation_ids (o.id ∷ seen) rest

unfoldable pub result_ids : List ResultId → List OperationResult → Result (List ResultId)
result_ids seen [] = ok seen
result_ids seen (x ∷ rest) = require (not (contains seen x.id)) >> result_ids (x.id ∷ seen) rest

-- The status that a task has to have in an assignment of the given status.
abbrev pub wanted_status : AssignmentStatus → TaskStatus
wanted_status AssignmentStatus.accepted_awaiting_commit = TaskStatus.accepted_awaiting_commit
wanted_status AssignmentStatus.committed = TaskStatus.complete
wanted_status _ = TaskStatus.pending

unfoldable pub assign_tasks :
    Run
    → AssignmentStatus
    → List TaskId
    → List (TaskId × AssignmentStatus)
    → Result (List (TaskId × AssignmentStatus))
assign_tasks r s [] assigned = ok assigned
assign_tasks r s (id ∷ rest) assigned =
    require (
      not (is_some (lookup id assigned))
      && lookup_or TaskStatus.unknown id r.leaf_status == wanted_status s)
    >> assign_tasks r s rest ((id, s) ∷ assigned)

-- The acceptance that a commit awaits is for the current basis and state. The pointer to it is
-- dereferenced without a test.
unfoldable pub pending_current : Run → Assignment → Done
pending_current r a =
    if a.status != AssignmentStatus.accepted_awaiting_commit then done else elim a.acceptance [
      | none ↦ err panic
      | some e ↦ require (e.basis == current_basis r && e.state == r.current_state)
    ]

unfoldable pub walk_assignment : Run → Assignment → Walk → Result Walk
walk_assignment r a w = do
  require (a.id != "" && not (contains w.seen a.id) && assignment_status_valid a.status)
  validate_assignment r a
  pending_current r a
  require (
      leb (length a.task_ids) (length w.left)
      && list_beq a.task_ids (take (length a.task_ids) w.left))
  require (a.status != AssignmentStatus.committed || w.open_assignments == 0)
  briefs ← brief_ids w.briefs (pos 0) a.briefs
  operations ← operation_ids w.operations a.operations
  results ← result_ids w.results a.results
  assigned ← assign_tasks r a.status a.task_ids w.assigned
  ok (record {
    seen = a.id ∷ w.seen;
    assigned = assigned;
    briefs = briefs;
    operations = operations;
    results = results;
    open_assignments =
        if a.status == AssignmentStatus.committed
        then w.open_assignments
        else suc w.open_assignments;
    left = drop (length a.task_ids) w.left;
  })

unfoldable pub walk_assignments : Run → List Assignment → Walk → Result Walk
walk_assignments r [] w = ok w
walk_assignments r (a ∷ rest) w = walk_assignment r a w >>= walk_assignments r rest

-- The tests on a run operation that names a predecessor among the operations before it.
unfoldable pub supersession_valid : Run → List Operation → Operation → Bool
supersession_valid r before o =
    o.supersedes == "" || (elim (find? (λ p. p.id == o.supersedes) before) [
      | none ↦ false
      | some p ↦
          not (any (λ q. q.supersedes == p.id) before)
          && not (any (λ x. x.operation_id == p.id) r.run_results)
          && p.basis != o.basis
          && p.kind == o.kind
          && p.description == o.description
          && p.counter == o.counter
          && p.episode == o.episode
    ])

unfoldable pub run_operations_valid :
    Run → List OperationId → List Operation → List Operation → Bool
run_operations_valid r seen before [] = true
run_operations_valid r seen before (o ∷ rest) =
    operation_valid o
    && o.brief_id == ""
    && valid_run_counter o.counter
    && not (contains seen o.id)
    && supersession_valid r before o
    && run_operations_valid r (o.id ∷ seen) (o ∷ before) rest

unfoldable pub run_results_valid : Run → List ResultId → List OperationResult → Bool
run_results_valid r seen [] = true
run_results_valid r seen (x ∷ rest) =
    result_valid x
    && (elim (run_operation r x.operation_id) [ none ↦ false | some o ↦ result_fits o x ])
    && not (contains seen x.id)
    && run_results_valid r (x.id ∷ seen) rest

unfoldable pub baseline_state_valid : Run → Bool
baseline_state_valid r =
    initial_baseline_status_valid r.initial_baseline_status
    && (elim r.initial_baseline_status [
      | InitialBaselineStatus.baseline_pending ↦ not (is_some r.initial_baseline)
      | InitialBaselineStatus.baseline_passed ↦ is_some r.initial_baseline
      | _ ↦ true
    ])
    && (elim r.initial_baseline [
      | none ↦ is_empty r.assignments
      | some e ↦ initial_baseline_valid r e && not r.task_extraction_pending
    ])

-- The tests that follow the loop over the assignments.
unfoldable pub walk_valid : Run → Walk → Bool
walk_valid r w =
    leb w.open_assignments 1
    && all
        (λ kv.
          kv.1 != TaskStatus.accepted_awaiting_commit
          || lookup_or AssignmentStatus.unknown kv.0 w.assigned
            == AssignmentStatus.accepted_awaiting_commit)
        r.leaf_status
    && all (λ id. lookup_or TaskStatus.unknown id r.leaf_status == TaskStatus.pending) w.left
    && run_operations_valid r w.operations [] r.run_operations
    && run_results_valid r w.results r.run_results

unfoldable pub final_state_valid : Run → Bool
final_state_valid r =
    (elim r.final_acceptance [ none ↦ true | some e ↦ final_acceptance_valid r e true ])
    && counters_valid r
    && all (λ e. final_acceptance_valid r e false) r.final_acceptance_history
    && (r.status != RunStatus.succeeded
        || (is_some r.final_acceptance && all_complete r.leaf_status))

unfoldable pub head_valid : Run → Bool
head_valid r =
    identity_valid r.identity && run_status_valid r.status && evidence_valid r.current_state

abbrev pub first_walk : Run → Walk
first_walk r = record {
  seen = [];
  assigned = [];
  briefs = [];
  operations = [];
  results = [];
  open_assignments = 0;
  left = all_leaf_tasks r;
}

unfoldable pub validate : Run → Done
validate r = do
  require (head_valid r)
  require (structure_valid r)
  require (lifecycle_valid r)
  require (leaves_valid r)
  w ← walk_assignments r r.assignments (first_walk r)
  require (walk_valid r w)
  require (baseline_state_valid r)
  require (final_state_valid r)

-- `Succeed`: every failed test is an invalid transition; a panic of `Validate` stays one.
abbrev pub as_refusal : Done → Done
as_refusal (ok _) = done
as_refusal (err Failure.panic) = err panic
as_refusal (err _) = err invalid_transition

-- The tests of `Succeed` after `Validate`.
unfoldable pub may_succeed : Run → Bool
may_succeed r =
    all (λ id. lookup_or TaskStatus.unknown id r.leaf_status == TaskStatus.complete)
      (pending_leaf_tasks r)
    && all_complete r.leaf_status
    && (elim r.final_acceptance [ none ↦ false | some e ↦ final_acceptance_valid r e true ])

unfoldable pub succeed : Run → Returns (Unit {0})
succeed r =
    if not (is_active r) then fail invalid_transition r else elim (as_refusal (validate r)) [
      | err e ↦ fail e r
      | ok _ ↦
          if not (may_succeed r)
          then fail invalid_transition r
          else (done, record r { status = RunStatus.succeeded })
    ]

unfoldable pub new_run_pending_task_extraction : RunIdentity → Result Run
unfolding extraction_run
new_run_pending_task_extraction identity =
    validate (extraction_run identity) >> ok (extraction_run identity)

-- A journal record.
pub record Event : Type 0 where
  pub sequence : ℕ
  pub kind : EventKind
  pub state : Option Run

unfoldable pub event_valid : Event → Done
event_valid e =
    require (e.sequence != 0 && e.kind == EventKind.run_state_recorded)
    >> (elim e.state [ none ↦ err invalid_state | some r ↦ as_invalid (validate r) ])

-- What `json.Unmarshal` decodes from what `json.Marshal` makes of a run; none is an error.
abbrev pub JsonCopy : Type 0
JsonCopy = Run → Option Run

-- `cloneRun`: what is decoded from the encoded run is validated again.
unfoldable pub clone_run : JsonCopy → Run → Result Run
clone_run copy r = elim (copy r) [
  | none ↦ err invalid_state
  | some clone ↦ validate clone >> ok clone
]

unfoldable pub new_run_state_event : JsonCopy → ℕ → Run → Result Event
new_run_state_event copy sequence r = do
  require (sequence != 0)
  as_invalid (validate r)
  state ← clone_run copy r
  ok (record { sequence = sequence; kind = EventKind.run_state_recorded; state = some state })

-- `Apply`, which does not read the current run.
unfoldable pub apply : JsonCopy → Event → Run → Result Run
apply copy e current = do
  event_valid e
  elim e.state [ none ↦ err invalid_state | some r ↦ clone_run copy r ]
