-- ===== src/Run/Work.antt =====
-- internal/flows/impl_loop/state/state.go: work on the current assignment: its selection, its
-- briefs, operations and results, and the task-review discussion.
use stepan.Base.{
  suc, Bool, true, false, ◌&&◌, ◌||◌, none, some, List, [], ◌∷◌, ◌++◌, ◌==◌, ◌!=◌, not, string_eq,
  nat_eq, ℤ, pos, int_eq, inc_int, length, is_empty, any, keep, get_last?, take, leb, list_beq,
  if◌then◌else◌, Result, ok, err, done, invalid_state, invalid_transition,
}
use stepan.Status.{
  AssignmentStatus, OperationKind, CycleCounter, ResultStatus, FindingStatus, assignment_status_eq,
  operation_kind_eq, cycle_counter_eq, result_status_eq, finding_status_eq,
  valid_assignment_counter,
}
use stepan.Evidence.{TaskId, AssignmentId, Task, BriefVersion, evidence_eq, basis_eq, brief_valid}
use stepan.Operation.{
  Operation, OperationResult, TaskReviewFinding, TaskReviewDispute, TaskReviewRecord,
  operation_valid, result_valid, review_valid, dispute_valid,
}
use stepan.Counters.{next_cycle}
use stepan.Assignment
use stepan.Assignment.{Assignment, no_counters, has_brief}
use stepan.Run.{
  Run, Returns, fail, is_active, is_some, assignment, put_assignment, has_open_assignment,
  brief_exists, operation_exists, result_exists, invalidate_final_acceptance,
}
use stepan.Run.Tasks.{pending_leaf_tasks, appended_valid, append_tasks, task_ids, all_complete}
use stepan.Run.Baseline.{has_current_initial_baseline}

unfoldable pub append_final_finding_tasks : List Task → Run → Returns (Unit {0})
append_final_finding_tasks tasks r =
    if not (is_active r)
    then fail invalid_transition r
    else if not (has_current_initial_baseline r) || has_open_assignment r || is_empty tasks
    then fail invalid_transition r
    else if not (all_complete r.leaf_status)
    then fail invalid_transition r
    else if not (appended_valid r (length r.tasks) (task_ids r.tasks) tasks)
    then fail invalid_state r
    else (done, invalidate_final_acceptance (append_tasks tasks r))

-- A new assignment, with the zero values written out.
unfoldable pub new_assignment : AssignmentId → List TaskId → Assignment
new_assignment id tasks = record {
  id = id;
  task_ids = tasks;
  status = AssignmentStatus.active;
  briefs = [];
  operations = [];
  results = [];
  acceptance = none;
  acceptance_history = [];
  reconciled_commits = [];
  commit = none;
  counters = no_counters;
  task_reviews = [];
  pending_task_review_disputes = [];
}

unfoldable pub start_assignment : AssignmentId → List TaskId → Run → Returns (Unit {0})
unfolding new_assignment
start_assignment id tasks r =
    let waiting = pending_leaf_tasks r in
    let r' = invalidate_final_acceptance r in
    if not (is_active r)
    then fail invalid_transition r
    else if not (has_current_initial_baseline r)
    then fail invalid_transition r
    else if id == "" || is_some (assignment r id) || has_open_assignment r
    then fail invalid_state r
    else if is_empty tasks
        || not (leb (length tasks) (length waiting))
        || not (list_beq tasks (take (length tasks) waiting))
    then fail invalid_state r
    else (done, record r' { assignments = r'.assignments ++ new_assignment id tasks ∷ [] })

-- `activeAssignment`: an assignment that takes work, of an active run.
unfoldable pub active_assignment : Run → AssignmentId → Result Assignment
active_assignment r id =
    if not (is_active r) then err invalid_transition else elim (assignment r id) [
      | none ↦ err invalid_transition
      | some a ↦ if a.status != AssignmentStatus.active then err invalid_transition else ok a
    ]

unfoldable pub next_brief_number : Assignment → ℤ
next_brief_number a = elim (get_last? a.briefs) [ none ↦ pos 1 | some b ↦ inc_int b.number ]

unfoldable pub add_brief_version : AssignmentId → BriefVersion → Run → Returns (Unit {0})
add_brief_version id brief r = elim (active_assignment r id) [
  | err e ↦ fail e r
  | ok a ↦
      if not (brief_valid brief) || brief_exists r brief.id || brief.number != next_brief_number a
      then fail invalid_state r
      else (done, put_assignment (record a { briefs = a.briefs ++ brief ∷ [] }) r)
]

unfoldable pub add_operation : AssignmentId → Operation → Run → Returns (Unit {0})
add_operation id o r = elim (active_assignment r id) [
  | err e ↦ fail e r
  | ok a ↦
      if not (operation_valid o)
        || o.supersedes != ""
        || o.brief_id == ""
        || o.uncounted_resume_check
        || not (valid_assignment_counter o.counter)
        || operation_exists r o.id
        || not (has_brief a o.brief_id)
      then fail invalid_state r
      else (done, put_assignment (record a { operations = a.operations ++ o ∷ [] }) r)
]

-- A successful mandatory set closes its semantic cycle.
unfoldable pub close_mandatory_cycle : Operation → OperationResult → Assignment → Assignment
close_mandatory_cycle o x a =
    if o.counter == CycleCounter.mandatory_checks && x.status == ResultStatus.succeeded
    then record a {
      counters = record a.counters {
        mandatory_checks = 0;
        mandatory_checks_cycle = next_cycle a.counters.mandatory_checks_cycle;
      };
    }
    else a

-- A result needs an operation with an attempt, or an uncounted one, on the result's basis.
unfoldable pub result_fits : Operation → OperationResult → Bool
result_fits o x = (o.uncounted_resume_check || not (is_empty o.attempts)) && x.basis == o.basis

unfoldable pub add_result : AssignmentId → OperationResult → Run → Returns (Unit {0})
add_result id x r = elim (active_assignment r id) [
  | err e ↦ fail e r
  | ok a ↦ elim (Assignment.operation a x.operation_id) [
    | none ↦ fail invalid_state r
    | some o ↦
        if not (result_valid x) || result_exists r x.id || not (result_fits o x)
        then fail invalid_state r
        else (
          done,
          put_assignment (close_mandatory_cycle o x (record a { results = a.results ++ x ∷ [] })) r,
        )
  ]
]

-- Two disputes with the same finding, arguments and references, in the same order.
unfoldable pub disputes_equal : List TaskReviewDispute → List TaskReviewDispute → Bool
disputes_equal [] [] = true
disputes_equal [] (d ∷ ds) = false
disputes_equal (c ∷ cs) [] = false
disputes_equal (c ∷ cs) (d ∷ ds) =
    c.finding_id == d.finding_id
    && c.arguments == d.arguments
    && list_beq c.references d.references
    && disputes_equal cs ds

-- The review operation and the result that a record cites, at the state that it names.
unfoldable pub review_matches : Assignment → TaskReviewRecord → Bool
review_matches a v = elim (Assignment.operation a v.operation_id) [
  | none ↦ false
  | some o ↦ elim (Assignment.result a v.result_id) [
    | none ↦ false
    | some x ↦
        x.operation_id == o.id
        && o.kind == OperationKind.review
        && o.counter == CycleCounter.assignment_review
        && x.state == v.state
        && x.basis == o.basis
  ]
]

unfoldable pub record_task_review : AssignmentId → TaskReviewRecord → Run → Returns (Unit {0})
record_task_review id v r = elim (active_assignment r id) [
  | err e ↦ fail e r
  | ok a ↦
      if not (review_valid v)
        || v.round != suc (length a.task_reviews)
        || v.state != r.current_state
      then fail invalid_state r
      else if not (review_matches a v)
      then fail invalid_state r
      else if not (disputes_equal v.disputes a.pending_task_review_disputes)
      then fail invalid_state r
      else (
        done,
        put_assignment
            (record a {
              task_reviews = a.task_reviews ++ v ∷ [];
              pending_task_review_disputes = [];
            })
            r,
      )
]

abbrev pub is_unresolved : TaskReviewFinding → Bool
is_unresolved f = f.status == FindingStatus.open_finding || f.status == FindingStatus.retained

unfoldable pub open_task_review_findings : Run → AssignmentId → List TaskReviewFinding
open_task_review_findings r id = elim (assignment r id) [
  | none ↦ []
  | some a ↦ elim (get_last? a.task_reviews) [
    | none ↦ []
    | some latest ↦ keep is_unresolved latest.findings
  ]
]

unfoldable pub record_task_review_dispute :
    AssignmentId → TaskReviewDispute → Run → Returns (Unit {0})
record_task_review_dispute id d r = elim (active_assignment r id) [
  | err e ↦ fail e r
  | ok a ↦
      if not (dispute_valid d)
      then fail invalid_state r
      else if any (λ f. f.id == d.finding_id) (open_task_review_findings r id)
      then (
        done,
        put_assignment
            (record a { pending_task_review_disputes = a.pending_task_review_disputes ++ d ∷ [] })
            r,
      )
      else fail invalid_state r
]
