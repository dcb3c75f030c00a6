-- ===== src/Run/Step/OneOpen.antt =====
-- internal/flows/impl_loop/state/state.go: at most one assignment is open at a time.
use stepan.Base.{
  true, ◌≡◌, ◌≢◌, List, [], ◌∷◌, Option, some, Failure, ok, Option-cases, Result-cases, inl, inr,
  arith, refl, ◌!=◌, string_eq, ◌≤◌,
}
use stepan.Status.{RunStatus, assignment_status_eq}
use stepan.Evidence.{TaskId, AssignmentId, EvidenceRef, Task, evidence_eq}
use stepan.Assignment.{Assignment, AcceptanceEvidence, start_attempt}
use stepan.Operation.{Operation}
use stepan.Counters.{LimitPause, limit_pause_valid}
use stepan.Run.{Run, invalidate_final_acceptance, has_open_assignment}
use stepan.Run.Tasks.{append_tasks, complete_initial_task_extraction}
use stepan.Run.Step.{Command, execute}
use stepan.Run.Work.{
  active_assignment, append_final_finding_tasks, start_assignment, new_assignment,
}
use stepan.Run.Attempts.{
  store_attempt, start_run_attempt, add_run_operation, supersede_run_operation,
  record_run_attempt_outcome, add_run_result,
}
use stepan.Run.Attempts.Rules.{
  Ends, paused_by, Ends-start_assignment_attempt, Ends-start_assignment_attempt_with_limits,
  Ends-start_run_attempt_of, Ends-start_run_attempt_with_limits,
}
use stepan.Run.Lifecycle.{
  reset_limit_pause, end_run_explorer_episode, pause, pause_execution_blocked,
  update_paused_execution_block, resume, close,
}
use stepan.Run.Acceptance.{observe_code_state, refresh_acceptance_inputs}
use stepan.Run.Baseline.{
  refresh_initial_baseline, record_initial_baseline_pass, refresh_initial_baseline_pass,
}
use stepan.Run.Final.{record_final_acceptance}
use stepan.Run.Validate.{succeed}
use stepan.Run.Step.Opens.{
  open_count, open_count-none, open_count-append, open_count-reopen_each, opens-add_brief_version,
  opens-add_operation, opens-add_result, opens-accept_assignment, opens-set_pending_commit_intent,
  opens-refresh_pending_commit_intent_tree, opens-commit_assignment, opens-record_reconciled_commit,
  opens-reopen_assignment, opens-record_task_review, opens-record_task_review_dispute,
  opens-end_explorer_episode, opens-begin_brief_refinement, opens-outcome, opens-start_attempt,
  opens-reset,
}

-- What a call leaves of the bound: a failure and a pause included.
abbrev AtMostOne : Run → Option Failure → Run → Type 0
AtMostOne r _ r' = open_count r'.assignments ≤ 1

open_count-append_tasks :
    (tasks : List Task) (r : Run) → (append_tasks tasks r).assignments ≡ r.assignments
unfolding append_tasks
open_count-append_tasks [] r = refl
open_count-append_tasks (t ∷ rest) r = open_count-append_tasks rest _

invalidate-assignments : (r : Run) → (invalidate_final_acceptance r).assignments ≡ r.assignments
unfolding invalidate_final_acceptance
invalidate-assignments r = ground arith

module _ (r : Run) (h : open_count r.assignments ≤ 1) where
  one-refused : (e : Failure) → e ≢ Failure.limit_exceeded → AtMostOne r (some e) r
  one-refused e n = h

  one-paused :
      (p : LimitPause)
      → r.status ≡ RunStatus.active
      → limit_pause_valid p ≡ true
      → AtMostOne r (some Failure.limit_exceeded) (paused_by p r)
  one-paused p active v = h

  one-start_attempt :
      (id : AssignmentId) (a : Assignment)
      → active_assignment r id ≡ ok a
      → (o : Operation) → Ends (AtMostOne r) (store_attempt r (start_attempt a o))
  unfolding active_assignment
  one-start_attempt id a found o = record { at = ground (arith, opens-start_attempt id r a o) }

  one-start_run_attempt : (o : Operation) → Ends (AtMostOne r) (start_run_attempt o r)
  unfolding start_run_attempt
  one-start_run_attempt o = record { at = ground arith }

  one-resume : open_count (resume r).1.assignments ≤ 1
  unfolding resume
  one-resume = elim (Option-cases r.limit_pause) [
    | inl e ↦ ground arith
    | inr (p, e) ↦ elim (Result-cases (reset_limit_pause p r)) [
      | inl (f, fails) ↦ ground arith
      | inr (r', resets) ↦ ground (arith, opens-reset p r resets)
    ]
  ]

  one-start_assignment :
      (id : AssignmentId) (tasks : List TaskId)
      → open_count (start_assignment id tasks r).1.assignments ≤ 1
  unfolding start_assignment has_open_assignment
  one-start_assignment id tasks = ground (
    arith,
    invalidate-assignments r,
    open_count-append r.assignments (new_assignment id tasks),
    open_count-none r.assignments,
  )

  one-append :
      (tasks : List Task) → open_count (append_final_finding_tasks tasks r).1.assignments ≤ 1
  unfolding append_final_finding_tasks
  one-append tasks =
      ground (arith, open_count-append_tasks tasks r, invalidate-assignments (append_tasks tasks r))

  one-observe : (e : EvidenceRef) → open_count (observe_code_state e r).1.assignments ≤ 1
  unfolding observe_code_state invalidate_final_acceptance
  one-observe e =
      ground
        (arith, open_count-reopen_each (λ (x : AcceptanceEvidence). x.state != e) r.assignments)

  one-refresh : (s c : EvidenceRef) → open_count (refresh_acceptance_inputs s c r).1.assignments ≤ 1
  unfolding refresh_acceptance_inputs invalidate_final_acceptance
  one-refresh s c =
      ground (arith, open_count-reopen_each (λ (x : AcceptanceEvidence). true) r.assignments)

-- A call on a run with at most one open assignment, that is, one that is not committed, leaves a
-- run with at most one.
pub execute-open_count :
    (c : Command) (r : Run)
    → open_count r.assignments ≤ 1
    → open_count (execute c r).1.assignments ≤ 1
unfolding execute invalidate_final_acceptance refresh_initial_baseline
    complete_initial_task_extraction record_initial_baseline_pass refresh_initial_baseline_pass
    add_run_operation supersede_run_operation record_run_attempt_outcome end_run_explorer_episode
    add_run_result record_final_acceptance pause pause_execution_blocked
    update_paused_execution_block close succeed
execute-open_count (Command.start_assignment_attempt x y) r h =
    (Ends-start_assignment_attempt (AtMostOne r) r (one-refused r h) (one-paused r h) x y
      (λ a found o _. one-start_attempt r h x a found o)).at
execute-open_count (Command.start_assignment_attempt_with_limits x y z) r h =
    (Ends-start_assignment_attempt_with_limits (AtMostOne r) r (one-refused r h) (one-paused r h) x
      y (λ a found o _. one-start_attempt r h x a found o) z).at
execute-open_count (Command.start_run_attempt x) r h =
    (Ends-start_run_attempt_of (AtMostOne r) r (one-refused r h) (one-paused r h) x
      (λ o _. one-start_run_attempt r h o)).at
execute-open_count (Command.start_run_attempt_with_limits x y) r h =
    (Ends-start_run_attempt_with_limits (AtMostOne r) r (one-refused r h) (one-paused r h) x
      (λ o _. one-start_run_attempt r h o) y).at
execute-open_count Command.resume r h = one-resume r h
execute-open_count (Command.start_assignment x y) r h = one-start_assignment r h x y
execute-open_count (Command.append_final_finding_tasks x) r h = one-append r h x
execute-open_count (Command.observe_code_state x) r h = one-observe r h x
execute-open_count (Command.refresh_acceptance_inputs x y) r h = one-refresh r h x y
execute-open_count (Command.add_brief_version x y) r h =
    ground (arith, opens-add_brief_version x r y)
execute-open_count (Command.add_operation x y) r h = ground (arith, opens-add_operation x r y)
execute-open_count (Command.add_result x y) r h = ground (arith, opens-add_result x r y)
execute-open_count (Command.record_task_review x y) r h =
    ground (arith, opens-record_task_review x r y)
execute-open_count (Command.record_task_review_dispute x y) r h =
    ground (arith, opens-record_task_review_dispute x r y)
execute-open_count (Command.accept_assignment x y) r h =
    ground (arith, opens-accept_assignment x r y)
execute-open_count (Command.set_pending_commit_intent x y) r h =
    ground (arith, opens-set_pending_commit_intent x r y)
execute-open_count (Command.refresh_pending_commit_intent_tree x y) r h =
    ground (arith, opens-refresh_pending_commit_intent_tree x r y)
execute-open_count (Command.commit_assignment x y) r h =
    ground (arith, opens-commit_assignment x r y)
execute-open_count (Command.record_reconciled_commit x y) r h =
    ground (arith, opens-record_reconciled_commit x r y)
execute-open_count (Command.reopen_assignment x y) r h =
    ground (arith, opens-reopen_assignment x r y)
execute-open_count (Command.begin_brief_refinement x) r h =
    ground (arith, opens-begin_brief_refinement x r)
execute-open_count (Command.end_explorer_episode x y) r h =
    ground (arith, opens-end_explorer_episode x r y)
execute-open_count (Command.record_assignment_attempt_outcome x y z w) r h =
    ground (arith, opens-outcome x r y z w)
execute-open_count _ r h = ground arith
