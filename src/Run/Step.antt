-- ===== src/Run/Step.antt =====
-- internal/flows/impl_loop/state/state.go: the exported methods that change a run, as commands.
pub mod Terminal
pub mod Refused
pub mod StopReasons
pub mod Completion
pub mod Opens
pub mod OneOpen
pub mod Reached
use stepan.Base.{String, List, Option, none, some, Failure, Result, ok, err}
use stepan.Status.{AttemptOutcome}
use stepan.Evidence.{
  TaskId, AssignmentId, OperationId, ResultId, EvidenceRef, Task, BriefVersion, CommitIntent,
  CommitEvidence,
}
use stepan.Operation.{Operation, OperationResult, TaskReviewDispute, TaskReviewRecord}
use stepan.Counters.{CycleLimits, ExecutionBlock}
use stepan.Assignment.{AcceptanceEvidence}
use stepan.Run.{Run, Returns, FinalAcceptanceEvidence}
use stepan.Run.Tasks
use stepan.Run.Work
use stepan.Run.Baseline
use stepan.Run.Acceptance
use stepan.Run.Attempts
use stepan.Run.Attempts.Rules.{failure}
use stepan.Run.Lifecycle
use stepan.Run.Final
use stepan.Run.Validate

-- One constructor for each exported method with a pointer receiver that may write to the run.
pub data Command : Type 0 where
  complete_initial_task_extraction : List Task → Command
  append_final_finding_tasks : List Task → Command
  start_assignment : AssignmentId → List TaskId → Command
  record_initial_baseline_pass : OperationId → ResultId → Command
  refresh_initial_baseline_pass : OperationId → ResultId → Command
  add_brief_version : AssignmentId → BriefVersion → Command
  begin_brief_refinement : AssignmentId → Command
  add_operation : AssignmentId → Operation → Command
  add_result : AssignmentId → OperationResult → Command
  record_task_review : AssignmentId → TaskReviewRecord → Command
  record_task_review_dispute : AssignmentId → TaskReviewDispute → Command
  accept_assignment : AssignmentId → AcceptanceEvidence → Command
  set_pending_commit_intent : AssignmentId → CommitIntent → Command
  refresh_pending_commit_intent_tree : AssignmentId → String → Command
  commit_assignment : AssignmentId → CommitEvidence → Command
  record_reconciled_commit : AssignmentId → CommitEvidence → Command
  reopen_assignment : AssignmentId → EvidenceRef → Command
  observe_code_state : EvidenceRef → Command
  refresh_acceptance_inputs : EvidenceRef → EvidenceRef → Command
  add_run_operation : Operation → Command
  supersede_run_operation : OperationId → Operation → Command
  start_assignment_attempt : AssignmentId → OperationId → Command
  start_assignment_attempt_with_limits : AssignmentId → OperationId → CycleLimits → Command
  record_assignment_attempt_outcome : AssignmentId → OperationId → AttemptOutcome → String → Command
  start_run_attempt : OperationId → Command
  start_run_attempt_with_limits : OperationId → CycleLimits → Command
  record_run_attempt_outcome : OperationId → AttemptOutcome → String → Command
  end_explorer_episode : AssignmentId → String → Command
  end_run_explorer_episode : String → Command
  add_run_result : OperationResult → Command
  record_final_acceptance : FinalAcceptanceEvidence → Command
  pause : String → Command
  pause_execution_blocked : ExecutionBlock → Command
  update_paused_execution_block : ExecutionBlock → Command
  resume : Command
  close : String → Command
  succeed : Command

abbrev pub outcome : {A : Type 0} → Returns A → Option Failure × Run
outcome (result, r) = (failure result, r)

-- The failure that a method returns, and the run that it leaves behind.
unfoldable pub execute : Command → Run → Option Failure × Run
execute (complete_initial_task_extraction w) r =
    outcome (Tasks.complete_initial_task_extraction w r)
execute (append_final_finding_tasks w) r = outcome (Work.append_final_finding_tasks w r)
execute (start_assignment w x) r = outcome (Work.start_assignment w x r)
execute (record_initial_baseline_pass w x) r = outcome (Baseline.record_initial_baseline_pass w x r)
execute (refresh_initial_baseline_pass w x) r =
    outcome (Baseline.refresh_initial_baseline_pass w x r)
execute (add_brief_version w x) r = outcome (Work.add_brief_version w x r)
execute (begin_brief_refinement w) r = outcome (Acceptance.begin_brief_refinement w r)
execute (add_operation w x) r = outcome (Work.add_operation w x r)
execute (add_result w x) r = outcome (Work.add_result w x r)
execute (record_task_review w x) r = outcome (Work.record_task_review w x r)
execute (record_task_review_dispute w x) r = outcome (Work.record_task_review_dispute w x r)
execute (accept_assignment w x) r = outcome (Acceptance.accept_assignment w x r)
execute (set_pending_commit_intent w x) r = outcome (Acceptance.set_pending_commit_intent w x r)
execute (refresh_pending_commit_intent_tree w x) r =
    outcome (Acceptance.refresh_pending_commit_intent_tree w x r)
execute (commit_assignment w x) r = outcome (Acceptance.commit_assignment w x r)
execute (record_reconciled_commit w x) r = outcome (Acceptance.record_reconciled_commit w x r)
execute (reopen_assignment w x) r = outcome (Acceptance.reopen_assignment w x r)
execute (observe_code_state w) r = outcome (Acceptance.observe_code_state w r)
execute (refresh_acceptance_inputs w x) r = outcome (Acceptance.refresh_acceptance_inputs w x r)
execute (add_run_operation w) r = outcome (Attempts.add_run_operation w r)
execute (supersede_run_operation w x) r = outcome (Attempts.supersede_run_operation w x r)
execute (start_assignment_attempt w x) r = outcome (Attempts.start_assignment_attempt w x r)
execute (start_assignment_attempt_with_limits w x y) r =
    outcome (Attempts.start_assignment_attempt_with_limits w x y r)
execute (record_assignment_attempt_outcome w x y z) r =
    outcome (Attempts.record_assignment_attempt_outcome w x y z r)
execute (start_run_attempt w) r = outcome (Attempts.start_run_attempt_of w r)
execute (start_run_attempt_with_limits w x) r =
    outcome (Attempts.start_run_attempt_with_limits w x r)
execute (record_run_attempt_outcome w x y) r = outcome (Attempts.record_run_attempt_outcome w x y r)
execute (end_explorer_episode w x) r = outcome (Lifecycle.end_explorer_episode w x r)
execute (end_run_explorer_episode w) r = outcome (Lifecycle.end_run_explorer_episode w r)
execute (add_run_result w) r = outcome (Attempts.add_run_result w r)
execute (record_final_acceptance w) r = outcome (Final.record_final_acceptance w r)
execute (pause w) r = outcome (Lifecycle.pause w r)
execute (pause_execution_blocked w) r = outcome (Lifecycle.pause_execution_blocked w r)
execute (update_paused_execution_block w) r = outcome (Lifecycle.update_paused_execution_block w r)
execute resume r = outcome (Lifecycle.resume r)
execute (close w) r = outcome (Lifecycle.close w r)
execute succeed r = outcome (Validate.succeed r)

-- The runs that a sequence of calls leads to, failed ones included.
unfoldable pub execute_all : List Command → Run → Run
execute_all List.[] r = r
execute_all (List.◌∷◌ c cs) r = execute_all cs (execute c r).1
