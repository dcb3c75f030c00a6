-- ===== src/Run/Step/Terminal.antt =====
-- internal/flows/impl_loop/state/state.go: closed and succeeded runs cannot be reopened.
use stepan.Base.{◌≡◌, ◌≢◌, ◌⊎◌, none, arith}
use stepan.Status.{RunStatus}
use stepan.Run.{Run}
use stepan.Run.Step.{Command, execute}
use stepan.Run.Work.{
  active_assignment, append_final_finding_tasks, start_assignment, add_brief_version, add_operation,
  add_result, record_task_review, record_task_review_dispute,
}
use stepan.Run.Attempts.{
  run_startable, assignment_for_attempt_outcome, add_run_operation, supersede_run_operation,
  start_assignment_attempt, start_assignment_attempt_with_limits, record_assignment_attempt_outcome,
  start_run_attempt_of, start_run_attempt_with_limits, record_run_attempt_outcome, add_run_result,
}
use stepan.Run.Tasks.{complete_initial_task_extraction}
use stepan.Run.Baseline.{record_initial_baseline_pass, refresh_initial_baseline_pass}
use stepan.Run.Acceptance.{
  begin_brief_refinement, accept_assignment, set_pending_commit_intent,
  refresh_pending_commit_intent_tree, commit_assignment, record_reconciled_commit,
  reopen_assignment, observe_code_state, refresh_acceptance_inputs,
}
use stepan.Run.Lifecycle.{
  end_explorer_episode, end_run_explorer_episode, pause, pause_execution_blocked,
  update_paused_execution_block, resume, close,
}
use stepan.Run.Final.{record_final_acceptance}
use stepan.Run.Validate.{succeed}

abbrev pub IsTerminal : Run → Type 0
IsTerminal r = (r.status ≡ RunStatus.closed) ⊎ (r.status ≡ RunStatus.succeeded)

-- A closed or succeeded run refuses every call, and no call changes it.
pub terminal_refuses :
    (c : Command) (r : Run) → IsTerminal r → ((execute c r).0 ≢ none) × ((execute c r).1 ≡ r)
unfolding execute active_assignment run_startable assignment_for_attempt_outcome
    complete_initial_task_extraction append_final_finding_tasks start_assignment
    record_initial_baseline_pass refresh_initial_baseline_pass add_brief_version
    begin_brief_refinement add_operation add_result record_task_review record_task_review_dispute
    accept_assignment set_pending_commit_intent refresh_pending_commit_intent_tree commit_assignment
    record_reconciled_commit reopen_assignment observe_code_state refresh_acceptance_inputs
    add_run_operation supersede_run_operation start_assignment_attempt
    start_assignment_attempt_with_limits record_assignment_attempt_outcome start_run_attempt_of
    start_run_attempt_with_limits record_run_attempt_outcome end_explorer_episode
    end_run_explorer_episode add_run_result record_final_acceptance pause pause_execution_blocked
    update_paused_execution_block resume close succeed
terminal_refuses (Command.pause w) r h = ground arith
terminal_refuses _ r h = ground arith
