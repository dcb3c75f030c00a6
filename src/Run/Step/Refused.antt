-- ===== src/Run/Step/Refused.antt =====
-- internal/flows/impl_loop/state/state.go: what a call that fails leaves behind.
use stepan.Base.{
  String, true, ◌≡◌, ◌≢◌, List, [], ◌∷◌, Option, none, some, Failure, err, Option-cases, inl, inr,
  arith, refl, limit_exceeded,
}
use stepan.Evidence.{AssignmentId, OperationId, ResultId}
use stepan.Status.{RunStatus, OperationKind, AttemptOutcome}
use stepan.Operation.{Operation, OperationResult}
use stepan.Counters.{LimitPause, limit_pause_valid}
use stepan.Assignment
use stepan.Assignment.{
  Assignment, AcceptanceEvidence, start_attempt, accept, validate_acceptance, checks_prove,
  result_proves,
}
use stepan.Run.{Run, assignment, run_operation}
use stepan.Run.Attempts.Rules.{
  Ends, failure, paused_by, Ends-start_assignment_attempt,
  Ends-start_assignment_attempt_with_limits, Ends-start_run_attempt_of,
  Ends-start_run_attempt_with_limits,
}
use stepan.Run.Step.{Command, execute}
use stepan.Run.Work.{
  active_assignment, append_final_finding_tasks, start_assignment, add_brief_version, add_operation,
  add_result, record_task_review, record_task_review_dispute,
}
use stepan.Run.Attempts.{
  start_run_attempt, store_attempt, record_attempt_outcome, assignment_for_attempt_outcome,
  add_run_operation, supersede_run_operation, record_assignment_attempt_outcome,
  record_run_attempt_outcome, add_run_result,
}
use stepan.Run.Lifecycle.{
  reset_limit_pause, reset_technical, reset_assignment_cycle, end_explorer_episode,
  end_run_explorer_episode, pause, pause_execution_blocked, update_paused_execution_block, resume,
  close,
}
use stepan.Run.Baseline.{
  refresh_initial_baseline, record_initial_baseline_pass, refresh_initial_baseline_pass,
}
use stepan.Run.Tasks.{complete_initial_task_extraction}
use stepan.Run.Acceptance.{
  begin_brief_refinement, accept_assignment, set_pending_commit_intent,
  refresh_pending_commit_intent_tree, commit_assignment, record_reconciled_commit,
  reopen_assignment, observe_code_state, refresh_acceptance_inputs,
}
use stepan.Run.Final.{record_final_acceptance}
use stepan.Run.Validate.{succeed}

-- A failure at a limit has paused the active run with the limit as its reason, and has changed
-- nothing else; any other failure has changed nothing at all.
abbrev pub Clean : Run → Option Failure → Run → Type 0
Clean r none r' = Unit
Clean r (some Failure.limit_exceeded) r' =
    (r.status ≡ RunStatus.active)
    × ((p : LimitPause) × (limit_pause_valid p ≡ true) × (r' ≡ paused_by p r))
Clean r (some _) r' = r' ≡ r

Clean-refused : (r : Run) (e : Failure) → e ≢ limit_exceeded → Clean r (some e) r
Clean-refused r Failure.limit_exceeded n = absurd (n refl)
Clean-refused r Failure.invalid_state n = refl
Clean-refused r _ n = refl

Clean-paused :
    (r : Run) (p : LimitPause)
    → r.status ≡ RunStatus.active
    → limit_pause_valid p ≡ true
    → Clean r (some limit_exceeded) (paused_by p r)
Clean-paused r p active v = (active, (p, v, refl))

Clean-start_attempt :
    (a : Assignment) (o : Operation) (r : Run)
    → Ends (Clean r) (store_attempt r (start_attempt a o))
unfolding start_attempt
Clean-start_attempt a o r = record { at = ground arith }

Clean-start_run_attempt : (o : Operation) (r : Run) → Ends (Clean r) (start_run_attempt o r)
unfolding start_run_attempt
Clean-start_run_attempt o r = record { at = ground arith }

result_proves_plain :
    (a : Assignment) (e : AcceptanceEvidence) (kind : OperationKind) (x : Option OperationResult)
    → result_proves a e kind x ≢ err limit_exceeded
unfolding result_proves
result_proves_plain a e kind x h = ground arith

checks_prove_plain :
    (a : Assignment) (e : AcceptanceEvidence) (ids : List ResultId)
    → checks_prove a e ids ≢ err limit_exceeded
unfolding checks_prove
checks_prove_plain a e [] h = cc
checks_prove_plain a e (id ∷ ids) h = ground (
  arith,
  checks_prove_plain a e ids,
  result_proves_plain a e OperationKind.check (Assignment.result a id),
)

accept_plain : (a : Assignment) (e : AcceptanceEvidence) → accept a e ≢ err limit_exceeded
unfolding accept validate_acceptance
accept_plain a e h = ground (
  arith,
  checks_prove_plain a e e.check_result_ids,
  result_proves_plain a e OperationKind.review (Assignment.result a e.review_result_id),
)

outcome_plain :
    (outcome : AttemptOutcome) (text : String) (o : Option Operation)
    → record_attempt_outcome outcome text o ≢ err limit_exceeded
unfolding record_attempt_outcome
outcome_plain outcome text o h = ground arith

reset_plain : (p : LimitPause) (r : Run) → reset_limit_pause p r ≢ err limit_exceeded
unfolding reset_limit_pause reset_technical reset_assignment_cycle
reset_plain p r h = ground arith

Clean-resume : (r : Run) → Clean r (failure (resume r).0) (resume r).1
unfolding resume
Clean-resume r = elim (Option-cases r.limit_pause) [
  | inl e ↦ rw (e, resume) (ground arith)
  | inr (p, e) ↦ rw (e, resume) (ground (arith, reset_plain p r))
]

Clean-accept_assignment :
    (r : Run) (id : AssignmentId) (e : AcceptanceEvidence)
    → Clean r (failure (accept_assignment id e r).0) (accept_assignment id e r).1
unfolding accept_assignment active_assignment
Clean-accept_assignment r id e = elim (Option-cases (assignment r id)) [
  | inl none_found ↦ ground arith
  | inr (a, found) ↦ ground (arith, accept_plain a e)
]

Clean-outcome :
    (r : Run) (id : AssignmentId) (operation_id : OperationId) (outcome : AttemptOutcome)
    (text : String)
    → let x = record_assignment_attempt_outcome id operation_id outcome text r in
      Clean r (failure x.0) x.1
unfolding record_assignment_attempt_outcome assignment_for_attempt_outcome
Clean-outcome r id operation_id outcome text = elim (Option-cases (assignment r id)) [
  | inl none_found ↦ ground arith
  | inr (a, found) ↦
      ground (arith, outcome_plain outcome text (Assignment.operation a operation_id))
]

-- A call that fails leaves the run exactly as it was, unless it fails at a limit: then the run was
-- active, and it is now paused by a valid limit pause and otherwise as it was.
pub execute-Clean : (c : Command) (r : Run) → Clean r (execute c r).0 (execute c r).1
unfolding execute active_assignment refresh_initial_baseline complete_initial_task_extraction
    append_final_finding_tasks start_assignment record_initial_baseline_pass
    refresh_initial_baseline_pass add_brief_version begin_brief_refinement add_operation add_result
    record_task_review record_task_review_dispute set_pending_commit_intent
    refresh_pending_commit_intent_tree commit_assignment record_reconciled_commit reopen_assignment
    observe_code_state refresh_acceptance_inputs add_run_operation supersede_run_operation
    record_run_attempt_outcome end_explorer_episode end_run_explorer_episode add_run_result
    record_final_acceptance pause pause_execution_blocked update_paused_execution_block close
    succeed
execute-Clean (Command.start_assignment_attempt x y) r =
    (Ends-start_assignment_attempt (Clean r) r (Clean-refused r) (Clean-paused r) x y
      (λ a _ o _. Clean-start_attempt a o r)).at
execute-Clean (Command.start_assignment_attempt_with_limits x y z) r =
    (Ends-start_assignment_attempt_with_limits (Clean r) r (Clean-refused r) (Clean-paused r) x y
      (λ a _ o _. Clean-start_attempt a o r) z).at
execute-Clean (Command.start_run_attempt x) r =
    (Ends-start_run_attempt_of (Clean r) r (Clean-refused r) (Clean-paused r) x
      (λ o _. Clean-start_run_attempt o r)).at
execute-Clean (Command.start_run_attempt_with_limits x y) r =
    (Ends-start_run_attempt_with_limits (Clean r) r (Clean-refused r) (Clean-paused r) x
      (λ o _. Clean-start_run_attempt o r) y).at
execute-Clean (Command.accept_assignment x y) r = Clean-accept_assignment r x y
execute-Clean (Command.record_assignment_attempt_outcome w x y z) r = Clean-outcome r w x y z
execute-Clean (Command.record_run_attempt_outcome x y z) r =
    ground (arith, outcome_plain y z (run_operation r x))
execute-Clean Command.resume r = Clean-resume r
execute-Clean _ r = ground arith
