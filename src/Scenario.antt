-- ===== src/Scenario.antt =====
-- A short life of a run, for the tests: two tasks, the initial baseline, and an assignment of the
-- first task that is checked, reviewed, accepted and committed; the same with both tasks, up to the
-- final acceptance; and a run that a limit pauses.
use stepan.Base.{
  String, Bool, true, false, List, [], ◌∷◌, Option, none, some, ℤ, pos, Failure, Result, ok, err,
}
use stepan.Status.{OperationKind, CycleCounter, AttemptOutcome, ResultStatus}
use stepan.Evidence.{
  EvidenceRef, AcceptanceBasis, RunIdentity, Task, BriefVersion, CommitIntent, CommitEvidence,
}
use stepan.Operation.{Operation, OperationResult}
use stepan.Counters.{CycleLimits}
use stepan.Assignment.{AcceptanceEvidence}
use stepan.Run.{Run, FinalAcceptanceEvidence}
use stepan.Run.Step.{Command}

abbrev pub ev : String → EvidenceRef
ev id = record { id = id; digest = "sha" }

abbrev pub basis : AcceptanceBasis
basis = record { specification = ev "spec"; configuration = ev "config" }

abbrev pub identity : RunIdentity
identity = record {
  id = "run";
  change = "change";
  repository = "repo";
  work_copy = "copy";
  branch = "main";
  baseline_commit = "c0";
  baseline_state = ev "s0";
  specification = ev "spec";
  task_list = ev "tasks";
  configuration = ev "config";
}

abbrev pub task : String → ℤ → Task
task id order = record { id = id; parent_id = ""; order = order; title = id; final_findings = [] }

abbrev pub two_tasks : List Task
two_tasks = task "t1" (pos 0) ∷ task "t2" (pos 1) ∷ []

abbrev pub limits : CycleLimits
limits = record {
  assignment_review = pos 2;
  mandatory_checks = pos 2;
  checks_requested = pos 2;
  brief_refinement = pos 2;
  explorer = pos 2;
  technical_attempts = pos 1;
  final_review = pos 2;
}

abbrev pub new_operation : String → OperationKind → String → CycleCounter → Operation
new_operation id kind brief counter = record {
  id = id;
  kind = kind;
  brief_id = brief;
  basis = basis;
  description = id;
  counter = counter;
  supersedes = "";
  episode = "";
  attempts = [];
  semantic_cycle = 0;
  technical_attempt_start = 0;
  uncounted_resume_check = false;
}

abbrev pub passed : String → String → OperationResult
passed id operation = record {
  id = id;
  operation_id = operation;
  status = ResultStatus.succeeded;
  state = ev "s0";
  basis = basis;
  evidence = [];
}

abbrev pub brief : BriefVersion
brief = record { id = "b1"; number = pos 1; document = ev "doc" }

abbrev pub acceptance : AcceptanceEvidence
acceptance = record {
  brief_id = "b1";
  state = ev "s0";
  basis = basis;
  check_result_ids = "r1" ∷ [];
  review_result_id = "r2";
  pending_commit = record { operation_id = ""; parent_commit = ""; tree = ""; message = "" };
}

abbrev pub intent : CommitIntent
intent = record { operation_id = "k"; parent_commit = "c0"; tree = "tree"; message = "one" }

abbrev pub commit : CommitEvidence
commit = record {
  operation_id = "k";
  commit_id = "c1";
  parent_commit = "c0";
  tree = "tree";
  message = "one";
  state = ev "s0";
  basis = basis;
}

abbrev pub to_checked_of : List String → List Command
to_checked_of tasks =
    Command.add_run_operation (new_operation "base" OperationKind.check "" CycleCounter.no_counter)
    ∷ Command.start_run_attempt "base"
    ∷ Command.record_run_attempt_outcome "base" AttemptOutcome.succeeded ""
    ∷ Command.add_run_result (passed "r0" "base")
    ∷ Command.record_initial_baseline_pass "base" "r0"
    ∷ Command.start_assignment "a1" tasks
    ∷ Command.add_brief_version "a1" brief
    ∷ Command.add_operation "a1"
        (new_operation "o1" OperationKind.check "b1" CycleCounter.mandatory_checks)
    ∷ []

abbrev pub to_checked : List Command
to_checked = to_checked_of ("t1" ∷ [])

abbrev pub to_reviewed : List Command
to_reviewed =
    Command.start_assignment_attempt_with_limits "a1" "o1" limits
    ∷ Command.add_result "a1" (passed "r1" "o1")
    ∷ Command.add_operation "a1"
        (new_operation "o2" OperationKind.review "b1" CycleCounter.assignment_review)
    ∷ Command.start_assignment_attempt "a1" "o2"
    ∷ Command.add_result "a1" (passed "r2" "o2")
    ∷ []

abbrev pub to_intended : List Command
to_intended =
    Command.accept_assignment "a1" acceptance ∷ Command.set_pending_commit_intent "a1" intent ∷ []

abbrev pub final_acceptance : FinalAcceptanceEvidence
final_acceptance = record {
  state = ev "s0";
  basis = basis;
  check_result_ids = "r3" ∷ [];
  review_result_id = "r4";
  open_finding_ids = [];
}

abbrev pub to_accepted : List Command
to_accepted =
    Command.commit_assignment "a1" commit
    ∷ Command.add_run_operation (new_operation "o3" OperationKind.check "" CycleCounter.no_counter)
    ∷ Command.start_run_attempt_with_limits "o3" limits
    ∷ Command.add_run_result (passed "r3" "o3")
    ∷ Command.add_run_operation
        (new_operation "o4" OperationKind.review "" CycleCounter.final_review)
    ∷ Command.start_run_attempt_with_limits "o4" limits
    ∷ Command.add_run_result (passed "r4" "o4")
    ∷ Command.record_final_acceptance final_acceptance
    ∷ []

-- The runs unfold with everything that computes them.
unfoldable pub new : Run
unfolding stepan.Counters.next_cycle stepan.Counters.current_cycle stepan.Counters.limits_valid
    stepan.Counters.limit_pause_valid stepan.Counters.block_valid stepan.Evidence.evidence_valid
    stepan.Evidence.basis_valid stepan.Evidence.identity_valid
    stepan.Evidence.initial_baseline_evidence_valid stepan.Evidence.finding_reference_valid
    stepan.Evidence.brief_valid stepan.Evidence.intent_valid stepan.Evidence.commit_valid
    stepan.Evidence.matches_intent stepan.Run.current_basis stepan.Run.has_task
    stepan.Run.is_leaf_of stepan.Run.is_leaf stepan.Run.children stepan.Run.assignment
    stepan.Run.has_open_assignment stepan.Run.run_operation stepan.Run.run_result
    stepan.Run.has_run_result_for_operation stepan.Run.brief_exists stepan.Run.operation_exists
    stepan.Run.result_exists stepan.Run.is_failed_final_review
    stepan.Run.invalidate_final_acceptance stepan.Operation.operation_head_valid
    stepan.Operation.attempt_valid stepan.Operation.attempts_valid stepan.Operation.operation_valid
    stepan.Operation.technical_attempts stepan.Operation.result_valid stepan.Operation.finding_valid
    stepan.Operation.dispute_valid stepan.Operation.findings_valid stepan.Operation.review_valid
    stepan.Assignment.has_brief stepan.Assignment.operation stepan.Assignment.result
    stepan.Assignment.has_result_for_operation stepan.Assignment.has_duplicates_from
    stepan.Assignment.has_duplicates stepan.Assignment.result_proves stepan.Assignment.checks_prove
    stepan.Assignment.not_current_brief stepan.Assignment.validate_acceptance
    stepan.Assignment.accept stepan.Assignment.cycle_count stepan.Assignment.cycle_generation
    stepan.Assignment.count_cycle stepan.Assignment.first_attempt stepan.Assignment.retry
    stepan.Assignment.start_attempt stepan.Run.Counters.maps_equal
    stepan.Run.Counters.tally_operation stepan.Run.Counters.tally_assignment_operation
    stepan.Run.Counters.tally_run_operation stepan.Run.Counters.tally_all
    stepan.Run.Counters.run_counters_valid stepan.Run.Counters.assignment_counters_valid
    stepan.Run.Counters.counters_valid stepan.Run.Final.run_result_proves
    stepan.Run.Final.final_acceptance_current stepan.Run.Final.final_acceptance_valid
    stepan.Run.Final.record_final_acceptance stepan.Run.Validate.lifecycle_valid
    stepan.Run.Validate.leaves_valid stepan.Run.Validate.assignment_operation_valid
    stepan.Run.Validate.assignment_result_valid stepan.Run.Validate.reviews_valid
    stepan.Run.Validate.history_valid stepan.Run.Validate.status_valid
    stepan.Run.Validate.validate_assignment stepan.Run.Validate.brief_ids
    stepan.Run.Validate.operation_ids stepan.Run.Validate.result_ids
    stepan.Run.Validate.assign_tasks stepan.Run.Validate.pending_current
    stepan.Run.Validate.walk_assignment stepan.Run.Validate.walk_assignments
    stepan.Run.Validate.supersession_valid stepan.Run.Validate.run_operations_valid
    stepan.Run.Validate.run_results_valid stepan.Run.Validate.baseline_state_valid
    stepan.Run.Validate.walk_valid stepan.Run.Validate.final_state_valid
    stepan.Run.Validate.head_valid stepan.Run.Validate.validate stepan.Run.Validate.may_succeed
    stepan.Run.Validate.succeed stepan.Run.Validate.new_run_pending_task_extraction
    stepan.Run.Validate.event_valid stepan.Run.Validate.clone_run
    stepan.Run.Validate.new_run_state_event stepan.Run.Validate.apply stepan.Run.Tasks.finding_key
    stepan.Run.Tasks.provenance_valid stepan.Run.Tasks.parent_valid stepan.Run.Tasks.tasks_valid
    stepan.Run.Tasks.structure_valid stepan.Run.Tasks.pending_leaves stepan.Run.Tasks.fresh_run
    stepan.Run.Tasks.new_run stepan.Run.Tasks.extraction_run
    stepan.Run.Tasks.complete_initial_task_extraction stepan.Run.Tasks.appended_valid
    stepan.Run.Tasks.task_ids stepan.Run.Tasks.append_tasks stepan.Run.Tasks.children_status
    stepan.Run.Tasks.task_status_from stepan.Run.Tasks.task_status stepan.Run.Tasks.pending_from
    stepan.Run.Tasks.pending_leaf_tasks stepan.Run.Tasks.leaves_from stepan.Run.Tasks.all_leaf_tasks
    stepan.Run.Attempts.add_run_operation stepan.Run.Attempts.replacement_valid
    stepan.Run.Attempts.supersede_run_operation stepan.Run.Attempts.add_run_result
    stepan.Run.Attempts.limit_reason stepan.Run.Attempts.pause_for_limit
    stepan.Run.Attempts.startable stepan.Run.Attempts.start_assignment_attempt
    stepan.Run.Attempts.within_limits stepan.Run.Attempts.start_assignment_attempt_with_limits
    stepan.Run.Attempts.start_run_attempt stepan.Run.Attempts.run_startable
    stepan.Run.Attempts.start_run_attempt_of stepan.Run.Attempts.within_run_limits
    stepan.Run.Attempts.start_run_attempt_with_limits stepan.Run.Attempts.set_last_outcome
    stepan.Run.Attempts.record_attempt_outcome stepan.Run.Attempts.assignment_for_attempt_outcome
    stepan.Run.Attempts.record_assignment_attempt_outcome
    stepan.Run.Attempts.record_run_attempt_outcome stepan.Run.Lifecycle.pause
    stepan.Run.Lifecycle.pause_execution_blocked stepan.Run.Lifecycle.update_paused_execution_block
    stepan.Run.Lifecycle.end_explorer_episode stepan.Run.Lifecycle.end_run_explorer_episode
    stepan.Run.Lifecycle.reopen_window stepan.Run.Lifecycle.reset_cycle
    stepan.Run.Lifecycle.reset_technical stepan.Run.Lifecycle.reset_assignment_cycle
    stepan.Run.Lifecycle.reset_limit_pause stepan.Run.Lifecycle.resume stepan.Run.Lifecycle.close
    stepan.Run.Acceptance.accept_assignment stepan.Run.Acceptance.reopened
    stepan.Run.Acceptance.reopen stepan.Run.Acceptance.begin_brief_refinement
    stepan.Run.Acceptance.awaiting stepan.Run.Acceptance.set_pending_commit_intent
    stepan.Run.Acceptance.refresh_pending_commit_intent_tree stepan.Run.Acceptance.commit_matches
    stepan.Run.Acceptance.commit_assignment stepan.Run.Acceptance.record_reconciled_commit
    stepan.Run.Acceptance.reopen_assignment stepan.Run.Acceptance.reopen_each
    stepan.Run.Acceptance.reopen_leaves stepan.Run.Acceptance.observe_code_state
    stepan.Run.Acceptance.refresh_acceptance_inputs stepan.Run.Step.execute
    stepan.Run.Step.execute_all stepan.Run.Baseline.check_proves
    stepan.Run.Baseline.initial_baseline_valid stepan.Run.Baseline.has_current_initial_baseline
    stepan.Run.Baseline.refresh_initial_baseline stepan.Run.Baseline.record_initial_baseline_pass
    stepan.Run.Baseline.refresh_initial_baseline_pass
    stepan.Run.Baseline.needs_initial_baseline_refresh stepan.Run.Work.append_final_finding_tasks
    stepan.Run.Work.new_assignment stepan.Run.Work.start_assignment
    stepan.Run.Work.active_assignment stepan.Run.Work.next_brief_number
    stepan.Run.Work.add_brief_version stepan.Run.Work.add_operation
    stepan.Run.Work.close_mandatory_cycle stepan.Run.Work.result_fits stepan.Run.Work.add_result
    stepan.Run.Work.disputes_equal stepan.Run.Work.review_matches stepan.Run.Work.record_task_review
    stepan.Run.Work.open_task_review_findings stepan.Run.Work.record_task_review_dispute
    stepan.Base.is_blank stepan.Base.text_append stepan.Base.◌>>=◌
new = record (stepan.Run.Tasks.fresh_run identity two_tasks) {
  leaf_status = stepan.Run.Tasks.pending_leaves two_tasks two_tasks;
}

unfoldable pub checked : Run
unfolding new
checked = stepan.Run.Step.execute_all to_checked new

unfoldable pub reviewed : Run
unfolding checked
reviewed = stepan.Run.Step.execute_all to_reviewed checked

unfoldable pub intended : Run
unfolding reviewed
intended = stepan.Run.Step.execute_all to_intended reviewed

unfoldable pub committed : Run
unfolding intended
committed = stepan.Run.Step.execute_all (Command.commit_assignment "a1" commit ∷ []) intended

unfoldable pub closed : Run
unfolding committed
closed = stepan.Run.Step.execute_all (Command.close "scope" ∷ []) committed

-- The one technical attempt that the limits allow has been used.
unfoldable pub tried : Run
unfolding checked
tried =
    stepan.Run.Step.execute_all (Command.start_assignment_attempt_with_limits "a1" "o1" limits ∷ [])
      checked

-- A limit has paused the run.
unfoldable pub stopped : Run
unfolding tried
stopped =
    stepan.Run.Step.execute_all (Command.start_assignment_attempt_with_limits "a1" "o1" limits ∷ [])
      tried

-- One assignment has taken both tasks, and the whole run is verified.
unfoldable pub verified : Run
unfolding new
verified = stepan.Run.Step.execute_all to_accepted (
    stepan.Run.Step.execute_all to_intended (
      stepan.Run.Step.execute_all to_reviewed
        (stepan.Run.Step.execute_all (to_checked_of ("t1" ∷ "t2" ∷ [])) new)))

-- The attempt has been observed to have failed.
unfoldable pub observed : Run
unfolding tried
observed =
    stepan.Run.Step.execute_all
      (Command.record_assignment_attempt_outcome "a1" "o1" AttemptOutcome.failed "timeout" ∷ [])
      tried
