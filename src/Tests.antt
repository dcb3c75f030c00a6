-- ===== src/Tests.antt =====
-- Tests of the model on the runs of the scenario, and the theorems at concrete inputs.
use stepan.Base.{
  Option, sym, ap, ◌∙◌, ◌≡◌, ◌≢◌, ◌≤◌, ◌<◌, refl, ok, err, invalid_state, ◌⊎◌, done, none, some,
  inl, true, false, pos, uint64, limit_exceeded, panic, length, [], ◌∷◌, suc, arith,
}
use stepan.Status.{RunStatus, TaskStatus, AttemptOutcome, OperationKind, CycleCounter, EventKind}
use stepan.Operation.{Operation, OperationAttempt, technical_attempts}
use stepan.Assignment
use stepan.Assignment.{Assignment}
use stepan.Run.{Run, has_task, leaf_status_of, assignment}
use stepan.Run.Work.{active_assignment, new_assignment}
use stepan.Run.Step.{Command, execute, execute_all}
use stepan.Run.Step.Opens.{open_count}
use stepan.Run.Step.OneOpen.{execute-open_count}
use stepan.Run.Tasks.{new_run, structure_valid, task_status}
use stepan.Run.Tasks.Terminates.{task_status-ends}
use stepan.Run.Step.Reached.{new_run-reaches}
use stepan.Scenario.{
  identity, task, two_tasks, to_checked, verified, new, checked, reviewed, intended, committed,
  closed, tried, stopped, limits, commit, acceptance, brief, new_operation,
}
use stepan.Run.Step.Terminal.{terminal_refuses}
use stepan.Run.Step.Refused.{Clean, execute-Clean}
use stepan.Run.Step.StopReasons.{execute-lifecycle_valid}
use stepan.Run.Step.Completion.{completes_only_by_commit}
use stepan.Run.Acceptance.{commit_assignment, awaiting}
use stepan.Run.Acceptance.Commit.{Matches, Completed, commit_assignment-Completed}
use stepan.Run.Acceptance.Evidence.{Accepted, accept_assignment-Accepted}
use stepan.Run.Attempts.Limits.{start_with_limits_technical, start_with_limits_semantic}
use stepan.Run.Validate.{
  JsonCopy, validate, lifecycle_valid, succeed, Event, new_run_state_event, apply,
}
use stepan.Run.Validate.Events.{apply-new_run_state_event}
use stepan.Run.Validate.Success.{Verified, succeed-Verified}
use stepan.Run.Attempts.{start_assignment_attempt_with_limits}
use stepan.Run.Attempts.RunLimits.{start_run_with_limits_technical, start_run_with_limits_semantic}
use stepan.Run.Lifecycle.{resume}
use stepan.Run.Lifecycle.Continues.{limit_pause-resumes}
use stepan.Run.Validate.NoPanic.{validate-ne-panic}

new_valid : validate new ≡ done
unfolding new
new_valid = refl

reviewed_valid : validate reviewed ≡ done
unfolding reviewed
reviewed_valid = refl

committed_valid : validate committed ≡ done
unfolding committed
committed_valid = refl

committed_completes : leaf_status_of committed "t1" ≡ TaskStatus.complete
unfolding committed
committed_completes = refl

stopped_pauses : stopped.status ≡ RunStatus.paused
unfolding stopped
stopped_pauses = refl

terminal_refuses_example :
    ((execute Command.resume closed).0 ≢ none) × ((execute Command.resume closed).1 ≡ closed)
unfolding closed
terminal_refuses_example = terminal_refuses Command.resume closed (inl refl)

execute-Clean_example :
    Clean tried
      (some limit_exceeded)
      (execute (Command.start_assignment_attempt_with_limits "a1" "o1" limits) tried).1
unfolding tried
execute-Clean_example =
    execute-Clean (Command.start_assignment_attempt_with_limits "a1" "o1" limits) tried

execute-lifecycle_valid_example : lifecycle_valid (execute Command.resume stopped).1 ≡ true
unfolding stopped
execute-lifecycle_valid_example = execute-lifecycle_valid Command.resume stopped refl

completes_only_by_commit_example : leaf_status_of committed "t1" ≡ TaskStatus.complete
unfolding committed
completes_only_by_commit_example =
    completes_only_by_commit (Command.pause "wait") committed (λ a e. cc) "t1" refl

commit_assignment-Completed_example :
    (a : Assignment) × (e : stepan.Assignment.AcceptanceEvidence) × (assignment intended "a1"
      ≡ some a)
    × (awaiting a ≡ some e)
    × Matches intended e commit
    × Completed intended (commit_assignment "a1" commit intended).1 a
unfolding intended
commit_assignment-Completed_example = commit_assignment-Completed "a1" commit intended refl

accept_assignment-Accepted_example :
    (a : Assignment) × (active_assignment reviewed "a1" ≡ ok a) × Accepted reviewed a acceptance
unfolding reviewed
accept_assignment-Accepted_example = accept_assignment-Accepted "a1" acceptance reviewed refl

abbrev first : OperationAttempt
first = record {
  number = 1;
  semantic_round = 1;
  outcome = AttemptOutcome.unobserved;
  diagnostic = "";
}

abbrev check : Operation
check = new_operation "o1" OperationKind.check "b1" CycleCounter.mandatory_checks

abbrev work : Assignment
work = record (new_assignment "a1" ("t1" ∷ [])) { briefs = brief ∷ []; operations = check ∷ [] }

start_with_limits_technical_example :
    (first.number ≡ suc (length check.attempts))
    × (technical_attempts check < uint64 limits.technical_attempts)
unfolding checked
start_with_limits_technical_example =
    start_with_limits_technical "a1" "o1" limits checked first work check refl refl refl

start_with_limits_semantic_example : first.semantic_round ≤ uint64 (pos 2)
unfolding checked
start_with_limits_semantic_example =
    start_with_limits_semantic "a1" "o1" limits checked first work check refl refl refl refl (pos 2)
      refl

-- A final review of the run, in its first attempt.
abbrev final_check : Operation
final_check = new_operation "o4" OperationKind.review "" CycleCounter.final_review

abbrev finishing : Run
finishing = (execute (Command.add_run_operation final_check) new).1

start_run_with_limits_technical_example :
    (first.number ≡ suc (length final_check.attempts))
    × (technical_attempts final_check < uint64 limits.technical_attempts)
unfolding new
start_run_with_limits_technical_example =
    start_run_with_limits_technical "o4" limits finishing first final_check refl refl

start_run_with_limits_semantic_example : first.semantic_round ≤ uint64 (pos 2)
unfolding new
start_run_with_limits_semantic_example =
    start_run_with_limits_semantic "o4" limits finishing first final_check refl refl refl (pos 2)
      refl

-- A copy that replaces the reason of a closing, as JSON does with bytes that are not UTF-8.
abbrev replacing : JsonCopy
replacing r = some (record r { close_reason = "replaced" })

-- The record that is made of the closed run.
abbrev closed_record : Event
closed_record = record {
  sequence = 7;
  kind = EventKind.run_state_recorded;
  state = some (record closed { close_reason = "replaced" });
}

replacing-stable : (s : Run) → replacing closed ≡ some s → replacing s ≡ some s
replacing-stable s copied =
    sym (ap (λ (o : Option Run). elim o [ none ↦ none | some r ↦ replacing r ]) copied) ∙ copied

closed_recorded : new_run_state_event replacing 7 closed ≡ ok closed_record
unfolding closed
closed_recorded = refl

apply-new_run_state_event_example :
    (closed_record.sequence ≡ 7)
    × ((s : Run) × (replacing closed ≡ some s)
        × (closed_record.state ≡ some s)
        × (apply replacing closed_record new ≡ ok s))
apply-new_run_state_event_example =
    apply-new_run_state_event replacing 7 closed new closed_record replacing-stable closed_recorded

validate-ne-panic_example : validate reviewed ≢ err panic
validate-ne-panic_example = validate-ne-panic reviewed

succeed-Verified_example :
    (verified.status ≡ RunStatus.active)
    × Verified verified
    × ((succeed verified).1 ≡ record verified { status = RunStatus.succeeded })
unfolding verified
succeed-Verified_example = succeed-Verified verified refl

limit_pause-resumes_example :
    ((resume (start_assignment_attempt_with_limits "a1" "o1" limits tried).1).0 ≡ done)
    × ((resume (start_assignment_attempt_with_limits "a1" "o1" limits tried).1).1.status
        ≡ RunStatus.active)
unfolding tried
limit_pause-resumes_example = limit_pause-resumes "a1" "o1" limits tried (λ e. cc) refl

execute-open_count_example :
    open_count
      (execute (Command.start_assignment_attempt_with_limits "a1" "o1" limits) tried).1.assignments
    ≤ 1
unfolding tried
execute-open_count_example =
    execute-open_count (Command.start_assignment_attempt_with_limits "a1" "o1" limits) tried
      (omega arith)

new_run-reaches_example :
    (lifecycle_valid (execute_all to_checked new) ≡ true)
    × (open_count (execute_all to_checked new).assignments ≤ 1)
new_run-reaches_example =
    new_run-reaches identity two_tasks new to_checked (unfold new_run in unfold new in refl)

-- A parent with two leaves.
abbrev nested : Run
nested = record new {
  tasks =
      record (task "p" (pos 0)) { title = "parent" }
      ∷ record (task "t1" (pos 1)) { parent_id = "p" }
      ∷ record (task "t2" (pos 2)) { parent_id = "p" }
      ∷ [];
}

nested_structure : structure_valid nested ≡ true
unfolding new
nested_structure = refl

task_status-ends_example :
    ((has_task nested "p" ≡ true) × ((s : TaskStatus) × (task_status nested "p" ≡ some (ok s))))
    ⊎ ((has_task nested "p" ≡ false) × (task_status nested "p" ≡ some (err invalid_state)))
task_status-ends_example = task_status-ends nested "p" nested_structure
