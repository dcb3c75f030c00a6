-- ===== src/Run/Attempts.antt =====
-- internal/flows/impl_loop/state/state.go: run-scoped operations and results, and the attempts of
-- operations with their semantic and technical limits.
pub mod Rules
pub mod Limits
pub mod RunLimits
use stepan.Base.{
  ℕ, suc, ◌+◌, String, Bool, true, false, ◌&&◌, ◌||◌, Option, none, some, List, [], ◌∷◌, ◌++◌, ◌==◌,
  ◌!=◌, not, string_eq, nat_eq, bool_eq, ℤ, uint64, inc, leb, length, is_empty, any, lookup_or,
  insert, get_last?, text_append, if◌then◌else◌, Failure, Result, ok, err, Done, done,
  invalid_state, invalid_transition, limit_exceeded,
}
use stepan.Status.{
  RunStatus, AssignmentStatus, CycleCounter, AttemptOutcome, OperationKind, run_status_eq,
  assignment_status_eq, cycle_counter_eq, operation_kind_eq, attempt_outcome_eq,
  attempt_outcome_valid, valid_run_counter,
}
use stepan.Evidence.{AssignmentId, OperationId, basis_eq}
use stepan.Operation.{
  OperationAttempt, Operation, OperationResult, operation_valid, result_valid, technical_attempts,
  first_round,
}
use stepan.Counters.{
  CycleLimits, LimitPause, next_cycle, current_cycle, limits_valid, limit_pause_valid,
}
use stepan.Assignment
use stepan.Assignment.{
  Assignment, attempt, retry, put_operation, start_attempt, has_result_for_operation, cycle_count,
}
use stepan.Run.{
  Run, Returns, fail, given, is_active, current_basis, assignment, put_assignment, run_operation,
  put_run_operation, has_run_result_for_operation, operation_exists, result_exists,
}
use stepan.Run.Work.{active_assignment, result_fits}

unfoldable pub add_run_operation : Operation → Run → Returns (Unit {0})
add_run_operation o r =
    if not (is_active r)
    then fail invalid_transition r
    else if not (operation_valid o)
        || o.supersedes != ""
        || o.brief_id != ""
        || not (valid_run_counter o.counter)
        || operation_exists r o.id
    then fail invalid_state r
    else (done, record r { run_operations = r.run_operations ++ o ∷ [] })

-- The replacement of an unfinished operation starts afresh, and differs in its basis alone.
unfoldable pub replacement_valid : Run → Operation → Operation → Bool
replacement_valid r prior o =
    operation_valid o
    && o.brief_id == ""
    && valid_run_counter o.counter
    && not (operation_exists r o.id)
    && o.supersedes == prior.id
    && o.basis == current_basis r
    && o.kind == prior.kind
    && o.description == prior.description
    && o.counter == prior.counter
    && o.episode == prior.episode
    && is_empty o.attempts
    && o.semantic_cycle == 0
    && o.technical_attempt_start == 0
    && o.uncounted_resume_check == prior.uncounted_resume_check

unfoldable pub supersede_run_operation : OperationId → Operation → Run → Returns (Unit {0})
supersede_run_operation prior_id o r =
    if not (is_active r) then fail invalid_transition r else elim (run_operation r prior_id) [
      | none ↦ fail invalid_state r
      | some prior ↦
          if has_run_result_for_operation r prior_id || prior.basis == current_basis r
          then fail invalid_state r
          else if not (replacement_valid r prior o)
          then fail invalid_state r
          else if any (λ p. p.supersedes == prior_id) r.run_operations
          then fail invalid_state r
          else (done, record r { run_operations = r.run_operations ++ o ∷ [] })
    ]

unfoldable pub add_run_result : OperationResult → Run → Returns (Unit {0})
add_run_result x r =
    if not (r.status == RunStatus.active || r.status == RunStatus.paused)
    then fail invalid_transition r
    else elim (run_operation r x.operation_id) [
      | none ↦ fail invalid_state r
      | some o ↦
          if not (result_valid x) || result_exists r x.id || not (result_fits o x)
          then fail invalid_state r
          else (done, record r { run_results = r.run_results ++ x ∷ [] })
    ]

-- The string of a counter, as `pauseForLimit` writes it.
abbrev pub counter_text : CycleCounter → String
counter_text CycleCounter.assignment_review = "assignment_review"
counter_text CycleCounter.mandatory_checks = "mandatory_checks"
counter_text CycleCounter.checks_requested = "checks_requested"
counter_text CycleCounter.brief_refinement = "brief_refinement"
counter_text CycleCounter.explorer = "explorer"
counter_text CycleCounter.final_review = "final_review"
counter_text _ = ""

unfoldable pub limit_reason : LimitPause → String
limit_reason p =
    if p.technical
    then "implementation technical attempt limit"
    else text_append "implementation cycle limit: " (counter_text p.counter)

-- Pauses the run and reports the limit.
unfoldable pub pause_for_limit : {A : Type 0} → LimitPause → Run → Returns A
pause_for_limit p r =
    if not (is_active r)
    then fail invalid_transition r
    else if not (limit_pause_valid p)
    then fail invalid_state r
    else (
      err limit_exceeded,
      record r { status = RunStatus.paused; pause_reason = limit_reason p; limit_pause = some p },
    )

-- The tests that both variants make of an assignment's operation.
unfoldable pub startable : Assignment → OperationId → Result Operation
startable a id = elim (Assignment.operation a id) [
  | none ↦ err invalid_state
  | some o ↦
      if o.uncounted_resume_check || has_result_for_operation a id then err invalid_state else ok o
]

abbrev pub store_attempt : Run → Result (OperationAttempt × Assignment) → Returns OperationAttempt
store_attempt r (err e) = fail e r
store_attempt r (ok (new, a)) = (ok new, put_assignment a r)

unfoldable pub start_assignment_attempt :
    AssignmentId → OperationId → Run → Returns OperationAttempt
start_assignment_attempt id operation_id r =
    given (active_assignment r id) r
      λ a. given (startable a operation_id) r λ o. store_attempt r (start_attempt a o)

-- The configured limit of a semantic cycle of an assignment; none for the counters that
-- `allowAssignmentAttempt` refuses.
abbrev pub cycle_limit : CycleLimits → CycleCounter → Option ℤ
cycle_limit l CycleCounter.assignment_review = some l.assignment_review
cycle_limit l CycleCounter.mandatory_checks = some l.mandatory_checks
cycle_limit l CycleCounter.checks_requested = some l.checks_requested
cycle_limit l CycleCounter.brief_refinement = some l.brief_refinement
cycle_limit l CycleCounter.explorer = some l.explorer
cycle_limit l _ = none

-- `allowAssignmentAttempt`, before the attempt `go` that it allows.
unfoldable pub within_limits :
    AssignmentId
    → Assignment
    → Operation
    → CycleLimits
    → Returns OperationAttempt
    → Run
    → Returns OperationAttempt
within_limits id a o limits go r =
    if leb (uint64 limits.technical_attempts) (technical_attempts o)
    then pause_for_limit
        (record {
          counter = o.counter;
          assignment_id = id;
          operation_id = o.id;
          episode = "";
          technical = true;
        })
        r
    else if not (is_empty o.attempts) || o.counter == CycleCounter.no_counter
    then go
    else elim (cycle_limit limits o.counter) [
      | none ↦ fail invalid_state r
      | some limit ↦
          if leb (uint64 limit) (cycle_count a.counters o.counter o.episode)
          then pause_for_limit
              (record {
                counter = o.counter;
                assignment_id = id;
                operation_id = o.id;
                episode = o.episode;
                technical = false;
              })
              r
          else go
    ]

unfoldable pub start_assignment_attempt_with_limits :
    AssignmentId → OperationId → CycleLimits → Run → Returns OperationAttempt
start_assignment_attempt_with_limits id operation_id limits r =
    if not (limits_valid limits)
    then fail invalid_state r
    else given (active_assignment r id) r λ a.
      given (startable a operation_id) r
        λ o. within_limits id a o limits (store_attempt r (start_attempt a o)) r

-- `startRunAttempt`: the counter that a first attempt consumes belongs to the run.
unfoldable pub start_run_attempt : Operation → Run → Returns OperationAttempt
start_run_attempt o r =
    if not (valid_run_counter o.counter) || o.uncounted_resume_check
    then fail invalid_state r
    else if not (is_empty o.attempts)
    then (let (new, o') = retry o in (ok new, put_run_operation o' r))
    else elim o.counter [
      | CycleCounter.final_review ↦
          let new = attempt o.attempts (inc r.final_review_rounds) in
          (
            ok new,
            record (put_run_operation
                (record o {
                  attempts = o.attempts ++ new ∷ [];
                  semantic_cycle = current_cycle r.final_review_cycle;
                })
                r) { final_review_rounds = inc r.final_review_rounds },
          )
      | CycleCounter.explorer ↦
          let count = inc (lookup_or 0 o.episode r.run_explorer_counters) in
          let new = attempt o.attempts count in
          (
            ok new,
            record (put_run_operation
                (record o {
                  attempts = o.attempts ++ new ∷ [];
                  semantic_cycle = current_cycle (lookup_or 0 o.episode r.run_explorer_cycles);
                })
                r) { run_explorer_counters = insert o.episode count r.run_explorer_counters },
          )
      | _ ↦
          let new = attempt o.attempts 0 in
          (ok new, put_run_operation (record o { attempts = o.attempts ++ new ∷ [] }) r)
    ]

unfoldable pub run_startable : Run → OperationId → Result Operation
run_startable r id =
    if not (is_active r) then err invalid_transition else elim (run_operation r id) [
      | none ↦ err invalid_state
      | some o ↦
          if o.uncounted_resume_check || has_run_result_for_operation r id
          then err invalid_state
          else ok o
    ]

unfoldable pub start_run_attempt_of : OperationId → Run → Returns OperationAttempt
start_run_attempt_of id r = given (run_startable r id) r λ o. start_run_attempt o r

-- The limits that `StartRunAttemptWithLimits` tests, before the attempt `go` that it allows.
unfoldable pub within_run_limits :
    Operation → CycleLimits → Returns OperationAttempt → Run → Returns OperationAttempt
within_run_limits o limits go r =
    if leb (uint64 limits.technical_attempts) (technical_attempts o)
    then pause_for_limit
        (record {
          counter = o.counter;
          assignment_id = "";
          operation_id = o.id;
          episode = "";
          technical = true;
        })
        r
    else if is_empty o.attempts
        && o.counter == CycleCounter.final_review
        && leb (uint64 limits.final_review) r.final_review_rounds
    then pause_for_limit
        (record {
          counter = CycleCounter.final_review;
          assignment_id = "";
          operation_id = o.id;
          episode = "";
          technical = false;
        })
        r
    else if is_empty o.attempts
        && o.counter == CycleCounter.explorer
        && leb (uint64 limits.explorer) (lookup_or 0 o.episode r.run_explorer_counters)
    then pause_for_limit
        (record {
          counter = CycleCounter.explorer;
          assignment_id = "";
          operation_id = o.id;
          episode = o.episode;
          technical = false;
        })
        r
    else go

unfoldable pub start_run_attempt_with_limits :
    OperationId → CycleLimits → Run → Returns OperationAttempt
start_run_attempt_with_limits id limits r =
    if not (limits_valid limits)
    then fail invalid_state r
    else given (run_startable r id) r λ o. within_run_limits o limits (start_run_attempt o r) r

-- Writing to the last attempt.
unfoldable pub set_last_outcome :
    AttemptOutcome → String → List OperationAttempt → List OperationAttempt
set_last_outcome outcome diagnostic [] = []
set_last_outcome outcome diagnostic (a ∷ []) =
    record a { outcome = outcome; diagnostic = diagnostic } ∷ []
set_last_outcome outcome diagnostic (a ∷ b ∷ rest) =
    a ∷ set_last_outcome outcome diagnostic (b ∷ rest)

unfoldable pub record_attempt_outcome :
    AttemptOutcome → String → Option Operation → Result Operation
record_attempt_outcome outcome diagnostic none = err invalid_state
record_attempt_outcome outcome diagnostic (some o) =
    if outcome == AttemptOutcome.unobserved || not (attempt_outcome_valid outcome)
    then err invalid_state
    else elim (get_last? o.attempts) [
      | none ↦ err invalid_state
      | some last ↦
          if last.outcome != AttemptOutcome.unobserved
          then err invalid_state
          else ok (record o { attempts = set_last_outcome outcome diagnostic o.attempts })
    ]

unfoldable pub assignment_for_attempt_outcome : Run → AssignmentId → Result Assignment
assignment_for_attempt_outcome r id =
    if not (r.status == RunStatus.active || r.status == RunStatus.paused)
    then err invalid_state
    else elim (assignment r id) [
      | none ↦ err invalid_transition
      | some a ↦ if a.status != AssignmentStatus.active then err invalid_transition else ok a
    ]

unfoldable pub record_assignment_attempt_outcome :
    AssignmentId → OperationId → AttemptOutcome → String → Run → Returns (Unit {0})
record_assignment_attempt_outcome id operation_id outcome diagnostic r =
    elim (assignment_for_attempt_outcome r id) [
      | err e ↦ fail e r
      | ok a ↦
          elim (record_attempt_outcome outcome diagnostic (Assignment.operation a operation_id)) [
            | err e ↦ fail e r
            | ok o ↦ (done, put_assignment (put_operation a o) r)
          ]
    ]

unfoldable pub record_run_attempt_outcome :
    OperationId → AttemptOutcome → String → Run → Returns (Unit {0})
record_run_attempt_outcome id outcome diagnostic r =
    if not (r.status == RunStatus.active || r.status == RunStatus.paused)
    then fail invalid_state r
    else elim (record_attempt_outcome outcome diagnostic (run_operation r id)) [
      | err e ↦ fail e r
      | ok o ↦ (done, put_run_operation o r)
    ]
