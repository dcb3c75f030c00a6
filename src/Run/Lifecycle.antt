-- ===== src/Run/Lifecycle.antt =====
-- internal/flows/impl_loop/state/state.go: pause, resume and closure of a run, and the boundaries
-- of Explorer episodes.
pub mod Continues
use stepan.Base.{
  ℕ, String, ◌&&◌, ◌||◌, Option, none, some, List, ◌==◌, ◌!=◌, not, string_eq, length, lookup_or,
  insert, is_blank, text_append, if◌then◌else◌, Result, ok, err, done, invalid_state,
  invalid_transition,
}
use stepan.Status.{
  RunStatus, AssignmentStatus, CycleCounter, run_status_eq, assignment_status_eq, cycle_counter_eq,
}
use stepan.Evidence.{AssignmentId}
use stepan.Operation.{Operation}
use stepan.Counters.{
  CycleCounters, LimitPause, ExecutionBlock, next_cycle, limit_pause_valid, block_valid,
}
use stepan.Assignment
use stepan.Assignment.{Assignment, put_operation, has_result_for_operation}
use stepan.Run.{
  Run, Returns, fail, is_active, assignment, put_assignment, run_operation, put_run_operation,
  has_run_result_for_operation,
}

unfoldable pub pause : String → Run → Returns (Unit {0})
pause reason r = if not (is_active r) || is_blank reason then fail invalid_transition r else (
  done,
  record r {
    status = RunStatus.paused;
    pause_reason = reason;
    execution_block = none;
    limit_pause = none;
  },
)

abbrev pub block_run : ExecutionBlock → Run → Run
block_run block r = record r {
  status = RunStatus.paused;
  pause_reason = text_append "execution_blocked: " block.blocked_action;
  execution_block = some block;
  limit_pause = none;
}

unfoldable pub pause_execution_blocked : ExecutionBlock → Run → Returns (Unit {0})
pause_execution_blocked block r =
    if not (is_active r) || not (block_valid block)
    then fail invalid_transition r
    else (done, block_run block r)

unfoldable pub update_paused_execution_block : ExecutionBlock → Run → Returns (Unit {0})
update_paused_execution_block block r =
    if r.status != RunStatus.paused || not (block_valid block)
    then fail invalid_transition r
    else (done, block_run block r)

-- A fresh Explorer budget for one episode.
abbrev pub renew : String → List (String × ℕ) → List (String × ℕ)
renew episode cycles = insert episode (next_cycle (lookup_or 0 episode cycles)) cycles

unfoldable pub end_explorer_episode : AssignmentId → String → Run → Returns (Unit {0})
end_explorer_episode id episode r =
    if not (is_active r) then fail invalid_transition r else elim (assignment r id) [
      | none ↦ fail invalid_state r
      | some a ↦
          if a.status != AssignmentStatus.active || is_blank episode
          then fail invalid_state r
          else (
            done,
            put_assignment
                (record a {
                  counters = record a.counters {
                    explorer = insert episode 0 a.counters.explorer;
                    explorer_cycle = renew episode a.counters.explorer_cycle;
                  };
                })
                r,
          )
    ]

unfoldable pub end_run_explorer_episode : String → Run → Returns (Unit {0})
end_run_explorer_episode episode r =
    if not (is_active r)
    then fail invalid_transition r
    else if is_blank episode
    then fail invalid_state r
    else (
      done,
      record r {
        run_explorer_counters = insert episode 0 r.run_explorer_counters;
        run_explorer_cycles = renew episode r.run_explorer_cycles;
      },
    )

-- The technical retry window starts again after the attempts that there are.
unfoldable pub reopen_window : Operation → Operation
reopen_window o = record o { technical_attempt_start = length o.attempts }

-- The reset of an assignment's semantic counter; none for a counter that is not supported.
unfoldable pub reset_cycle : CycleCounters → CycleCounter → String → Option CycleCounters
reset_cycle c CycleCounter.assignment_review episode = some (record c {
  assignment_review = 0;
  assignment_review_cycle = next_cycle c.assignment_review_cycle;
})
reset_cycle c CycleCounter.mandatory_checks episode = some (record c {
  mandatory_checks = 0;
  mandatory_checks_cycle = next_cycle c.mandatory_checks_cycle;
})
reset_cycle c CycleCounter.checks_requested episode = some (record c {
  checks_requested = 0;
  checks_requested_cycle = next_cycle c.checks_requested_cycle;
})
reset_cycle c CycleCounter.brief_refinement episode = some (record c {
  brief_refinement = 0;
  brief_refinement_cycle = next_cycle c.brief_refinement_cycle;
})
reset_cycle c CycleCounter.explorer episode = some (record c {
  explorer = insert episode 0 c.explorer;
  explorer_cycle = renew episode c.explorer_cycle;
})
reset_cycle c _ episode = none

-- The technical case of `resetLimitPause`, with `operationForLimit` and `hasResult`.
unfoldable pub reset_technical : LimitPause → Run → Result Run
unfolding reopen_window
reset_technical p r =
    if p.assignment_id == ""
    then elim (run_operation r p.operation_id) [
      | none ↦ err invalid_state
      | some o ↦
          if has_run_result_for_operation r o.id
          then err invalid_state
          else ok (put_run_operation (reopen_window o) r)
    ]
    else elim (assignment r p.assignment_id) [
      | none ↦ err invalid_state
      | some a ↦ elim (Assignment.operation a p.operation_id) [
        | none ↦ err invalid_state
        | some o ↦
            if has_result_for_operation a o.id
            then err invalid_state
            else ok (put_assignment (put_operation a (reopen_window o)) r)
      ]
    ]

-- The semantic case for a counter of an assignment.
unfoldable pub reset_assignment_cycle : LimitPause → Run → Result Run
reset_assignment_cycle p r = elim (assignment r p.assignment_id) [
  | none ↦ err invalid_state
  | some a ↦
      if a.status != AssignmentStatus.active
      then err invalid_state
      else elim (reset_cycle a.counters p.counter p.episode) [
        | none ↦ err invalid_state
        | some c ↦ ok (put_assignment (record a { counters = c }) r)
      ]
]

-- `resetLimitPause`, which writes nothing when it fails.
unfoldable pub reset_limit_pause : LimitPause → Run → Result Run
reset_limit_pause p r =
    if not (limit_pause_valid p)
    then err invalid_state
    else if p.technical
    then reset_technical p r
    else if p.counter == CycleCounter.final_review
    then ok
        (record r { final_review_rounds = 0; final_review_cycle = next_cycle r.final_review_cycle })
    else if p.counter == CycleCounter.explorer && p.assignment_id == ""
    then ok (record r {
      run_explorer_counters = insert p.episode 0 r.run_explorer_counters;
      run_explorer_cycles = renew p.episode r.run_explorer_cycles;
    })
    else reset_assignment_cycle p r

abbrev pub activate : Run → Run
activate r = record r {
  status = RunStatus.active;
  pause_reason = "";
  execution_block = none;
  limit_pause = none;
}

unfoldable pub resume : Run → Returns (Unit {0})
resume r = if r.status != RunStatus.paused then fail invalid_transition r else elim r.limit_pause [
  | none ↦ (done, activate r)
  | some p ↦ elim (reset_limit_pause p r) [ err e ↦ fail e r | ok r' ↦ (done, activate r') ]
]

unfoldable pub close : String → Run → Returns (Unit {0})
close reason r =
    if not (r.status == RunStatus.active || r.status == RunStatus.paused) || is_blank reason
    then fail invalid_transition r
    else (
      done,
      record r {
        status = RunStatus.closed;
        close_reason = reason;
        pause_reason = "";
        execution_block = none;
        limit_pause = none;
      },
    )
