-- ===== src/Counters.antt =====
-- internal/flows/impl_loop/state/state.go: the semantic-cycle counters, their limits, and the two
-- reasons that stop a run: an exhausted limit and an execution block.
use stepan.Base.{
  ℕ, String, Bool, true, false, ◌&&◌, ◌||◌, List, ◌==◌, ◌!=◌, not, string_eq, nat_eq, ℤ,
  is_positive, inc, is_empty, all, is_blank, if◌then◌else◌,
}
use stepan.Status.{CycleCounter, cycle_counter_eq, cycle_counter_valid}
use stepan.Evidence.{AssignmentId, OperationId}

pub record CycleCounters : Type 0 where
  pub assignment_review : ℕ
  pub mandatory_checks : ℕ
  pub checks_requested : ℕ
  pub brief_refinement : ℕ
  pub explorer : List (String × ℕ)
  pub assignment_review_cycle : ℕ
  pub mandatory_checks_cycle : ℕ
  pub checks_requested_cycle : ℕ
  pub brief_refinement_cycle : ℕ
  pub explorer_cycle : List (String × ℕ)

-- A generation of 0 in an old record means 1.
unfoldable pub next_cycle : ℕ → ℕ
next_cycle current = if current == 0 then 2 else inc current

unfoldable pub current_cycle : ℕ → ℕ
current_cycle current = if current == 0 then 1 else current

pub record CycleLimits : Type 0 where
  pub assignment_review : ℤ
  pub mandatory_checks : ℤ
  pub checks_requested : ℤ
  pub brief_refinement : ℤ
  pub explorer : ℤ
  pub technical_attempts : ℤ
  pub final_review : ℤ

unfoldable pub limits_valid : CycleLimits → Bool
limits_valid l =
    is_positive l.assignment_review
    && is_positive l.mandatory_checks
    && is_positive l.checks_requested
    && is_positive l.brief_refinement
    && is_positive l.explorer
    && is_positive l.technical_attempts
    && is_positive l.final_review

pub record LimitPause : Type 0 where
  pub counter : CycleCounter
  pub assignment_id : AssignmentId
  pub operation_id : OperationId
  pub episode : String
  pub technical : Bool

unfoldable pub limit_pause_valid : LimitPause → Bool
limit_pause_valid p =
    if p.operation_id == ""
      || not (cycle_counter_valid p.counter)
      || (p.technical && p.episode != "")
    then false
    else if p.technical
    then true
    else if p.counter == CycleCounter.no_counter
        || (p.counter == CycleCounter.explorer && is_blank p.episode)
    then false
    else if p.counter == CycleCounter.final_review
    then p.assignment_id == "" && p.episode == ""
    else if p.counter == CycleCounter.explorer
    then not (is_blank p.episode)
    else p.assignment_id != "" && p.episode == ""

pub record ExecutionBlock : Type 0 where
  pub blocked_action : String
  pub diagnostic : String
  pub attempts : List String
  pub required_user_action : String

unfoldable pub block_valid : ExecutionBlock → Bool
block_valid b =
    not (is_blank b.blocked_action)
    && not (is_blank b.diagnostic)
    && not (is_blank b.required_user_action)
    && not (is_empty b.attempts)
    && all (λ a. not (is_blank a)) b.attempts
