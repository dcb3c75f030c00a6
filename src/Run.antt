-- ===== src/Run.antt =====
-- internal/flows/impl_loop/state/state.go: the state of one run and what its methods look up. A
-- method of `*Run` that mutates takes the run last and returns what it leaves behind.
pub mod Tasks
pub mod Baseline
pub mod Work
pub mod Acceptance
pub mod Attempts
pub mod Lifecycle
pub mod Final
pub mod Counters
pub mod Validate
pub mod Step
use stepan.Base.{
  ℕ, String, Bool, true, false, ◌&&◌, ◌||◌, Option, none, some, List, [], ◌∷◌, ◌++◌, ◌==◌, ◌!=◌,
  not, string_eq, any, find?, keep, update_first, lookup_or, Result, Failure, ok, err,
}
use stepan.Status.{
  RunStatus, InitialBaselineStatus, TaskStatus, AssignmentStatus, OperationKind, CycleCounter,
  ResultStatus, run_status_eq, assignment_status_eq, operation_kind_eq, cycle_counter_eq,
  result_status_eq,
}
use stepan.Evidence.{
  TaskId, AssignmentId, BriefId, OperationId, ResultId, EvidenceId, EvidenceRef, AcceptanceBasis,
  RunIdentity, InitialBaselineEvidence, Task,
}
use stepan.Operation.{Operation, OperationResult}
use stepan.Counters.{LimitPause, ExecutionBlock}
use stepan.Assignment
use stepan.Assignment.{Assignment}

-- What proves completion of the run rather than of one assignment.
pub record FinalAcceptanceEvidence : Type 0 where
  pub state : EvidenceRef
  pub basis : AcceptanceBasis
  pub check_result_ids : List ResultId
  pub review_result_id : ResultId
  pub open_finding_ids : List EvidenceId

pub record Run : Type 0 where
  pub identity : RunIdentity
  pub status : RunStatus
  pub current_state : EvidenceRef
  pub tasks : List Task
  pub task_extraction_pending : Bool
  pub initial_baseline_status : InitialBaselineStatus
  pub initial_baseline : Option InitialBaselineEvidence
  pub leaf_status : List (TaskId × TaskStatus)
  pub assignments : List Assignment
  pub run_operations : List Operation
  pub run_results : List OperationResult
  pub final_acceptance : Option FinalAcceptanceEvidence
  pub final_acceptance_history : List FinalAcceptanceEvidence
  pub final_review_rounds : ℕ
  pub final_review_cycle : ℕ
  pub run_explorer_counters : List (String × ℕ)
  pub run_explorer_cycles : List (String × ℕ)
  pub pause_reason : String
  pub execution_block : Option ExecutionBlock
  pub limit_pause : Option LimitPause
  pub close_reason : String

-- What a method returns beside the run that it leaves behind.
abbrev pub Returns : Type 0 → Type 0
Returns A = Result A × Run

abbrev pub fail : {A : Type 0} → Failure → Run → Returns A
fail e r = (err e, r)

-- `if err != nil { return err }`: a failed lookup leaves the run alone.
abbrev pub given : {A B : Type 0} → Result A → Run → (A → Returns B) → Returns B
given (err e) r next = fail e r
given (ok a) r next = next a

-- `requireActive` on a run that is there.
abbrev pub is_active : Run → Bool
is_active r = r.status == RunStatus.active

unfoldable pub current_basis : Run → AcceptanceBasis
current_basis r = record {
  specification = r.identity.specification;
  configuration = r.identity.configuration;
}

unfoldable pub has_task : Run → TaskId → Bool
has_task r id = any (λ t. t.id == id) r.tasks

unfoldable pub is_leaf_of : List Task → TaskId → Bool
is_leaf_of tasks id = not (any (λ t. t.parent_id == id) tasks) && any (λ t. t.id == id) tasks

unfoldable pub is_leaf : Run → TaskId → Bool
unfolding is_leaf_of
is_leaf r id = is_leaf_of r.tasks id

unfoldable pub children : Run → TaskId → List Task
children r id = keep (λ t. t.parent_id == id) r.tasks

-- A read of the map, whose zero value is the empty string.
abbrev pub leaf_status_of : Run → TaskId → TaskStatus
leaf_status_of r id = lookup_or TaskStatus.unknown id r.leaf_status

unfoldable pub assignment : Run → AssignmentId → Option Assignment
assignment r id = find? (λ a. a.id == id) r.assignments

-- Writing through `&r.Assignments[index]`, the first assignment of that identifier.
abbrev pub put_assignment : Assignment → Run → Run
put_assignment a r = record r {
  assignments = update_first (λ b. b.id == a.id) (λ _. a) r.assignments;
}

unfoldable pub has_open_assignment : Run → Bool
has_open_assignment r = any (λ a. a.status != AssignmentStatus.committed) r.assignments

unfoldable pub run_operation : Run → OperationId → Option Operation
run_operation r id = find? (λ o. o.id == id) r.run_operations

abbrev pub put_run_operation : Operation → Run → Run
put_run_operation o r = record r {
  run_operations = update_first (λ p. p.id == o.id) (λ _. o) r.run_operations;
}

unfoldable pub run_result : Run → ResultId → Option OperationResult
run_result r id = find? (λ x. x.id == id) r.run_results

unfoldable pub has_run_result_for_operation : Run → OperationId → Bool
has_run_result_for_operation r id = any (λ x. x.operation_id == id) r.run_results

-- `pointer != nil`
abbrev pub is_some {ℓ} : {A : Type ℓ} → Option A → Bool
is_some none = false
is_some (some _) = true

unfoldable pub brief_exists : Run → BriefId → Bool
brief_exists r id = any (λ a. Assignment.has_brief a id) r.assignments

unfoldable pub operation_exists : Run → OperationId → Bool
operation_exists r id =
    any (λ a. is_some (Assignment.operation a id)) r.assignments || is_some (run_operation r id)

unfoldable pub result_exists : Run → ResultId → Bool
result_exists r id =
    any (λ a. is_some (Assignment.result a id)) r.assignments || is_some (run_result r id)

unfoldable pub is_failed_final_review : Run → ResultId → Bool
is_failed_final_review r id = elim (run_result r id) [
  | none ↦ false
  | some x ↦ x.status == ResultStatus.failed && (elim (run_operation r x.operation_id) [
    | none ↦ false
    | some o ↦ o.kind == OperationKind.review && o.counter == CycleCounter.final_review
  ])
]

unfoldable pub invalidate_final_acceptance : Run → Run
invalidate_final_acceptance r = elim r.final_acceptance [
  | none ↦ r
  | some e ↦ record r {
    final_acceptance = none;
    final_acceptance_history = r.final_acceptance_history ++ e ∷ [];
  }
]
