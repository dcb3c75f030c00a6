-- ===== src/Run/Final.antt =====
-- internal/flows/impl_loop/state/state.go: the final acceptance of a run.
use stepan.Base.{
  Bool, true, false, ◌&&◌, ◌||◌, none, some, ◌==◌, ◌!=◌, not, string_eq, is_empty, all,
  if◌then◌else◌, done, invalid_state, invalid_transition,
}
use stepan.Status.{OperationKind, ResultStatus, operation_kind_eq, result_status_eq}
use stepan.Evidence.{ResultId, evidence_eq, evidence_valid, basis_eq, basis_valid}
use stepan.Operation.{operation_valid}
use stepan.Assignment.{has_duplicates}
use stepan.Run.{
  Run, Returns, FinalAcceptanceEvidence, fail, is_active, current_basis, run_operation, run_result,
  has_open_assignment, invalidate_final_acceptance,
}
use stepan.Run.Tasks.{all_complete}

-- A successful run result of the given kind, on the accepted state and basis.
unfoldable pub run_result_proves : Run → FinalAcceptanceEvidence → OperationKind → ResultId → Bool
run_result_proves r e kind id = elim (run_result r id) [
  | none ↦ false
  | some x ↦ elim (run_operation r x.operation_id) [
    | none ↦ false
    | some o ↦
        operation_valid o
        && x.status == ResultStatus.succeeded
        && x.state == e.state
        && x.basis == e.basis
        && o.kind == kind
        && o.basis == e.basis
  ]
]

-- The tests that only a current acceptance has to pass.
unfoldable pub final_acceptance_current : Run → FinalAcceptanceEvidence → Bool
final_acceptance_current r e =
    e.basis == current_basis r
    && e.state == r.current_state
    && not (has_open_assignment r)
    && all_complete r.leaf_status

-- `validateFinalAcceptance` returns nil.
unfoldable pub final_acceptance_valid : Run → FinalAcceptanceEvidence → Bool → Bool
final_acceptance_valid r e current =
    evidence_valid e.state
    && basis_valid e.basis
    && not (is_empty e.check_result_ids)
    && e.review_result_id != ""
    && not (has_duplicates e.check_result_ids)
    && is_empty e.open_finding_ids
    && (not current || final_acceptance_current r e)
    && all (run_result_proves r e OperationKind.check) e.check_result_ids
    && run_result_proves r e OperationKind.review e.review_result_id

unfoldable pub record_final_acceptance : FinalAcceptanceEvidence → Run → Returns (Unit {0})
record_final_acceptance e r =
    if not (is_active r)
    then fail invalid_transition r
    else if not (final_acceptance_valid r e true)
    then fail invalid_state r
    else (done, record (invalidate_final_acceptance r) { final_acceptance = some e })
