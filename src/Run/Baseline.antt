-- ===== src/Run/Baseline.antt =====
-- internal/flows/impl_loop/state/state.go: the initial baseline, the successful full check set
-- that gates the first assignment.
use stepan.Base.{
  Bool, true, false, ◌&&◌, ◌||◌, none, some, ◌==◌, ◌!=◌, not, string_eq, is_empty, if◌then◌else◌,
  done, invalid_state, invalid_transition,
}
use stepan.Status.{
  InitialBaselineStatus, OperationKind, CycleCounter, ResultStatus, initial_baseline_status_eq,
  operation_kind_eq, cycle_counter_eq, result_status_eq,
}
use stepan.Evidence.{
  OperationId, ResultId, EvidenceRef, AcceptanceBasis, InitialBaselineEvidence, evidence_eq,
  basis_eq, initial_baseline_evidence_valid,
}
use stepan.Run.{Run, Returns, fail, is_active, current_basis, run_operation, run_result}

-- The stored check operation and its result prove one code state on one basis.
unfoldable pub check_proves : Run → OperationId → ResultId → EvidenceRef → AcceptanceBasis → Bool
check_proves r operation_id result_id state basis = elim (run_operation r operation_id) [
  | none ↦ false
  | some o ↦ elim (run_result r result_id) [
    | none ↦ false
    | some x ↦
        x.operation_id == operation_id
        && o.kind == OperationKind.check
        && o.counter == CycleCounter.no_counter
        && x.status == ResultStatus.succeeded
        && x.state == state
        && x.basis == basis
        && o.basis == basis
  ]
]

-- `validateInitialBaseline` returns nil.
unfoldable pub initial_baseline_valid : Run → InitialBaselineEvidence → Bool
initial_baseline_valid r e =
    initial_baseline_evidence_valid e && check_proves r e.operation_id e.result_id e.state e.basis

unfoldable pub has_current_initial_baseline : Run → Bool
has_current_initial_baseline r =
    r.initial_baseline_status == InitialBaselineStatus.baseline_passed && (elim r.initial_baseline [
      | none ↦ false
      | some e ↦
          e.basis == current_basis r
          && initial_baseline_valid r e
          && (not (is_empty r.assignments) || e.state == r.current_state)
    ])

unfoldable pub refresh_initial_baseline : OperationId → ResultId → Run → Returns (Unit {0})
refresh_initial_baseline operation_id result_id r =
    if not (check_proves r operation_id result_id r.current_state (current_basis r))
    then fail invalid_state r
    else (
      done,
      record r {
        initial_baseline = some (record {
          operation_id = operation_id;
          result_id = result_id;
          state = r.current_state;
          basis = current_basis r;
        });
        initial_baseline_status = InitialBaselineStatus.baseline_passed;
      },
    )

unfoldable pub record_initial_baseline_pass : OperationId → ResultId → Run → Returns (Unit {0})
record_initial_baseline_pass operation_id result_id r =
    if not (is_active r)
    then fail invalid_transition r
    else if r.task_extraction_pending || not (is_empty r.assignments)
    then fail invalid_transition r
    else refresh_initial_baseline operation_id result_id r

-- The pass that a resume gate records: its check must be an uncounted resume check.
unfoldable pub refresh_initial_baseline_pass : OperationId → ResultId → Run → Returns (Unit {0})
refresh_initial_baseline_pass operation_id result_id r =
    if not (is_active r)
    then fail invalid_transition r
    else if r.task_extraction_pending
    then fail invalid_transition r
    else elim (run_operation r operation_id) [
      | none ↦ fail invalid_state r
      | some o ↦
          if not o.uncounted_resume_check
          then fail invalid_state r
          else refresh_initial_baseline operation_id result_id r
    ]

unfoldable pub needs_initial_baseline_refresh : Run → Bool
needs_initial_baseline_refresh r = not r.task_extraction_pending && (elim r.initial_baseline [
  | none ↦ true
  | some e ↦ e.basis != current_basis r || e.state != r.current_state
])
