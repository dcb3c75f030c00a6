-- ===== src/Run/Validate/Success.antt =====
-- internal/flows/impl_loop/state/state.go: what a successful `Succeed` has checked.
use stepan.Base.{
  true, false, ◌≡◌, ◌≢◌, List, [], ◌∷◌, some, Result, done, Option-cases, inl, inr, arith, all,
  lookup, string_eq,
}
use stepan.Status.{RunStatus, TaskStatus, OperationKind, ResultStatus, task_status_eq}
use stepan.Evidence.{TaskId, ResultId, evidence_beq_iff, basis_beq_iff}
use stepan.Operation.{Operation, OperationResult}
use stepan.Run.{
  Run, FinalAcceptanceEvidence, current_basis, run_operation, run_result, has_open_assignment,
}
use stepan.Run.Tasks.{all_complete}
use stepan.Run.Final.{run_result_proves, final_acceptance_current, final_acceptance_valid}
use stepan.Run.Validate.{validate, as_refusal, may_succeed, succeed}

-- A result of the run that succeeded, on the accepted state and basis, by an operation of the given
-- kind.
pub record RunProves (r : Run) (e : FinalAcceptanceEvidence) (kind : OperationKind) (id : ResultId)
    : Type 0 where
  pub result : OperationResult
  pub operation : Operation
  pub stored_result : run_result r id ≡ some result
  pub stored_operation : run_operation r result.operation_id ≡ some operation
  pub succeeded : result.status ≡ ResultStatus.succeeded
  pub at_state : result.state ≡ e.state
  pub on_basis : result.basis ≡ e.basis
  pub of_kind : operation.kind ≡ kind
  pub operation_basis : operation.basis ≡ e.basis

abbrev pub AllOf : {A : Type 0} → (A → Type 0) → List A → Type 0
AllOf P [] = Unit
AllOf P (x ∷ xs) = P x × AllOf P xs

-- The run is verified in its present state.
pub record Verified (r : Run) : Type 0 where
  pub valid : validate r ≡ done
  pub leaves :
      (id : TaskId) (s : TaskStatus) → lookup id r.leaf_status ≡ some s → s ≡ TaskStatus.complete
  pub none_open : has_open_assignment r ≡ false
  pub evidence : FinalAcceptanceEvidence
  pub accepted : r.final_acceptance ≡ some evidence
  pub current_state : evidence.state ≡ r.current_state
  pub on_current_basis : evidence.basis ≡ current_basis r
  pub no_findings : evidence.open_finding_ids ≡ []
  pub some_check : evidence.check_result_ids ≢ []
  pub checks : AllOf (RunProves r evidence OperationKind.check) evidence.check_result_ids
  pub review : RunProves r evidence OperationKind.review evidence.review_result_id

run_result_proves-RunProves :
    (r : Run) (e : FinalAcceptanceEvidence) (kind : OperationKind) (id : ResultId)
    → run_result_proves r e kind id ≡ true
    → RunProves r e kind id
unfolding run_result_proves
run_result_proves-RunProves r e kind id h = elim (Option-cases (run_result r id)) [
  | inl missing ↦ absurd (ground arith)
  | inr (x, found) ↦ elim (Option-cases (run_operation r x.operation_id)) [
    | inl missing ↦ absurd (ground arith)
    | inr (o, stored) ↦ record {
      result = x;
      operation = o;
      stored_result = found;
      stored_operation = stored;
      succeeded = ground arith;
      at_state = ground (arith, evidence_beq_iff x.state e.state);
      on_basis = ground (arith, basis_beq_iff x.basis e.basis);
      of_kind = ground arith;
      operation_basis = ground (arith, basis_beq_iff o.basis e.basis);
    }
  ]
]

module _ (r : Run) (e : FinalAcceptanceEvidence) (kind : OperationKind) where
  all-AllOf :
      (ids : List ResultId)
      → all (run_result_proves r e kind) ids ≡ true
      → AllOf (RunProves r e kind) ids
  all-AllOf [] h = tt
  all-AllOf (id ∷ ids) h =
      (run_result_proves-RunProves r e kind id (ground arith), all-AllOf ids (ground arith))

all_complete-lookup :
    (id : TaskId) (s : TaskStatus) (m : List (TaskId × TaskStatus))
    → all_complete m ≡ true
    → lookup id m ≡ some s
    → s ≡ TaskStatus.complete
all_complete-lookup id s [] h found = cc
all_complete-lookup id s ((k, v) ∷ rest) h found = ground (arith, all_complete-lookup id s rest)

Verified-final :
    (r : Run) (e : FinalAcceptanceEvidence)
    → validate r ≡ done
    → all_complete r.leaf_status ≡ true
    → r.final_acceptance ≡ some e
    → final_acceptance_valid r e true ≡ true
    → Verified r
unfolding final_acceptance_valid final_acceptance_current
Verified-final r e valid complete accepted h = record {
  valid = valid;
  leaves = λ id s. all_complete-lookup id s r.leaf_status complete;
  none_open = ground arith;
  evidence = e;
  accepted = accepted;
  current_state = ground (arith, evidence_beq_iff e.state r.current_state);
  on_current_basis = ground (arith, basis_beq_iff e.basis (current_basis r));
  no_findings = ground arith;
  some_check = ground arith;
  checks = all-AllOf r e OperationKind.check e.check_result_ids (ground arith);
  review = run_result_proves-RunProves r e OperationKind.review e.review_result_id (ground arith);
}

as_refusal-done : (m : Result (Unit {0})) → as_refusal m ≡ done → m ≡ done
as_refusal-done m h = ground arith

-- A run that `Succeed` lets through was active and is verified in its present state: it is valid,
-- every leaf is complete, no assignment is open, and its final acceptance is for the current state
-- and basis, without open findings, with checks and a review that results of the run prove. The
-- call changes only the status, to succeeded.
pub succeed-Verified :
    (r : Run)
    → (succeed r).0 ≡ done
    → (r.status ≡ RunStatus.active)
      × Verified r
      × ((succeed r).1 ≡ record r { status = RunStatus.succeeded })
unfolding succeed may_succeed
succeed-Verified r h = elim (Option-cases r.final_acceptance) [
  | inl missing ↦ absurd (ground arith)
  | inr (e, accepted) ↦ (
    ground arith,
    Verified-final r e (as_refusal-done (validate r) (ground arith)) (ground arith) accepted
        (ground arith),
    ground arith,
  )
]
