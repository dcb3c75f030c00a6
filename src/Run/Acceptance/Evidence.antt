-- ===== src/Run/Acceptance/Evidence.antt =====
-- internal/flows/impl_loop/state/state.go: what a successful `AcceptAssignment` has
-- checked.
use stepan.Base.{
  ◌≡◌, ◌≢◌, List, [], ◌∷◌, some, ok, done, Option-cases, Result-cases, inl, inr, arith, string_eq,
  eq_iff,
}
use stepan.Status.{OperationKind, ResultStatus}
use stepan.Evidence.{AssignmentId, ResultId, evidence_eq, basis_eq, evidence_beq_iff, basis_beq_iff}
use stepan.Operation.{Operation, OperationResult}
use stepan.Assignment
use stepan.Assignment.{
  AcceptanceEvidence, Assignment, result_proves, checks_prove, validate_acceptance, accept,
}
use stepan.Run.{Run, current_basis}
use stepan.Run.Work.{active_assignment}
use stepan.Run.Acceptance.{accept_assignment}

-- A stored result succeeded on the given state and basis, by a stored operation of the given kind
-- on the given brief and basis.
pub record Proves (a : Assignment) (e : AcceptanceEvidence) (kind : OperationKind) (id : ResultId)
    : Type 0 where
  pub result : OperationResult
  pub operation : Operation
  pub stored_result : Assignment.result a id ≡ some result
  pub stored_operation : Assignment.operation a result.operation_id ≡ some operation
  pub succeeded : result.status ≡ ResultStatus.succeeded
  pub at_state : result.state ≡ e.state
  pub on_basis : result.basis ≡ e.basis
  pub of_kind : operation.kind ≡ kind
  pub of_brief : operation.brief_id ≡ e.brief_id
  pub operation_basis : operation.basis ≡ e.basis

abbrev pub All : {A : Type 0} → (A → Type 0) → List A → Type 0
All P [] = Unit
All P (x ∷ xs) = P x × All P xs

result_proves-Proves :
    (a : Assignment) (e : AcceptanceEvidence) (kind : OperationKind) (id : ResultId)
    → result_proves a e kind (Assignment.result a id) ≡ done
    → Proves a e kind id
unfolding result_proves
result_proves-Proves a e kind id h = elim (Option-cases (Assignment.result a id)) [
  | inl missing ↦ absurd (ground arith)
  | inr (x, found) ↦ elim (Option-cases (Assignment.operation a x.operation_id)) [
    | inl missing ↦ absurd (ground arith)
    | inr (o, stored) ↦ record {
      result = x;
      operation = o;
      stored_result = found;
      stored_operation = stored;
      succeeded = ground arith;
      at_state = ground (arith, evidence_beq_iff x.state e.state);
      on_basis = ground (arith, basis_beq_iff x.basis e.basis);
      of_kind = ground arith;
      of_brief = ground (arith, eq_iff o.brief_id e.brief_id);
      operation_basis = ground (arith, basis_beq_iff o.basis e.basis);
    }
  ]
]

checks_prove-All :
    (a : Assignment) (e : AcceptanceEvidence) (ids : List ResultId)
    → checks_prove a e ids ≡ done
    → All (Proves a e OperationKind.check) ids
unfolding checks_prove
checks_prove-All a e [] h = tt
checks_prove-All a e (id ∷ ids) h = (
  result_proves-Proves a e OperationKind.check id (ground arith),
  checks_prove-All a e ids (ground arith),
)

-- What an accepted evidence has to show: at least one check, every check and the review proved by
-- stored results, on the state and basis that the run is at.
pub record Accepted (r : Run) (a : Assignment) (e : AcceptanceEvidence) : Type 0 where
  pub some_check : e.check_result_ids ≢ []
  pub checks : All (Proves a e OperationKind.check) e.check_result_ids
  pub review : Proves a e OperationKind.review e.review_result_id
  pub current_state : e.state ≡ r.current_state
  pub on_current_basis : e.basis ≡ current_basis r

accept-Proves :
    (a : Assignment) (e : AcceptanceEvidence)
    → accept a e ≡ done
    → (e.check_result_ids ≢ [])
      × All (Proves a e OperationKind.check) e.check_result_ids
      × Proves a e OperationKind.review e.review_result_id
unfolding accept validate_acceptance
accept-Proves a e h = (
  ground arith,
  checks_prove-All a e e.check_result_ids (ground arith),
  result_proves-Proves a e OperationKind.review e.review_result_id (ground arith),
)

-- An acceptance that succeeds is of an active assignment. Its evidence is for the current state and
-- basis and names at least one check, and each of its checks and its review is a stored result that
-- succeeded on that state and basis, of a stored operation of the right kind on its brief and basis.
pub accept_assignment-Accepted :
    (id : AssignmentId) (e : AcceptanceEvidence) (r : Run)
    → (accept_assignment id e r).0 ≡ done
    → (a : Assignment) × (active_assignment r id ≡ ok a) × Accepted r a e
unfolding accept_assignment
accept_assignment-Accepted id e r h = elim (Result-cases (active_assignment r id)) [
  | inl (f, fails) ↦ absurd (ground arith)
  | inr (a, found) ↦ elim (Result-cases (accept a e)) [
    | inl (f, fails) ↦ absurd (ground arith)
    | inr (tt, passes) ↦
        let (some_check, checks, review) = accept-Proves a e passes in
        (
          a,
          found,
          record {
            some_check = some_check;
            checks = checks;
            review = review;
            current_state = ground (arith, evidence_beq_iff e.state r.current_state);
            on_current_basis = ground (arith, basis_beq_iff e.basis (current_basis r));
          },
        )
  ]
]
