-- ===== src/Operation.antt =====
-- internal/flows/impl_loop/state/state.go: operations, their attempts and results, and the
-- task-review discussion.
use stepan.Base.{
  ℕ, suc, ◌-◌, String, Bool, true, ◌&&◌, ◌||◌, List, [], ◌∷◌, ◌==◌, ◌!=◌, not, string_eq, nat_eq,
  leb, ltb, length, is_empty, all, contains, is_blank, if◌then◌else◌,
}
use stepan.Status.{
  OperationKind, CycleCounter, AttemptOutcome, ResultStatus, FindingStatus, operation_kind_eq,
  operation_kind_valid, cycle_counter_eq, cycle_counter_valid, attempt_outcome_eq,
  attempt_outcome_valid, result_status_valid, finding_status_eq, finding_status_valid,
  matches_operation_kind,
}
use stepan.Evidence.{
  BriefId, OperationId, ResultId, EvidenceRef, AcceptanceBasis, evidence_valid, basis_valid,
}

-- Numbers, rounds and cycles are `uint64`.
pub record OperationAttempt : Type 0 where
  pub number : ℕ
  pub semantic_round : ℕ
  pub outcome : AttemptOutcome
  pub diagnostic : String

pub record Operation : Type 0 where
  pub id : OperationId
  pub kind : OperationKind
  pub brief_id : BriefId
  pub basis : AcceptanceBasis
  pub description : String
  pub counter : CycleCounter
  pub supersedes : OperationId
  pub episode : String
  pub attempts : List OperationAttempt
  pub semantic_cycle : ℕ
  pub technical_attempt_start : ℕ
  pub uncounted_resume_check : Bool

-- The first conjunct of `valid`, on all fields but the attempts.
unfoldable pub operation_head_valid : Operation → Bool
operation_head_valid o =
    o.id != ""
    && o.supersedes != o.id
    && operation_kind_valid o.kind
    && basis_valid o.basis
    && cycle_counter_valid o.counter
    && matches_operation_kind o.counter o.kind
    && not (o.counter == CycleCounter.explorer && is_blank o.episode)
    && not (o.counter != CycleCounter.explorer && o.episode != "")
    && not (
        o.uncounted_resume_check
        && (o.kind != OperationKind.check
            || o.counter != CycleCounter.no_counter
            || not (is_empty o.attempts)))

-- One round of the loop over the attempts, at `index`; `first` is the round of the first attempt.
unfoldable pub attempt_valid : CycleCounter → ℕ → ℕ → ℕ → OperationAttempt → Bool
attempt_valid kind cycle first index a =
    a.number == suc index
    && attempt_outcome_valid a.outcome
    && not (a.outcome == AttemptOutcome.unobserved && a.diagnostic != "")
    && not (kind == CycleCounter.no_counter && (a.semantic_round != 0 || cycle != 0))
    && not (
        kind != CycleCounter.no_counter
        && (a.semantic_round == 0 || cycle == 0 || (ltb 0 index && a.semantic_round != first)))

unfoldable pub attempts_valid : CycleCounter → ℕ → ℕ → ℕ → List OperationAttempt → Bool
attempts_valid kind cycle first index [] = true
attempts_valid kind cycle first index (a ∷ rest) =
    attempt_valid kind cycle first index a && attempts_valid kind cycle first (suc index) rest

-- `Attempts[0].SemanticRound`; read only where there is an attempt.
abbrev pub first_round : List OperationAttempt → ℕ
first_round [] = 0
first_round (a ∷ _) = a.semantic_round

unfoldable pub operation_valid : Operation → Bool
operation_valid o =
    operation_head_valid o
    && attempts_valid o.counter o.semantic_cycle (first_round o.attempts) 0 o.attempts
    && leb o.technical_attempt_start (length o.attempts)

-- `technicalAttempts` of an operation that is there.
unfoldable pub technical_attempts : Operation → ℕ
technical_attempts o =
    if ltb (length o.attempts) o.technical_attempt_start
    then 0
    else length o.attempts - o.technical_attempt_start

pub record OperationResult : Type 0 where
  pub id : ResultId
  pub operation_id : OperationId
  pub status : ResultStatus
  pub state : EvidenceRef
  pub basis : AcceptanceBasis
  pub evidence : List EvidenceRef

unfoldable pub result_valid : OperationResult → Bool
result_valid r =
    r.id != ""
    && r.operation_id != ""
    && result_status_valid r.status
    && evidence_valid r.state
    && basis_valid r.basis
    && all evidence_valid r.evidence

pub record TaskReviewFinding : Type 0 where
  pub id : String
  pub problem : String
  pub location : String
  pub basis : String
  pub expected_result : String
  pub status : FindingStatus
  pub resolution : String

unfoldable pub finding_valid : TaskReviewFinding → Bool
finding_valid f =
    not (is_blank f.id)
    && not (is_blank f.problem)
    && not (is_blank f.location)
    && not (is_blank f.basis)
    && not (is_blank f.expected_result)
    && finding_status_valid f.status
    && (f.status == FindingStatus.open_finding || not (is_blank f.resolution))

pub record TaskReviewDispute : Type 0 where
  pub finding_id : String
  pub arguments : String
  pub references : List String

unfoldable pub dispute_valid : TaskReviewDispute → Bool
dispute_valid d =
    not (is_blank d.finding_id)
    && not (is_blank d.arguments)
    && not (is_empty d.references)
    && all (λ r. not (is_blank r)) d.references

pub record TaskReviewRecord : Type 0 where
  pub operation_id : OperationId
  pub result_id : ResultId
  pub round : ℕ
  pub state : EvidenceRef
  pub findings : List TaskReviewFinding
  pub disputes : List TaskReviewDispute
  pub discussion : String

-- The loop over the findings, with the identifiers that it has seen.
unfoldable pub findings_valid : List String → List TaskReviewFinding → Bool
findings_valid seen [] = true
findings_valid seen (f ∷ rest) =
    finding_valid f && not (contains seen f.id) && findings_valid (f.id ∷ seen) rest

unfoldable pub review_valid : TaskReviewRecord → Bool
review_valid r =
    r.operation_id != ""
    && r.result_id != ""
    && r.round != 0
    && evidence_valid r.state
    && findings_valid [] r.findings
    && all dispute_valid r.disputes
