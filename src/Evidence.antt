-- ===== src/Evidence.antt =====
-- internal/flows/impl_loop/state/state.go: identifiers, captured evidence and what identifies a
-- run. An identifier is the string that it is in the source.
use stepan.Base.{
  String, ◌≡◌, ◌↔◌, Bool, true, ◌&&◌, List, Comparable, ◌==◌, ◌!=◌, not, string_eq, eq_iff, ℤ,
  is_positive, is_blank, arith,
}

abbrev pub RunId : Type 0
RunId = String

abbrev pub TaskId : Type 0
TaskId = String

abbrev pub AssignmentId : Type 0
AssignmentId = String

abbrev pub BriefId : Type 0
BriefId = String

abbrev pub OperationId : Type 0
OperationId = String

abbrev pub ResultId : Type 0
ResultId = String

abbrev pub EvidenceId : Type 0
EvidenceId = String

-- An immutable captured input or observed code state.
pub record EvidenceRef : Type 0 where
  pub id : EvidenceId
  pub digest : String

abbrev pub evidence_beq : EvidenceRef → EvidenceRef → Bool
evidence_beq e f = e.id == f.id && e.digest == f.digest

pub evidence_beq_iff : (e f : EvidenceRef) → (evidence_beq e f ≡ true) ↔ (e ≡ f)
evidence_beq_iff e f = ground (arith, eq_iff e.id f.id, eq_iff e.digest f.digest)

instance abbrev pub evidence_eq : Comparable EvidenceRef
evidence_eq = record { same = evidence_beq; same_iff = evidence_beq_iff }

unfoldable pub evidence_valid : EvidenceRef → Bool
evidence_valid e = e.id != "" && e.digest != ""

-- The versions of the specification and the configuration that work rests on.
pub record AcceptanceBasis : Type 0 where
  pub specification : EvidenceRef
  pub configuration : EvidenceRef

abbrev pub basis_beq : AcceptanceBasis → AcceptanceBasis → Bool
basis_beq b c = b.specification == c.specification && b.configuration == c.configuration

pub basis_beq_iff : (b c : AcceptanceBasis) → (basis_beq b c ≡ true) ↔ (b ≡ c)
basis_beq_iff b c = ground (
  arith,
  evidence_beq_iff b.specification c.specification,
  evidence_beq_iff b.configuration c.configuration,
)

instance abbrev pub basis_eq : Comparable AcceptanceBasis
basis_eq = record { same = basis_beq; same_iff = basis_beq_iff }

unfoldable pub basis_valid : AcceptanceBasis → Bool
basis_valid b = evidence_valid b.specification && evidence_valid b.configuration

pub record RunIdentity : Type 0 where
  pub id : RunId
  pub change : String
  pub repository : String
  pub work_copy : String
  pub branch : String
  pub baseline_commit : String
  pub baseline_state : EvidenceRef
  pub specification : EvidenceRef
  pub task_list : EvidenceRef
  pub configuration : EvidenceRef

unfoldable pub identity_valid : RunIdentity → Bool
identity_valid i =
    i.id != ""
    && i.change != ""
    && i.repository != ""
    && i.work_copy != ""
    && i.branch != ""
    && i.baseline_commit != ""
    && evidence_valid i.baseline_state
    && evidence_valid i.specification
    && evidence_valid i.task_list
    && evidence_valid i.configuration

-- The successful full check set that permits the first assignment.
pub record InitialBaselineEvidence : Type 0 where
  pub operation_id : OperationId
  pub result_id : ResultId
  pub state : EvidenceRef
  pub basis : AcceptanceBasis

unfoldable pub initial_baseline_evidence_valid : InitialBaselineEvidence → Bool
initial_baseline_evidence_valid e =
    e.operation_id != "" && e.result_id != "" && evidence_valid e.state && basis_valid e.basis

-- A corrective task cites the failed final review that required it.
pub record FinalFindingReference : Type 0 where
  pub review_result_id : ResultId
  pub finding_id : String

abbrev pub finding_reference_beq : FinalFindingReference → FinalFindingReference → Bool
finding_reference_beq a b = a.review_result_id == b.review_result_id && a.finding_id == b.finding_id

pub finding_reference_beq_iff :
    (a b : FinalFindingReference) → (finding_reference_beq a b ≡ true) ↔ (a ≡ b)
finding_reference_beq_iff a b =
    ground (arith, eq_iff a.review_result_id b.review_result_id, eq_iff a.finding_id b.finding_id)

instance abbrev pub finding_reference_eq : Comparable FinalFindingReference
finding_reference_eq = record { same = finding_reference_beq; same_iff = finding_reference_beq_iff }

unfoldable pub finding_reference_valid : FinalFindingReference → Bool
finding_reference_valid r = r.review_result_id != "" && not (is_blank r.finding_id)

pub record Task : Type 0 where
  pub id : TaskId
  pub parent_id : TaskId
  pub order : ℤ
  pub title : String
  pub final_findings : List FinalFindingReference

pub record BriefVersion : Type 0 where
  pub id : BriefId
  pub number : ℤ
  pub document : EvidenceRef

unfoldable pub brief_valid : BriefVersion → Bool
brief_valid b = b.id != "" && is_positive b.number && evidence_valid b.document

-- The commit that the controller is about to create.
pub record CommitIntent : Type 0 where
  pub operation_id : OperationId
  pub parent_commit : String
  pub tree : String
  pub message : String

unfoldable pub intent_valid : CommitIntent → Bool
intent_valid c =
    c.operation_id != "" && c.parent_commit != "" && c.tree != "" && not (is_blank c.message)

pub record CommitEvidence : Type 0 where
  pub operation_id : OperationId
  pub commit_id : String
  pub parent_commit : String
  pub tree : String
  pub message : String
  pub state : EvidenceRef
  pub basis : AcceptanceBasis

unfoldable pub commit_valid : CommitEvidence → Bool
commit_valid c =
    c.operation_id != ""
    && c.commit_id != ""
    && c.parent_commit != ""
    && c.tree != ""
    && not (is_blank c.message)
    && evidence_valid c.state
    && basis_valid c.basis

unfoldable pub matches_intent : CommitEvidence → CommitIntent → Bool
matches_intent evidence intent =
    evidence.operation_id == intent.operation_id
    && evidence.parent_commit == intent.parent_commit
    && evidence.tree == intent.tree
    && evidence.message == intent.message
