-- ===== src/Status.antt =====
-- internal/flows/impl_loop/state/state.go: the string enumerations. Each has the constructors of
-- its constants, and `unknown` for every other string, which `valid` refuses. Where the empty
-- string has a meaning of its own it is a constructor (`no_counter`, `unobserved`).
use stepan.Base.{ℕ, ◌≡◌, ◌↔◌, Bool, true, false, Comparable, ◌==◌, nat_eq, arith}

-- A resumable pause is not a terminal closure.
pub data RunStatus : Type 0 where
  active paused closed succeeded unknown : RunStatus

abbrev pub run_status_rank : RunStatus → ℕ
run_status_rank RunStatus.active = 0
run_status_rank RunStatus.paused = 1
run_status_rank RunStatus.closed = 2
run_status_rank RunStatus.succeeded = 3
run_status_rank RunStatus.unknown = 4

pub run_status_beq_iff :
    (a b : RunStatus) → ((run_status_rank a == run_status_rank b) ≡ true) ↔ (a ≡ b)
run_status_beq_iff a b = ground arith

instance abbrev pub run_status_eq : Comparable RunStatus
run_status_eq = record {
  same = λ a b. run_status_rank a == run_status_rank b;
  same_iff = run_status_beq_iff;
}

abbrev pub run_status_valid : RunStatus → Bool
run_status_valid RunStatus.unknown = false
run_status_valid _ = true

pub data InitialBaselineStatus : Type 0 where
  baseline_pending baseline_passed unknown : InitialBaselineStatus

abbrev pub initial_baseline_status_rank : InitialBaselineStatus → ℕ
initial_baseline_status_rank InitialBaselineStatus.baseline_pending = 0
initial_baseline_status_rank InitialBaselineStatus.baseline_passed = 1
initial_baseline_status_rank InitialBaselineStatus.unknown = 2

pub initial_baseline_status_beq_iff :
    (a b : InitialBaselineStatus)
    → ((initial_baseline_status_rank a == initial_baseline_status_rank b) ≡ true) ↔ (a ≡ b)
initial_baseline_status_beq_iff a b = ground arith

instance abbrev pub initial_baseline_status_eq : Comparable InitialBaselineStatus
initial_baseline_status_eq = record {
  same = λ a b. initial_baseline_status_rank a == initial_baseline_status_rank b;
  same_iff = initial_baseline_status_beq_iff;
}

abbrev pub initial_baseline_status_valid : InitialBaselineStatus → Bool
initial_baseline_status_valid InitialBaselineStatus.unknown = false
initial_baseline_status_valid _ = true

-- Stored for leaves only; the zero value of a missing key is `unknown`.
pub data TaskStatus : Type 0 where
  pending accepted_awaiting_commit complete unknown : TaskStatus

abbrev pub task_status_rank : TaskStatus → ℕ
task_status_rank TaskStatus.pending = 0
task_status_rank TaskStatus.accepted_awaiting_commit = 1
task_status_rank TaskStatus.complete = 2
task_status_rank TaskStatus.unknown = 3

pub task_status_beq_iff :
    (a b : TaskStatus) → ((task_status_rank a == task_status_rank b) ≡ true) ↔ (a ≡ b)
task_status_beq_iff a b = ground arith

instance abbrev pub task_status_eq : Comparable TaskStatus
task_status_eq = record {
  same = λ a b. task_status_rank a == task_status_rank b;
  same_iff = task_status_beq_iff;
}

abbrev pub task_status_valid : TaskStatus → Bool
task_status_valid TaskStatus.unknown = false
task_status_valid _ = true

pub data AssignmentStatus : Type 0 where
  active accepted_awaiting_commit committed unknown : AssignmentStatus

abbrev pub assignment_status_rank : AssignmentStatus → ℕ
assignment_status_rank AssignmentStatus.active = 0
assignment_status_rank AssignmentStatus.accepted_awaiting_commit = 1
assignment_status_rank AssignmentStatus.committed = 2
assignment_status_rank AssignmentStatus.unknown = 3

pub assignment_status_beq_iff :
    (a b : AssignmentStatus)
    → ((assignment_status_rank a == assignment_status_rank b) ≡ true) ↔ (a ≡ b)
assignment_status_beq_iff a b = ground arith

instance abbrev pub assignment_status_eq : Comparable AssignmentStatus
assignment_status_eq = record {
  same = λ a b. assignment_status_rank a == assignment_status_rank b;
  same_iff = assignment_status_beq_iff;
}

abbrev pub assignment_status_valid : AssignmentStatus → Bool
assignment_status_valid AssignmentStatus.unknown = false
assignment_status_valid _ = true

pub data OperationKind : Type 0 where
  agent check review unknown : OperationKind

abbrev pub operation_kind_rank : OperationKind → ℕ
operation_kind_rank OperationKind.agent = 0
operation_kind_rank OperationKind.check = 1
operation_kind_rank OperationKind.review = 2
operation_kind_rank OperationKind.unknown = 3

pub operation_kind_beq_iff :
    (a b : OperationKind) → ((operation_kind_rank a == operation_kind_rank b) ≡ true) ↔ (a ≡ b)
operation_kind_beq_iff a b = ground arith

instance abbrev pub operation_kind_eq : Comparable OperationKind
operation_kind_eq = record {
  same = λ a b. operation_kind_rank a == operation_kind_rank b;
  same_iff = operation_kind_beq_iff;
}

abbrev pub operation_kind_valid : OperationKind → Bool
operation_kind_valid OperationKind.unknown = false
operation_kind_valid _ = true

-- The semantic cycle that an operation consumes; `no_counter` is the empty string.
pub data CycleCounter : Type 0 where
  no_counter assignment_review mandatory_checks checks_requested brief_refinement explorer
        final_review unknown :
      CycleCounter

abbrev pub cycle_counter_rank : CycleCounter → ℕ
cycle_counter_rank CycleCounter.no_counter = 0
cycle_counter_rank CycleCounter.assignment_review = 1
cycle_counter_rank CycleCounter.mandatory_checks = 2
cycle_counter_rank CycleCounter.checks_requested = 3
cycle_counter_rank CycleCounter.brief_refinement = 4
cycle_counter_rank CycleCounter.explorer = 5
cycle_counter_rank CycleCounter.final_review = 6
cycle_counter_rank CycleCounter.unknown = 7

pub cycle_counter_beq_iff :
    (a b : CycleCounter) → ((cycle_counter_rank a == cycle_counter_rank b) ≡ true) ↔ (a ≡ b)
cycle_counter_beq_iff a b = ground arith

instance abbrev pub cycle_counter_eq : Comparable CycleCounter
cycle_counter_eq = record {
  same = λ a b. cycle_counter_rank a == cycle_counter_rank b;
  same_iff = cycle_counter_beq_iff;
}

abbrev pub cycle_counter_valid : CycleCounter → Bool
cycle_counter_valid CycleCounter.unknown = false
cycle_counter_valid _ = true

-- `unobserved` is the empty string.
pub data AttemptOutcome : Type 0 where
  unobserved succeeded failed interrupted rejected unknown : AttemptOutcome

abbrev pub attempt_outcome_rank : AttemptOutcome → ℕ
attempt_outcome_rank AttemptOutcome.unobserved = 0
attempt_outcome_rank AttemptOutcome.succeeded = 1
attempt_outcome_rank AttemptOutcome.failed = 2
attempt_outcome_rank AttemptOutcome.interrupted = 3
attempt_outcome_rank AttemptOutcome.rejected = 4
attempt_outcome_rank AttemptOutcome.unknown = 5

pub attempt_outcome_beq_iff :
    (a b : AttemptOutcome) → ((attempt_outcome_rank a == attempt_outcome_rank b) ≡ true) ↔ (a ≡ b)
attempt_outcome_beq_iff a b = ground arith

instance abbrev pub attempt_outcome_eq : Comparable AttemptOutcome
attempt_outcome_eq = record {
  same = λ a b. attempt_outcome_rank a == attempt_outcome_rank b;
  same_iff = attempt_outcome_beq_iff;
}

abbrev pub attempt_outcome_valid : AttemptOutcome → Bool
attempt_outcome_valid AttemptOutcome.unknown = false
attempt_outcome_valid _ = true

pub data ResultStatus : Type 0 where
  succeeded failed interrupted unknown : ResultStatus

abbrev pub result_status_rank : ResultStatus → ℕ
result_status_rank ResultStatus.succeeded = 0
result_status_rank ResultStatus.failed = 1
result_status_rank ResultStatus.interrupted = 2
result_status_rank ResultStatus.unknown = 3

pub result_status_beq_iff :
    (a b : ResultStatus) → ((result_status_rank a == result_status_rank b) ≡ true) ↔ (a ≡ b)
result_status_beq_iff a b = ground arith

instance abbrev pub result_status_eq : Comparable ResultStatus
result_status_eq = record {
  same = λ a b. result_status_rank a == result_status_rank b;
  same_iff = result_status_beq_iff;
}

abbrev pub result_status_valid : ResultStatus → Bool
result_status_valid ResultStatus.unknown = false
result_status_valid _ = true

pub data FindingStatus : Type 0 where
  open_finding resolved retained unknown : FindingStatus

abbrev pub finding_status_rank : FindingStatus → ℕ
finding_status_rank FindingStatus.open_finding = 0
finding_status_rank FindingStatus.resolved = 1
finding_status_rank FindingStatus.retained = 2
finding_status_rank FindingStatus.unknown = 3

pub finding_status_beq_iff :
    (a b : FindingStatus) → ((finding_status_rank a == finding_status_rank b) ≡ true) ↔ (a ≡ b)
finding_status_beq_iff a b = ground arith

instance abbrev pub finding_status_eq : Comparable FindingStatus
finding_status_eq = record {
  same = λ a b. finding_status_rank a == finding_status_rank b;
  same_iff = finding_status_beq_iff;
}

abbrev pub finding_status_valid : FindingStatus → Bool
finding_status_valid FindingStatus.unknown = false
finding_status_valid _ = true

-- The one kind of journal record.
pub data EventKind : Type 0 where
  run_state_recorded unknown : EventKind

abbrev pub event_kind_rank : EventKind → ℕ
event_kind_rank EventKind.run_state_recorded = 0
event_kind_rank EventKind.unknown = 1

pub event_kind_beq_iff :
    (a b : EventKind) → ((event_kind_rank a == event_kind_rank b) ≡ true) ↔ (a ≡ b)
event_kind_beq_iff a b = ground arith

instance abbrev pub event_kind_eq : Comparable EventKind
event_kind_eq = record {
  same = λ a b. event_kind_rank a == event_kind_rank b;
  same_iff = event_kind_beq_iff;
}

-- `matchesOperationKind`: the kind of operation that may consume the counter.
abbrev pub matches_operation_kind : CycleCounter → OperationKind → Bool
matches_operation_kind CycleCounter.no_counter kind = true
matches_operation_kind CycleCounter.assignment_review kind = kind == OperationKind.review
matches_operation_kind CycleCounter.final_review kind = kind == OperationKind.review
matches_operation_kind CycleCounter.mandatory_checks kind = kind == OperationKind.check
matches_operation_kind CycleCounter.checks_requested kind = kind == OperationKind.check
matches_operation_kind CycleCounter.brief_refinement kind = kind == OperationKind.agent
matches_operation_kind CycleCounter.explorer kind = kind == OperationKind.agent
matches_operation_kind CycleCounter.unknown kind = false

abbrev pub valid_assignment_counter : CycleCounter → Bool
valid_assignment_counter CycleCounter.final_review = false
valid_assignment_counter CycleCounter.unknown = false
valid_assignment_counter _ = true

abbrev pub valid_run_counter : CycleCounter → Bool
valid_run_counter CycleCounter.no_counter = true
valid_run_counter CycleCounter.final_review = true
valid_run_counter CycleCounter.explorer = true
valid_run_counter _ = false
