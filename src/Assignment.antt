-- ===== src/Assignment.antt =====
-- internal/flows/impl_loop/state/state.go: one assignment, a contiguous block of leaf tasks with
-- its briefs, operations, results and acceptance, and the methods on `*Assignment`.
use stepan.Base.{
  ℕ, suc, String, Bool, true, false, ◌&&◌, ◌||◌, Option, none, some, List, [], ◌∷◌, ◌++◌, ◌==◌,
  ◌!=◌, not, string_eq, nat_eq, inc, length, is_empty, any, find?, update_first, get_last?,
  contains, lookup_or, insert, if◌then◌else◌, Result, ok, err, Done, done, ◌>>=◌, ◌>>◌,
  invalid_state, panic,
}
use stepan.Status.{
  AssignmentStatus, OperationKind, CycleCounter, AttemptOutcome, ResultStatus, operation_kind_eq,
  result_status_eq, valid_assignment_counter,
}
use stepan.Evidence.{
  TaskId, AssignmentId, BriefId, OperationId, ResultId, EvidenceRef, AcceptanceBasis, BriefVersion,
  CommitIntent, CommitEvidence, evidence_eq, evidence_valid, basis_eq, basis_valid,
}
use stepan.Operation.{
  OperationAttempt, Operation, OperationResult, TaskReviewDispute, TaskReviewRecord, first_round,
}
use stepan.Counters.{CycleCounters, current_cycle}

-- Successful checks and review for one brief and one code state.
pub record AcceptanceEvidence : Type 0 where
  pub brief_id : BriefId
  pub state : EvidenceRef
  pub basis : AcceptanceBasis
  pub check_result_ids : List ResultId
  pub review_result_id : ResultId
  pub pending_commit : CommitIntent

pub record Assignment : Type 0 where
  pub id : AssignmentId
  pub task_ids : List TaskId
  pub status : AssignmentStatus
  pub briefs : List BriefVersion
  pub operations : List Operation
  pub results : List OperationResult
  pub acceptance : Option AcceptanceEvidence
  pub acceptance_history : List AcceptanceEvidence
  pub reconciled_commits : List CommitEvidence
  pub commit : Option CommitEvidence
  pub counters : CycleCounters
  pub task_reviews : List TaskReviewRecord
  pub pending_task_review_disputes : List TaskReviewDispute

abbrev pub no_counters : CycleCounters
no_counters = record {
  assignment_review = 0;
  mandatory_checks = 0;
  checks_requested = 0;
  brief_refinement = 0;
  explorer = [];
  assignment_review_cycle = 0;
  mandatory_checks_cycle = 0;
  checks_requested_cycle = 0;
  brief_refinement_cycle = 0;
  explorer_cycle = [];
}

unfoldable pub has_brief : Assignment → BriefId → Bool
has_brief a id = any (λ b. b.id == id) a.briefs

unfoldable pub operation : Assignment → OperationId → Option Operation
operation a id = find? (λ o. o.id == id) a.operations

unfoldable pub result : Assignment → ResultId → Option OperationResult
result a id = find? (λ r. r.id == id) a.results

unfoldable pub has_result_for_operation : Assignment → OperationId → Bool
has_result_for_operation a id = any (λ r. r.operation_id == id) a.results

-- The loops of `hasDuplicates` and `hasDuplicateResultIDs`, with the values that they have seen.
unfoldable pub has_duplicates_from : List String → List String → Bool
has_duplicates_from seen [] = false
has_duplicates_from seen (v ∷ rest) =
    v == "" || contains seen v || has_duplicates_from (v ∷ seen) rest

unfoldable pub has_duplicates : List String → Bool
has_duplicates = has_duplicates_from []

-- A result that must have succeeded on the accepted state, by an operation of the given kind on
-- the accepted brief. The operation is dereferenced without a test for nil.
unfoldable pub result_proves :
    Assignment → AcceptanceEvidence → OperationKind → Option OperationResult → Done
result_proves a e kind none = err invalid_state
result_proves a e kind (some r) =
    if r.status != ResultStatus.succeeded || r.state != e.state || r.basis != e.basis
    then err invalid_state
    else elim (operation a r.operation_id) [
      | none ↦ err panic
      | some o ↦
          if o.kind != kind || o.brief_id != e.brief_id || o.basis != e.basis
          then err invalid_state
          else done
    ]

unfoldable pub checks_prove : Assignment → AcceptanceEvidence → List ResultId → Done
unfolding ◌>>=◌
checks_prove a e [] = done
checks_prove a e (id ∷ ids) =
    result_proves a e OperationKind.check (result a id) >> checks_prove a e ids

-- `len(a.Briefs) == 0 || a.Briefs[len(a.Briefs)-1].ID != id`
unfoldable pub not_current_brief : Assignment → BriefId → Bool
not_current_brief a id = elim (get_last? a.briefs) [ none ↦ true | some b ↦ b.id != id ]

unfoldable pub validate_acceptance : Assignment → AcceptanceEvidence → Bool → Done
unfolding ◌>>=◌
validate_acceptance a e require_current_brief =
    if not (evidence_valid e.state)
      || not (basis_valid e.basis)
      || not (has_brief a e.brief_id)
      || (require_current_brief && not_current_brief a e.brief_id)
      || is_empty e.check_result_ids
      || e.review_result_id == ""
      || has_duplicates e.check_result_ids
    then err invalid_state
    else checks_prove a e e.check_result_ids
      >> result_proves a e OperationKind.review (result a e.review_result_id)

unfoldable pub accept : Assignment → AcceptanceEvidence → Done
accept a e = validate_acceptance a e true

-- The count of a semantic cycle, and its generation.
unfoldable pub cycle_count : CycleCounters → CycleCounter → String → ℕ
cycle_count c CycleCounter.assignment_review episode = c.assignment_review
cycle_count c CycleCounter.mandatory_checks episode = c.mandatory_checks
cycle_count c CycleCounter.checks_requested episode = c.checks_requested
cycle_count c CycleCounter.brief_refinement episode = c.brief_refinement
cycle_count c CycleCounter.explorer episode = lookup_or 0 episode c.explorer
cycle_count c _ episode = 0

unfoldable pub cycle_generation : CycleCounters → CycleCounter → String → ℕ
cycle_generation c CycleCounter.assignment_review episode = c.assignment_review_cycle
cycle_generation c CycleCounter.mandatory_checks episode = c.mandatory_checks_cycle
cycle_generation c CycleCounter.checks_requested episode = c.checks_requested_cycle
cycle_generation c CycleCounter.brief_refinement episode = c.brief_refinement_cycle
cycle_generation c CycleCounter.explorer episode = lookup_or 0 episode c.explorer_cycle
cycle_generation c _ episode = 0

-- The `++` of the switch in `startAttempt`.
unfoldable pub count_cycle : CycleCounters → CycleCounter → String → CycleCounters
count_cycle c CycleCounter.assignment_review episode = record c {
  assignment_review = inc c.assignment_review;
}
count_cycle c CycleCounter.mandatory_checks episode = record c {
  mandatory_checks = inc c.mandatory_checks;
}
count_cycle c CycleCounter.checks_requested episode = record c {
  checks_requested = inc c.checks_requested;
}
count_cycle c CycleCounter.brief_refinement episode = record c {
  brief_refinement = inc c.brief_refinement;
}
count_cycle c CycleCounter.explorer episode = record c {
  explorer = insert episode (inc (lookup_or 0 episode c.explorer)) c.explorer;
}
count_cycle c _ episode = c

abbrev pub attempt : List OperationAttempt → ℕ → OperationAttempt
attempt attempts round = record {
  number = suc (length attempts);
  semantic_round = round;
  outcome = AttemptOutcome.unobserved;
  diagnostic = "";
}

-- The first attempt of an operation: it takes its round from the counter that it consumes.
unfoldable pub first_attempt : CycleCounters → Operation → OperationAttempt × Operation
first_attempt c o =
    let new =
      attempt o.attempts (cycle_count (count_cycle c o.counter o.episode) o.counter o.episode) in
    (
      new,
      elim o.counter [
        | CycleCounter.no_counter ↦ record o { attempts = o.attempts ++ new ∷ [] }
        | other ↦ record o {
          attempts = o.attempts ++ new ∷ [];
          semantic_cycle = current_cycle (cycle_generation c o.counter o.episode);
        }
      ],
    )

-- A retry keeps the round and leaves the counters alone.
unfoldable pub retry : Operation → OperationAttempt × Operation
retry o =
    let new = attempt o.attempts (first_round o.attempts) in
    (new, record o { attempts = o.attempts ++ new ∷ [] })

abbrev pub put_operation : Assignment → Operation → Assignment
put_operation a o = record a { operations = update_first (λ p. p.id == o.id) (λ _. o) a.operations }

-- `startAttempt`; the operation is the one that `operation` found in this assignment.
unfoldable pub start_attempt : Assignment → Operation → Result (OperationAttempt × Assignment)
start_attempt a o =
    if not (valid_assignment_counter o.counter) || o.uncounted_resume_check
    then err invalid_state
    else if is_empty o.attempts
    then (let (new, o') = first_attempt a.counters o in
        ok (
          new,
          record (put_operation a o') { counters = count_cycle a.counters o.counter o.episode },
        ))
    else (let (new, o') = retry o in ok (new, put_operation a o'))
