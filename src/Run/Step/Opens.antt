-- ===== src/Run/Step/Opens.antt =====
-- internal/flows/impl_loop/state/state.go: which calls leave how many assignments open.
use stepan.Base.{
  Bool, ◌≡◌, List, [], ◌∷◌, some, ok, Option-cases, Result-cases, inl, inr, arith, refl, ◌!=◌,
  string_eq, false, ◌==◌, Bool-cases, if◌then◌else◌, ℕ, ◌≤◌, suc, update_first, find?, any, ◌++◌,
  eq_iff, String, insert,
}
use stepan.Evidence.{
  AssignmentId, EvidenceRef, CommitEvidence, evidence_eq, BriefVersion, CommitIntent, OperationId,
}
use stepan.Assignment
use stepan.Assignment.{
  Assignment, AcceptanceEvidence, start_attempt, put_operation, retry, first_attempt, count_cycle,
}
use stepan.Operation.{Operation, OperationResult, TaskReviewRecord, TaskReviewDispute}
use stepan.Counters.{LimitPause}
use stepan.Run.{Run, assignment, invalidate_final_acceptance, put_assignment}
use stepan.Run.Work.{
  active_assignment, add_brief_version, add_operation, add_result, record_task_review,
  record_task_review_dispute, close_mandatory_cycle,
}
use stepan.Run.Attempts.{
  store_attempt, record_assignment_attempt_outcome, assignment_for_attempt_outcome,
  record_attempt_outcome,
}
use stepan.Run.Lifecycle.{
  reset_limit_pause, reset_technical, reset_assignment_cycle, end_explorer_episode, renew,
  reset_cycle, reopen_window,
}
use stepan.Run.Acceptance.{
  awaiting, reopen, begin_brief_refinement, accept_assignment, set_pending_commit_intent,
  refresh_pending_commit_intent_tree, record_reconciled_commit, reopen_assignment,
  commit_assignment, reopen_each, reopened,
}
use stepan.Status.{AttemptOutcome, AssignmentStatus, assignment_status_eq}

-- The assignments that are not committed.
abbrev pub open_count : List Assignment → ℕ
open_count [] = 0
open_count (a ∷ rest) =
    let others = open_count rest in
    if a.status == AssignmentStatus.committed then others else suc others

pub open_count-none :
    (xs : List Assignment)
    → any (λ a. a.status != AssignmentStatus.committed) xs ≡ false
    → open_count xs ≡ 0
open_count-none [] h = refl
open_count-none (a ∷ xs) h = ground (arith, open_count-none xs)

pub open_count-append :
    (xs : List Assignment) (a : Assignment) → open_count (xs ++ a ∷ []) ≤ suc (open_count xs)
open_count-append [] a = ground arith
open_count-append (x ∷ xs) a = ground (arith, open_count-append xs a)

pub open_count-reopen_each :
    (stale : AcceptanceEvidence → Bool) (xs : List Assignment)
    → open_count (reopen_each stale xs) ≤ open_count xs
unfolding reopen_each awaiting
open_count-reopen_each stale [] = ground arith
open_count-reopen_each stale (a ∷ xs) = ground (arith, open_count-reopen_each stale xs)

-- Writing an assignment back opens none, unless the one that was found is committed.
pub open_count-update :
    (id : AssignmentId) (xs : List Assignment) (a a' : Assignment)
    → find? (λ b. b.id == id) xs ≡ some a
    → (a.status ≡ AssignmentStatus.committed → a'.status ≡ AssignmentStatus.committed)
    → open_count (update_first (λ b. b.id == id) (λ _. a') xs) ≤ open_count xs
open_count-update id [] a a' found keeps = ground arith
open_count-update id (x ∷ xs) a a' found keeps = elim (Bool-cases (x.id == id)) [
  | inl here ↦ ground arith
  | inr elsewhere ↦ ground (arith, open_count-update id xs a a')
]

found-id :
    (id : AssignmentId) (xs : List Assignment) (a : Assignment)
    → find? (λ b. b.id == id) xs ≡ some a
    → a.id ≡ id
found-id id [] a found = cc
found-id id (x ∷ xs) a found = ground (arith, found-id id xs a, eq_iff x.id id)

pub open_count-update_at :
    (key id : AssignmentId) (xs : List Assignment) (a a' : Assignment)
    → key ≡ id
    → find? (λ b. b.id == id) xs ≡ some a
    → (a.status ≡ AssignmentStatus.committed → a'.status ≡ AssignmentStatus.committed)
    → open_count (update_first (λ b. b.id == key) (λ _. a') xs) ≤ open_count xs
open_count-update_at key id xs a a' same found keeps =
    rw same (open_count-update id xs a a' found keeps)

pub open_count-put :
    (r : Run) (id : AssignmentId) (a : Assignment)
    → assignment r id ≡ some a
    → (a' : Assignment) → a'.id ≡ a.id
    → (a.status ≡ AssignmentStatus.committed → a'.status ≡ AssignmentStatus.committed)
    → open_count (put_assignment a' r).assignments ≤ open_count r.assignments
unfolding assignment
open_count-put r id a found a' same keeps =
    open_count-update_at a'.id id r.assignments a a' (cc (same, found-id id r.assignments a found))
      found keeps

-- The number of open assignments does not grow.
abbrev pub OpensNone : Run → Run → Type 0
OpensNone r r' = open_count r'.assignments ≤ open_count r.assignments

module _ (id : AssignmentId) (r : Run) where
  pub opens-add_brief_version : (w : BriefVersion) → OpensNone r (add_brief_version id w r).1
  unfolding add_brief_version active_assignment
  opens-add_brief_version w = elim (Option-cases (assignment r id)) [
    | inl missing ↦ ground arith
    | inr (a, found) ↦
        ground (arith, open_count-put r id a found (record a { briefs = a.briefs ++ w ∷ [] }) refl)
  ]

  pub opens-add_operation : (w : Operation) → OpensNone r (add_operation id w r).1
  unfolding add_operation active_assignment
  opens-add_operation w = elim (Option-cases (assignment r id)) [
    | inl missing ↦ ground arith
    | inr (a, found) ↦
        ground (
          arith,
          open_count-put r id a found (record a { operations = a.operations ++ w ∷ [] }) refl,
        )
  ]

  pub opens-add_result : (w : OperationResult) → OpensNone r (add_result id w r).1
  unfolding add_result active_assignment close_mandatory_cycle
  opens-add_result w = elim (Option-cases (assignment r id)) [
    | inl missing ↦ ground arith
    | inr (a, found) ↦ elim (Option-cases (Assignment.operation a w.operation_id)) [
      | inl unknown ↦ ground arith
      | inr (o, stored) ↦ ground (
        arith,
        open_count-put r id a found
            (close_mandatory_cycle o w (record a { results = a.results ++ w ∷ [] })),
      )
    ]
  ]

  pub opens-accept_assignment : (w : AcceptanceEvidence) → OpensNone r (accept_assignment id w r).1
  unfolding accept_assignment active_assignment
  opens-accept_assignment w = elim (Option-cases (assignment r id)) [
    | inl missing ↦ ground arith
    | inr (a, found) ↦ ground (
      arith,
      open_count-put r id a found
          (record a { acceptance = some w; status = AssignmentStatus.accepted_awaiting_commit })
          refl,
    )
  ]

  pub opens-set_pending_commit_intent :
      (w : CommitIntent) → OpensNone r (set_pending_commit_intent id w r).1
  unfolding set_pending_commit_intent
  opens-set_pending_commit_intent w = elim (Option-cases (assignment r id)) [
    | inl missing ↦ ground arith
    | inr (a, found) ↦ elim (Option-cases (awaiting a)) [
      | inl unaccepted ↦ ground arith
      | inr (e, accepted) ↦ ground (
        arith,
        open_count-put r id a found
            (record a { acceptance = some (record e { pending_commit = w }) }) refl,
      )
    ]
  ]

  pub opens-refresh_pending_commit_intent_tree :
      (w : String) → OpensNone r (refresh_pending_commit_intent_tree id w r).1
  unfolding refresh_pending_commit_intent_tree
  opens-refresh_pending_commit_intent_tree w = elim (Option-cases (assignment r id)) [
    | inl missing ↦ ground arith
    | inr (a, found) ↦ elim (Option-cases (awaiting a)) [
      | inl unaccepted ↦ ground arith
      | inr (e, accepted) ↦ ground (
        arith,
        open_count-put r id a found
            (record a {
              acceptance =
                  some (record e { pending_commit = record e.pending_commit { tree = w } });
            })
            refl,
      )
    ]
  ]

  pub opens-commit_assignment : (w : CommitEvidence) → OpensNone r (commit_assignment id w r).1
  unfolding commit_assignment invalidate_final_acceptance
  opens-commit_assignment w = elim (Option-cases (assignment r id)) [
    | inl missing ↦ ground arith
    | inr (a, found) ↦ elim (Option-cases (awaiting a)) [
      | inl unaccepted ↦ ground arith
      | inr (e, accepted) ↦ ground (
        arith,
        open_count-put r id a found
            (record a { commit = some w; status = AssignmentStatus.committed }) refl,
      )
    ]
  ]

  pub opens-record_reconciled_commit :
      (w : CommitEvidence) → OpensNone r (record_reconciled_commit id w r).1
  unfolding record_reconciled_commit
  opens-record_reconciled_commit w = elim (Option-cases (assignment r id)) [
    | inl missing ↦ ground arith
    | inr (a, found) ↦ elim (Option-cases (awaiting a)) [
      | inl unaccepted ↦ ground arith
      | inr (e, accepted) ↦ ground (
        arith,
        open_count-put r id a found
            (record a { reconciled_commits = a.reconciled_commits ++ w ∷ [] }) refl,
      )
    ]
  ]

  pub opens-reopen_assignment : (w : EvidenceRef) → OpensNone r (reopen_assignment id w r).1
  unfolding reopen_assignment reopen reopened invalidate_final_acceptance awaiting
  opens-reopen_assignment w = elim (Option-cases (assignment r id)) [
    | inl missing ↦ ground arith
    | inr (a, found) ↦ elim (Option-cases a.acceptance) [
      | inl unaccepted ↦ ground arith
      | inr (e, accepted) ↦ ground (arith, open_count-put r id a found (reopened e a) refl)
    ]
  ]

  pub opens-record_task_review : (w : TaskReviewRecord) → OpensNone r (record_task_review id w r).1
  unfolding record_task_review active_assignment
  opens-record_task_review w = elim (Option-cases (assignment r id)) [
    | inl missing ↦ ground arith
    | inr (a, found) ↦ ground (
      arith,
      open_count-put r id a found
          (record a { task_reviews = a.task_reviews ++ w ∷ []; pending_task_review_disputes = [] })
          refl,
    )
  ]

  pub opens-record_task_review_dispute :
      (w : TaskReviewDispute) → OpensNone r (record_task_review_dispute id w r).1
  unfolding record_task_review_dispute active_assignment
  opens-record_task_review_dispute w = elim (Option-cases (assignment r id)) [
    | inl missing ↦ ground arith
    | inr (a, found) ↦ ground (
      arith,
      open_count-put r id a found
          (record a { pending_task_review_disputes = a.pending_task_review_disputes ++ w ∷ [] })
          refl,
    )
  ]

  pub opens-end_explorer_episode : (w : String) → OpensNone r (end_explorer_episode id w r).1
  unfolding end_explorer_episode
  opens-end_explorer_episode w = elim (Option-cases (assignment r id)) [
    | inl missing ↦ ground arith
    | inr (a, found) ↦ ground (
      arith,
      open_count-put r id a found
          (record a {
            counters = record a.counters {
              explorer = insert w 0 a.counters.explorer;
              explorer_cycle = renew w a.counters.explorer_cycle;
            };
          })
          refl,
    )
  ]

  pub opens-begin_brief_refinement : OpensNone r (begin_brief_refinement id r).1
  unfolding begin_brief_refinement reopen reopened invalidate_final_acceptance
  opens-begin_brief_refinement = elim (Option-cases (assignment r id)) [
    | inl missing ↦ ground arith
    | inr (a, found) ↦ elim (Option-cases a.acceptance) [
      | inl unaccepted ↦ ground arith
      | inr (e, accepted) ↦ ground (arith, open_count-put r id a found (reopened e a) refl)
    ]
  ]

  pub opens-outcome :
      (o : OperationId) (w : AttemptOutcome) (t : String)
      → OpensNone r (record_assignment_attempt_outcome id o w t r).1
  unfolding record_assignment_attempt_outcome assignment_for_attempt_outcome
  opens-outcome o w t = elim (Option-cases (assignment r id)) [
    | inl missing ↦ ground arith
    | inr (a, found) ↦ elim (Result-cases (record_attempt_outcome w t (Assignment.operation a o))) [
      | inl (f, fails) ↦ ground arith
      | inr (o', set) ↦ ground (arith, open_count-put r id a found (put_operation a o') refl)
    ]
  ]

  pub opens-start_attempt :
      (a : Assignment) (o : Operation)
      → assignment r id ≡ some a
      → OpensNone r (store_attempt r (start_attempt a o)).1
  unfolding start_attempt
  opens-start_attempt a o found = ground (
    arith,
    open_count-put r id a found (put_operation a (retry o).1) refl (λ h. h),
    open_count-put r id a found
        (record (put_operation a (first_attempt a.counters o).1) {
          counters = count_cycle a.counters o.counter o.episode;
        })
        refl (λ h. h),
  )

pub opens-reset :
    (p : LimitPause) (r : Run) {r' : Run} → reset_limit_pause p r ≡ ok r' → OpensNone r r'
unfolding reset_limit_pause reset_technical reset_assignment_cycle
opens-reset p r resets = elim (Option-cases (assignment r p.assignment_id)) [
  | inl missing ↦ ground arith
  | inr (a, found) ↦ elim (Option-cases (Assignment.operation a p.operation_id)) [
    | inl unknown ↦ elim (Option-cases (reset_cycle a.counters p.counter p.episode)) [
      | inl unset ↦ ground arith
      | inr (c, set) ↦ ground (
        arith,
        open_count-put r p.assignment_id a found (record a { counters = c }) refl (λ h. h),
      )
    ]
    | inr (o, stored) ↦ elim (Option-cases (reset_cycle a.counters p.counter p.episode)) [
      | inl unset ↦ ground (
        arith,
        open_count-put r p.assignment_id a found (put_operation a (reopen_window o)) refl (λ h. h),
      )
      | inr (c, set) ↦ ground (
        arith,
        open_count-put r p.assignment_id a found (record a { counters = c }) refl (λ h. h),
        open_count-put r p.assignment_id a found (put_operation a (reopen_window o)) refl (λ h. h),
      )
    ]
  ]
]
