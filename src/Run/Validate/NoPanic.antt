-- ===== src/Run/Validate/NoPanic.antt =====
-- internal/flows/impl_loop/state/state.go: `validateAcceptance` dereferences the operation of a
-- result without a test; the tests that `Validate` makes before it rule a nil pointer out.
use stepan.Base.{
  String, Bool, true, false, ◌≡◌, ◌≢◌, List, [], ◌∷◌, some, Failure, Result, ok, err, Done,
  Option-cases, Bool-cases, done, ◌!=◌, inl, inr, arith, refl, all, find?, ◌>>=◌, ◌>>◌, panic, ◌==◌,
  string_eq, ℤ, pos,
}
use stepan.Status.{AssignmentStatus, OperationKind, assignment_status_eq}
use stepan.Evidence.{TaskId, ResultId, BriefVersion}
use stepan.Operation.{Operation, OperationResult}
use stepan.Assignment
use stepan.Assignment.{
  AcceptanceEvidence, Assignment, result_proves, checks_prove, validate_acceptance, accept,
}
use stepan.Run.{Run}
use stepan.Run.Validate.{
  Walk, first_walk, require, as_invalid, assignment_result_valid, history_valid, status_valid,
  validate_assignment, pending_current, walk_assignment, walk_assignments, brief_ids, operation_ids,
  result_ids, assign_tasks, validate,
}

module _ {A : Type 0} (p q : A → Bool) where
  all-find? : (xs : List A) (x : A) → all q xs ≡ true → find? p xs ≡ some x → q x ≡ true
  all-find? [] x h found = cc
  all-find? (y ∷ ys) x h found = ground (arith, all-find? ys x)

-- A sequence panics only where one of its parts does.
seq_plain :
    {A : Type 0} (m : Done) (k : Result A) → m ≢ err panic → k ≢ err panic → (m >> k) ≢ err panic
unfolding ◌>>=◌
seq_plain (ok _) k hm hk h = hk h
seq_plain (err e) k hm hk h = hm (cc)

require_plain : (b : Bool) → require b ≢ err panic
require_plain true h = cc
require_plain false h = cc

as_invalid_plain : (m : Done) → m ≢ err panic → as_invalid m ≢ err panic
as_invalid_plain (ok tt) h = λ e. cc
as_invalid_plain (err Failure.panic) h = λ e. h refl
as_invalid_plain (err Failure.invalid_state) h = λ e. cc
as_invalid_plain (err _) h = λ e. cc

module _ (a : Assignment) (results : all (assignment_result_valid a) a.results ≡ true) where
  result_proves_plain :
      (e : AcceptanceEvidence) (kind : OperationKind) (id : ResultId)
      → result_proves a e kind (Assignment.result a id) ≢ err panic
  unfolding result_proves Assignment.result assignment_result_valid
  result_proves_plain e kind id h = elim (Option-cases (Assignment.result a id)) [
    | inl missing ↦ ground arith
    | inr (x, found) ↦
        ground
          (arith, all-find? (λ y. y.id == id) (assignment_result_valid a) a.results x results found)
  ]

  checks_prove_plain :
      (e : AcceptanceEvidence) (ids : List ResultId) → checks_prove a e ids ≢ err panic
  unfolding checks_prove
  checks_prove_plain e [] h = cc
  checks_prove_plain e (id ∷ ids) h =
      seq_plain _ _ (result_proves_plain e OperationKind.check id) (checks_prove_plain e ids) h

  -- With valid results, the evidence of an acceptance is tested without a panic.
  pub validate_acceptance_plain :
      (e : AcceptanceEvidence) (current : Bool) → validate_acceptance a e current ≢ err panic
  unfolding validate_acceptance
  validate_acceptance_plain e current h = ground (
    arith,
    seq_plain (checks_prove a e e.check_result_ids)
        (result_proves a e OperationKind.review (Assignment.result a e.review_result_id))
        (checks_prove_plain e e.check_result_ids)
        (result_proves_plain e OperationKind.review e.review_result_id),
  )

  history_valid_plain : (es : List AcceptanceEvidence) → history_valid a es ≢ err panic
  unfolding history_valid
  history_valid_plain [] h = cc
  history_valid_plain (e ∷ es) h =
      seq_plain _ _ (as_invalid_plain _ (validate_acceptance_plain e false))
        (history_valid_plain es) h

  status_valid_plain : status_valid a ≢ err panic
  unfolding status_valid accept ◌>>=◌
  status_valid_plain h = elim (Option-cases a.acceptance) [
    | inl missing ↦ ground arith
    | inr (e, found) ↦ ground (arith, as_invalid_plain _ (validate_acceptance_plain e true))
  ]

-- A result that is not a panic.
record Calm {A : Type 0} (m : Result A) : Type 0 where
  at : m ≢ err panic

Calm-require : (b : Bool) → Calm (require b)
Calm-require b = record { at = require_plain b }

Calm-ok : {A : Type 0} (a : A) → Calm (ok a)
Calm-ok a = record { at = λ h. cc }

Calm-guard : {A : Type 0} (b : Bool) (k : Result A) → (b ≡ true → Calm k) → Calm (require b >> k)
unfolding ◌>>=◌
Calm-guard true k h = h refl
Calm-guard false k h = record { at = λ e. cc }

Calm-seq : {A : Type 0} (m : Done) (k : Result A) → Calm m → Calm k → Calm (m >> k)
unfolding ◌>>=◌
Calm-seq (ok _) k hm hk = hk
Calm-seq (err e) k hm hk = record { at = λ h. hm.at (cc) }

Calm-bind :
    {A B : Type 0} (m : Result A) (f : A → Result B)
    → Calm m
    → ((a : A) → Calm (f a))
    → Calm (m >>= f)
unfolding ◌>>=◌
Calm-bind (ok a) f hm hf = hf a
Calm-bind (err e) f hm hf = record { at = λ h. hm.at (cc) }

-- What `validateAssignment` tests after the results.
Calm-history :
    (a : Assignment)
    → all (assignment_result_valid a) a.results ≡ true
    → Calm (history_valid a a.acceptance_history)
Calm-history a results = record { at = history_valid_plain a results a.acceptance_history }

Calm-status :
    (a : Assignment) → all (assignment_result_valid a) a.results ≡ true → Calm (status_valid a)
Calm-status a results = record { at = status_valid_plain a results }

Calm-validate_assignment : (r : Run) (a : Assignment) → Calm (validate_assignment r a)
unfolding validate_assignment
Calm-validate_assignment r a = Calm-guard _ _ λ _. Calm-guard _ _ λ _. Calm-guard _ _ λ _.
    Calm-guard _ _ λ _. Calm-guard _ _ λ results. Calm-guard _ _ λ _.
      Calm-guard _ _
        λ _. Calm-seq _ _ (Calm-history a results) (Calm-guard _ _ λ _. Calm-status a results)

Calm-brief_ids :
    (seen : List String) (last : ℤ) (bs : List BriefVersion) → Calm (brief_ids seen last bs)
unfolding brief_ids
Calm-brief_ids seen last [] = Calm-ok seen
Calm-brief_ids seen last (b ∷ bs) = Calm-guard _ _ λ _. Calm-brief_ids (b.id ∷ seen) b.number bs

Calm-operation_ids : (seen : List String) (os : List Operation) → Calm (operation_ids seen os)
unfolding operation_ids
Calm-operation_ids seen [] = Calm-ok seen
Calm-operation_ids seen (o ∷ os) = Calm-guard _ _ λ _. Calm-operation_ids (o.id ∷ seen) os

Calm-result_ids : (seen : List String) (xs : List OperationResult) → Calm (result_ids seen xs)
unfolding result_ids
Calm-result_ids seen [] = Calm-ok seen
Calm-result_ids seen (x ∷ xs) = Calm-guard _ _ λ _. Calm-result_ids (x.id ∷ seen) xs

Calm-assign_tasks :
    (r : Run) (s : AssignmentStatus) (ids : List TaskId)
    (assigned : List (TaskId × AssignmentStatus))
    → Calm (assign_tasks r s ids assigned)
unfolding assign_tasks
Calm-assign_tasks r s [] assigned = Calm-ok assigned
Calm-assign_tasks r s (id ∷ ids) assigned =
    Calm-guard _ _ λ _. Calm-assign_tasks r s ids ((id, s) ∷ assigned)

Calm-after : {A : Type 0} (m : Done) (k : Result A) → Calm m → (m ≡ done → Calm k) → Calm (m >> k)
unfolding ◌>>=◌
Calm-after (ok tt) k hm hk = hk refl
Calm-after (err e) k hm hk = record { at = λ h. hm.at (cc) }

after : (m k : Done) → (m >> k) ≡ done → k ≡ done
unfolding ◌>>=◌
after (ok tt) k h = h
after (err e) k h = cc

-- A valid assignment has passed the tests on its status.
validated_status :
    (r : Run) (a : Assignment) → validate_assignment r a ≡ done → status_valid a ≡ done
unfolding validate_assignment
validated_status r a h = after _ _ (
    after _ _ (after _ _ (after _ _ (after _ _ (after _ _ (after _ _ (after _ _ (after _ _ h))))))))

-- They rule out the nil pointer that `Validate` dereferences for a pending acceptance.
Calm-pending_current :
    (r : Run) (a : Assignment) → status_valid a ≡ done → Calm (pending_current r a)
unfolding pending_current status_valid ◌>>=◌
Calm-pending_current r a valid =
    elim (Bool-cases (a.status != AssignmentStatus.accepted_awaiting_commit)) [
      | inl other ↦ rw (other, pending_current) (Calm-ok tt)
      | inr pending ↦ elim (Option-cases a.acceptance) [
        | inl missing ↦ absurd (ground arith)
        | inr (e, found) ↦ rw (pending, pending_current) (rw found (Calm-require _))
      ]
    ]

Calm-walk_assignment : (r : Run) (a : Assignment) (w : Walk) → Calm (walk_assignment r a w)
unfolding walk_assignment
Calm-walk_assignment r a w = Calm-guard _ _ λ _.
    Calm-after _ _ (Calm-validate_assignment r a) λ valid.
      Calm-seq _ _ (Calm-pending_current r a (validated_status r a valid)) (
        Calm-guard _ _ λ _. Calm-guard _ _ λ _.
          Calm-bind _ _ (Calm-brief_ids w.briefs (pos 0) a.briefs) λ _.
            Calm-bind _ _ (Calm-operation_ids w.operations a.operations) λ _.
              Calm-bind _ _ (Calm-result_ids w.results a.results) λ _.
                Calm-bind _ _ (Calm-assign_tasks r a.status a.task_ids w.assigned) λ _. Calm-ok _)

Calm-walk_assignments :
    (r : Run) (work : List Assignment) (w : Walk) → Calm (walk_assignments r work w)
unfolding walk_assignments
Calm-walk_assignments r [] w = Calm-ok w
Calm-walk_assignments r (a ∷ rest) w =
    Calm-bind _ _ (Calm-walk_assignment r a w) (Calm-walk_assignments r rest)

Calm-validate : (r : Run) → Calm (validate r)
unfolding validate
Calm-validate r = Calm-guard _ _ λ _. Calm-guard _ _ λ _. Calm-guard _ _ λ _. Calm-guard _ _ λ _.
    Calm-bind _ _ (Calm-walk_assignments r r.assignments (first_walk r))
      λ _. Calm-guard _ _ λ _. Calm-guard _ _ λ _. Calm-require _

-- `Validate` dereferences no nil pointer, on any run.
pub validate-ne-panic : (r : Run) → validate r ≢ err panic
validate-ne-panic r = (Calm-validate r).at
