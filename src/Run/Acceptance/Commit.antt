-- ===== src/Run/Acceptance/Commit.antt =====
-- internal/flows/impl_loop/state/state.go: what a successful `CommitAssignment` has checked and
-- what it leaves behind.
use stepan.Base.{
  true, ◌≡◌, none, some, done, Bool-cases, Option-cases, inl, inr, arith, if◌then◌else◌, contains,
  lookup_or-insert_all, string_eq,
}
use stepan.Status.{TaskStatus}
use stepan.Evidence.{
  TaskId, AssignmentId, CommitEvidence, evidence_beq_iff, basis_beq_iff, commit_valid,
  matches_intent,
}
use stepan.Assignment.{AcceptanceEvidence, Assignment}
use stepan.Run.{
  Run, current_basis, assignment, leaf_status_of, is_active, invalidate_final_acceptance,
}
use stepan.Run.Acceptance.{awaiting, commit_matches, commit_assignment}

-- The commit is the one that was intended for the accepted state, which is the state of the run.
pub record Matches (r : Run) (e : AcceptanceEvidence) (c : CommitEvidence) : Type 0 where
  pub valid : commit_valid c ≡ true
  pub intended : matches_intent c e.pending_commit ≡ true
  pub accepted_state : c.state ≡ e.state
  pub current_state : c.state ≡ r.current_state
  pub accepted_basis : c.basis ≡ e.basis
  pub on_current_basis : c.basis ≡ current_basis r

commit_matches-Matches :
    (r : Run) (e : AcceptanceEvidence) (c : CommitEvidence)
    → commit_matches r e c ≡ true
    → Matches r e c
unfolding commit_matches
commit_matches-Matches r e c h = record {
  valid = ground arith;
  intended = ground arith;
  accepted_state = ground (arith, evidence_beq_iff c.state e.state);
  current_state = ground (arith, evidence_beq_iff c.state r.current_state);
  accepted_basis = ground (arith, basis_beq_iff c.basis e.basis);
  on_current_basis = ground (arith, basis_beq_iff c.basis (current_basis r));
}

-- The tasks of the assignment are complete, every other task is as it was, and the run has no
-- final acceptance.
pub record Completed (r r' : Run) (a : Assignment) : Type 0 where
  pub tasks :
      (id : TaskId)
      → leaf_status_of r' id
        ≡ (if contains a.task_ids id then TaskStatus.complete else leaf_status_of r id)
  pub unaccepted : r'.final_acceptance ≡ none
  pub same_state : r'.current_state ≡ r.current_state

completed_lem :
    (r : Run) (id : AssignmentId) (c : CommitEvidence) (a : Assignment) (e : AcceptanceEvidence)
    → is_active r ≡ true
    → assignment r id ≡ some a
    → awaiting a ≡ some e
    → commit_matches r e c ≡ true
    → Completed r (commit_assignment id c r).1 a
unfolding commit_assignment invalidate_final_acceptance
completed_lem r id c a e active found accepted matches =
    let state = (commit_matches-Matches r e c matches).current_state in
    record {
      tasks = λ t. ground (
        arith,
        lookup_or-insert_all TaskStatus.unknown TaskStatus.complete a.task_ids t r.leaf_status,
      );
      unaccepted = ground arith;
      same_state = ground (arith, state);
    }

-- A commit that is accepted is the intended commit of the accepted, current state of an assignment
-- that awaits it. It completes the tasks of that assignment and no other, and it drops the final
-- acceptance.
pub commit_assignment-Completed :
    (id : AssignmentId) (c : CommitEvidence) (r : Run)
    → (commit_assignment id c r).0 ≡ done
    → (a : Assignment) × (e : AcceptanceEvidence) × (assignment r id ≡ some a)
      × (awaiting a ≡ some e)
      × Matches r e c
      × Completed r (commit_assignment id c r).1 a
unfolding commit_assignment
commit_assignment-Completed id c r h = elim (Option-cases (assignment r id)) [
  | inl missing ↦ absurd (ground arith)
  | inr (a, found) ↦ elim (Option-cases (awaiting a)) [
    | inl unaccepted ↦ absurd (ground arith)
    | inr (e, accepted) ↦ elim (Bool-cases (commit_matches r e c)) [
      | inl matches ↦ (
        a,
        e,
        found,
        accepted,
        commit_matches-Matches r e c matches,
        completed_lem r id c a e (ground arith) found accepted matches,
      )
      | inr other ↦ absurd (ground arith)
    ]
  ]
]
