-- ===== src/Run/Acceptance.antt =====
-- internal/flows/impl_loop/state/state.go: acceptance of the current assignment, its commit, and
-- what reopens it.
pub mod Evidence
pub mod Commit
use stepan.Base.{
  String, Bool, true, false, ◌&&◌, ◌||◌, Option, none, some, List, [], ◌∷◌, ◌++◌, ◌==◌, ◌!=◌, not,
  string_eq, any, insert_all, is_blank, if◌then◌else◌, Failure, Result, ok, err, done,
  invalid_state, invalid_transition,
}
use stepan.Status.{TaskStatus, AssignmentStatus, assignment_status_eq}
use stepan.Evidence.{
  TaskId, AssignmentId, EvidenceRef, CommitIntent, CommitEvidence, evidence_eq, evidence_valid,
  basis_eq, intent_valid, commit_valid, matches_intent,
}
use stepan.Assignment
use stepan.Assignment.{AcceptanceEvidence, Assignment}
use stepan.Run.{
  Run, Returns, fail, is_active, current_basis, assignment, put_assignment,
  invalidate_final_acceptance,
}
use stepan.Run.Work.{active_assignment}

-- Each task of the assignment is given one status.
abbrev pub mark_tasks : Assignment → TaskStatus → Run → Run
mark_tasks a s r = record r { leaf_status = insert_all a.task_ids s r.leaf_status }

unfoldable pub accept_assignment : AssignmentId → AcceptanceEvidence → Run → Returns (Unit {0})
accept_assignment id e r = elim (active_assignment r id) [
  | err f ↦ fail f r
  | ok a ↦ elim (Assignment.accept a e) [
    | err f ↦ fail f r
    | ok _ ↦
        if e.basis != current_basis r || e.state != r.current_state then fail invalid_state r else (
          done,
          mark_tasks a TaskStatus.accepted_awaiting_commit (
              put_assignment
                (record a {
                  acceptance = some e;
                  status = AssignmentStatus.accepted_awaiting_commit;
                })
                r),
        )
  ]
]

-- `reopenAssignment`: archives the acceptance, and the leaves are pending again. It is called only
-- where there is an acceptance.
unfoldable pub reopened : AcceptanceEvidence → Assignment → Assignment
reopened e a = record a {
  acceptance_history = a.acceptance_history ++ e ∷ [];
  acceptance = none;
  status = AssignmentStatus.active;
}

unfoldable pub reopen : AcceptanceEvidence → Assignment → Run → Run
unfolding reopened
reopen e a r =
    invalidate_final_acceptance (mark_tasks a TaskStatus.pending (put_assignment (reopened e a) r))

unfoldable pub begin_brief_refinement : AssignmentId → Run → Returns (Unit {0})
begin_brief_refinement id r =
    if not (is_active r) then fail invalid_transition r else elim (assignment r id) [
      | none ↦ fail invalid_state r
      | some a ↦ elim a.status [
        | AssignmentStatus.active ↦ (done, r)
        | AssignmentStatus.accepted_awaiting_commit ↦ elim a.acceptance [
          | none ↦ fail invalid_state r
          | some e ↦ (done, reopen e a r)
        ]
        | _ ↦ fail invalid_transition r
      ]
    ]

-- The acceptance of an assignment that awaits its commit.
unfoldable pub awaiting : Assignment → Option AcceptanceEvidence
awaiting a = if a.status == AssignmentStatus.accepted_awaiting_commit then a.acceptance else none

unfoldable pub set_pending_commit_intent : AssignmentId → CommitIntent → Run → Returns (Unit {0})
set_pending_commit_intent id intent r =
    if not (is_active r) then fail invalid_transition r else elim (assignment r id) [
      | none ↦ fail invalid_state r
      | some a ↦ elim (awaiting a) [
        | none ↦ fail invalid_transition r
        | some e ↦ if not (intent_valid intent) then fail invalid_transition r else (
          done,
          put_assignment (record a { acceptance = some (record e { pending_commit = intent }) }) r,
        )
      ]
    ]

unfoldable pub refresh_pending_commit_intent_tree : AssignmentId → String → Run → Returns (Unit {0})
refresh_pending_commit_intent_tree id tree r =
    if not (is_active r) then fail invalid_transition r else elim (assignment r id) [
      | none ↦ fail invalid_transition r
      | some a ↦ if is_blank tree then fail invalid_transition r else elim (awaiting a) [
        | none ↦ fail invalid_transition r
        | some e ↦ if not (intent_valid e.pending_commit) then fail invalid_transition r else (
          done,
          put_assignment
              (record a {
                acceptance =
                    some (record e { pending_commit = record e.pending_commit { tree = tree } });
              })
              r,
        )
      ]
    ]

-- The commit evidence is that of the accepted state, on the current state and basis.
unfoldable pub commit_matches : Run → AcceptanceEvidence → CommitEvidence → Bool
commit_matches r e c =
    commit_valid c
    && matches_intent c e.pending_commit
    && c.state == e.state
    && c.state == r.current_state
    && c.basis == e.basis
    && c.basis == current_basis r

unfoldable pub commit_assignment : AssignmentId → CommitEvidence → Run → Returns (Unit {0})
commit_assignment id c r =
    if not (is_active r) then fail invalid_transition r else elim (assignment r id) [
      | none ↦ fail invalid_state r
      | some a ↦ elim (awaiting a) [
        | none ↦ fail invalid_transition r
        | some e ↦ if not (commit_matches r e c) then fail invalid_transition r else (
          done,
          mark_tasks a TaskStatus.complete (
              invalidate_final_acceptance
                (record (put_assignment
                  (record a { commit = some c; status = AssignmentStatus.committed }) r) {
                    current_state = c.state;
                  })),
        )
      ]
    ]

unfoldable pub record_reconciled_commit : AssignmentId → CommitEvidence → Run → Returns (Unit {0})
record_reconciled_commit id c r =
    if not (is_active r) then fail invalid_transition r else elim (assignment r id) [
      | none ↦ fail invalid_state r
      | some a ↦ elim (awaiting a) [
        | none ↦ fail invalid_transition r
        | some e ↦
            if not (commit_valid c) || c.basis != current_basis r
            then fail invalid_transition r
            else if any (λ p. p.commit_id == c.commit_id) a.reconciled_commits
            then fail invalid_state r
            else (
              done,
              put_assignment (record a { reconciled_commits = a.reconciled_commits ++ c ∷ [] }) r,
            )
      ]
    ]

unfoldable pub reopen_assignment : AssignmentId → EvidenceRef → Run → Returns (Unit {0})
reopen_assignment id observed r =
    if not (is_active r) then fail invalid_transition r else elim (assignment r id) [
      | none ↦ fail invalid_state r
      | some a ↦ elim (awaiting a) [
        | none ↦ fail invalid_transition r
        | some e ↦
            if not (evidence_valid observed)
            then fail invalid_transition r
            else if e.basis == current_basis r && e.state == observed
            then fail invalid_transition r
            else (done, reopen e a (record r { current_state = observed }))
      ]
    ]

-- The loops over all assignments that reopen those whose acceptance passes the test.
abbrev pub reopen_if : (AcceptanceEvidence → Bool) → Assignment → Assignment
reopen_if stale a = elim (awaiting a) [ none ↦ a | some e ↦ if stale e then reopened e a else a ]

unfoldable pub reopen_each : (AcceptanceEvidence → Bool) → List Assignment → List Assignment
unfolding reopened
reopen_each stale [] = []
reopen_each stale (a ∷ rest) = reopen_if stale a ∷ reopen_each stale rest

-- The leaves that those loops return to pending.
abbrev pub reopen_tasks :
    (AcceptanceEvidence → Bool)
    → Assignment
    → List (TaskId × TaskStatus)
    → List (TaskId × TaskStatus)
reopen_tasks stale a leaves = elim (awaiting a) [
  | none ↦ leaves
  | some e ↦ if stale e then insert_all a.task_ids TaskStatus.pending leaves else leaves
]

unfoldable pub reopen_leaves :
    (AcceptanceEvidence → Bool)
    → List Assignment
    → List (TaskId × TaskStatus)
    → List (TaskId × TaskStatus)
reopen_leaves stale [] leaves = leaves
reopen_leaves stale (a ∷ rest) leaves = reopen_leaves stale rest (reopen_tasks stale a leaves)

abbrev pub reopen_all : (AcceptanceEvidence → Bool) → Run → Run
reopen_all stale r = record r {
  assignments = reopen_each stale r.assignments;
  leaf_status = reopen_leaves stale r.assignments r.leaf_status;
}

unfoldable pub observe_code_state : EvidenceRef → Run → Returns (Unit {0})
observe_code_state state r =
    if not (is_active r)
    then fail invalid_transition r
    else if not (evidence_valid state)
    then fail invalid_state r
    else if state == r.current_state
    then (done, r)
    else (
      done,
      reopen_all (λ e. e.state != state)
          (invalidate_final_acceptance (record r { current_state = state })),
    )

unfoldable pub refresh_acceptance_inputs : EvidenceRef → EvidenceRef → Run → Returns (Unit {0})
refresh_acceptance_inputs specification configuration r =
    if not (is_active r)
    then fail invalid_transition r
    else if not (evidence_valid specification) || not (evidence_valid configuration)
    then fail invalid_state r
    else if r.identity.specification == specification && r.identity.configuration == configuration
    then (done, r)
    else (
      done,
      reopen_all (λ _. true)
          (invalidate_final_acceptance (record r {
            identity = record r.identity {
              specification = specification;
              configuration = configuration;
            };
          })),
    )
