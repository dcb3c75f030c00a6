-- ===== src/Run/Step/Completion.antt =====
-- internal/flows/impl_loop/state/state.go: who completes a leaf task.
use stepan.Base.{
  Bool, true, ◌≡◌, ◌≢◌, List, [], ◌∷◌, Option, some, Failure, ok, Option-cases, Result-cases, inl,
  inr, arith, refl, ◌!=◌, lookup_or, insert_all, lookup_or-insert, lookup_or-insert_all, string_eq,
}
use stepan.Status.{RunStatus, TaskStatus}
use stepan.Evidence.{TaskId, AssignmentId, EvidenceRef, CommitEvidence, Task, evidence_eq}
use stepan.Assignment.{Assignment, AcceptanceEvidence, start_attempt}
use stepan.Operation.{Operation}
use stepan.Counters.{LimitPause, limit_pause_valid}
use stepan.Run.{Run, assignment, leaf_status_of, invalidate_final_acceptance}
use stepan.Run.Tasks.{append_tasks, pending_leaves, complete_initial_task_extraction}
use stepan.Run.Step.{Command, execute}
use stepan.Run.Work.{
  active_assignment, append_final_finding_tasks, start_assignment, add_brief_version, add_operation,
  add_result, record_task_review, record_task_review_dispute,
}
use stepan.Run.Attempts.{
  store_attempt, start_run_attempt, add_run_operation, supersede_run_operation,
  record_assignment_attempt_outcome, record_run_attempt_outcome, add_run_result,
}
use stepan.Run.Attempts.Rules.{
  Ends, paused_by, Ends-start_assignment_attempt, Ends-start_assignment_attempt_with_limits,
  Ends-start_run_attempt_of, Ends-start_run_attempt_with_limits,
}
use stepan.Run.Lifecycle.{
  reset_limit_pause, reset_technical, reset_assignment_cycle, end_explorer_episode,
  end_run_explorer_episode, pause, pause_execution_blocked, update_paused_execution_block, resume,
  close,
}
use stepan.Run.Acceptance.{
  awaiting, reopen, reopen_tasks, reopen_leaves, begin_brief_refinement, accept_assignment,
  set_pending_commit_intent, refresh_pending_commit_intent_tree, record_reconciled_commit,
  reopen_assignment, observe_code_state, refresh_acceptance_inputs,
}
use stepan.Run.Baseline.{
  refresh_initial_baseline, record_initial_baseline_pass, refresh_initial_baseline_pass,
}
use stepan.Run.Final.{record_final_acceptance}
use stepan.Run.Validate.{succeed}

-- Every leaf that is complete afterwards was complete before.
abbrev pub CompletesNothing : Run → Run → Type 0
CompletesNothing r r' =
    (id : TaskId)
    → leaf_status_of r' id ≡ TaskStatus.complete
    → leaf_status_of r id ≡ TaskStatus.complete

module _ (id : TaskId) where
  -- Writing another status to some tasks completes nothing.
  insert_all_completes :
      (v : TaskStatus) (ks : List TaskId) (m : List (TaskId × TaskStatus))
      → v ≢ TaskStatus.complete
      → lookup_or TaskStatus.unknown id (insert_all ks v m) ≡ TaskStatus.complete
      → lookup_or TaskStatus.unknown id m ≡ TaskStatus.complete
  insert_all_completes v ks m n h =
      ground (arith, lookup_or-insert_all TaskStatus.unknown v ks id m)

  reopen_tasks_completes :
      (stale : AcceptanceEvidence → Bool) (a : Assignment) (m : List (TaskId × TaskStatus))
      → lookup_or TaskStatus.unknown id (reopen_tasks stale a m) ≡ TaskStatus.complete
      → lookup_or TaskStatus.unknown id m ≡ TaskStatus.complete
  reopen_tasks_completes stale a m h =
      ground (arith, lookup_or-insert_all TaskStatus.unknown TaskStatus.pending a.task_ids id m)

  reopen_leaves_completes :
      (stale : AcceptanceEvidence → Bool) (work : List Assignment) (m : List (TaskId × TaskStatus))
      → lookup_or TaskStatus.unknown id (reopen_leaves stale work m) ≡ TaskStatus.complete
      → lookup_or TaskStatus.unknown id m ≡ TaskStatus.complete
  unfolding reopen_leaves
  reopen_leaves_completes stale [] m h = h
  reopen_leaves_completes stale (a ∷ rest) m h =
      reopen_tasks_completes stale a m
        (reopen_leaves_completes stale rest (reopen_tasks stale a m) h)

  pending_leaves_incomplete :
      (tasks ts : List Task)
      → lookup_or TaskStatus.unknown id (pending_leaves tasks ts) ≢ TaskStatus.complete
  unfolding pending_leaves
  pending_leaves_incomplete tasks [] h = cc
  pending_leaves_incomplete tasks (t ∷ ts) h = ground (arith, pending_leaves_incomplete tasks ts)

  append_tasks_completes :
      (tasks : List Task) (r : Run)
      → leaf_status_of (append_tasks tasks r) id ≡ TaskStatus.complete
      → leaf_status_of r id ≡ TaskStatus.complete
  unfolding append_tasks
  append_tasks_completes [] r h = h
  append_tasks_completes (t ∷ ts) r h = ground (
    arith,
    append_tasks_completes ts _ h,
    lookup_or-insert TaskStatus.unknown TaskStatus.pending t.id id r.leaf_status,
  )

  invalidate_completes :
      (r : Run) → leaf_status_of (invalidate_final_acceptance r) id ≡ leaf_status_of r id
  unfolding invalidate_final_acceptance
  invalidate_completes r = ground arith

  reopen_completes :
      (e : AcceptanceEvidence) (a : Assignment) (r : Run)
      → leaf_status_of (reopen e a r) id ≡ TaskStatus.complete
      → leaf_status_of r id ≡ TaskStatus.complete
  unfolding reopen invalidate_final_acceptance
  reopen_completes e a r h =
      ground (arith, insert_all_completes TaskStatus.pending a.task_ids r.leaf_status (λ same. cc))

  reset_completes :
      (p : LimitPause) (r : Run) {r' : Run}
      → reset_limit_pause p r ≡ ok r'
      → r'.leaf_status ≡ r.leaf_status
  unfolding reset_limit_pause reset_technical reset_assignment_cycle
  reset_completes p r h = ground arith

  resume_completes :
      (r : Run)
      → leaf_status_of (resume r).1 id ≡ TaskStatus.complete
      → leaf_status_of r id ≡ TaskStatus.complete
  unfolding resume
  resume_completes r h = elim (Option-cases r.limit_pause) [
    | inl e ↦ ground arith
    | inr (p, e) ↦ elim (Result-cases (reset_limit_pause p r)) [
      | inl (f, fails) ↦ ground arith
      | inr (r', resets) ↦ ground (arith, reset_completes p r resets)
    ]
  ]

  append_completes :
      (tasks : List Task) (r : Run)
      → leaf_status_of (append_final_finding_tasks tasks r).1 id ≡ TaskStatus.complete
      → leaf_status_of r id ≡ TaskStatus.complete
  unfolding append_final_finding_tasks
  append_completes tasks r h =
      ground (arith, append_tasks_completes tasks r, invalidate_completes (append_tasks tasks r))

  extraction_completes :
      (tasks : List Task) (r : Run)
      → leaf_status_of (complete_initial_task_extraction tasks r).1 id ≡ TaskStatus.complete
      → leaf_status_of r id ≡ TaskStatus.complete
  unfolding complete_initial_task_extraction
  extraction_completes tasks r h = ground (arith, pending_leaves_incomplete tasks tasks)

  observe_completes :
      (e : EvidenceRef) (r : Run)
      → leaf_status_of (observe_code_state e r).1 id ≡ TaskStatus.complete
      → leaf_status_of r id ≡ TaskStatus.complete
  unfolding observe_code_state invalidate_final_acceptance
  observe_completes e r h =
      ground (arith, reopen_leaves_completes (λ x. x.state != e) r.assignments r.leaf_status)

  refresh_completes :
      (s c : EvidenceRef) (r : Run)
      → leaf_status_of (refresh_acceptance_inputs s c r).1 id ≡ TaskStatus.complete
      → leaf_status_of r id ≡ TaskStatus.complete
  unfolding refresh_acceptance_inputs invalidate_final_acceptance
  refresh_completes s c r h =
      ground (arith, reopen_leaves_completes (λ _. true) r.assignments r.leaf_status)

  accept_completes :
      (x : AssignmentId) (e : AcceptanceEvidence) (r : Run)
      → leaf_status_of (accept_assignment x e r).1 id ≡ TaskStatus.complete
      → leaf_status_of r id ≡ TaskStatus.complete
  unfolding accept_assignment
  accept_completes x e r h = elim (Result-cases (active_assignment r x)) [
    | inl (f, fails) ↦ ground arith
    | inr (a, found) ↦ ground (
      arith,
      insert_all_completes TaskStatus.accepted_awaiting_commit a.task_ids r.leaf_status
          (λ same. cc),
    )
  ]

  begin_completes :
      (x : AssignmentId) (r : Run)
      → leaf_status_of (begin_brief_refinement x r).1 id ≡ TaskStatus.complete
      → leaf_status_of r id ≡ TaskStatus.complete
  unfolding begin_brief_refinement
  begin_completes x r h = elim (Option-cases (assignment r x)) [
    | inl missing ↦ ground arith
    | inr (a, found) ↦ elim (Option-cases a.acceptance) [
      | inl unaccepted ↦ ground arith
      | inr (e, accepted) ↦ ground (arith, reopen_completes e a r)
    ]
  ]

  reopen_assignment_completes :
      (x : AssignmentId) (s : EvidenceRef) (r : Run)
      → leaf_status_of (reopen_assignment x s r).1 id ≡ TaskStatus.complete
      → leaf_status_of r id ≡ TaskStatus.complete
  unfolding reopen_assignment
  reopen_assignment_completes x s r h = elim (Option-cases (assignment r x)) [
    | inl missing ↦ ground arith
    | inr (a, found) ↦ elim (Option-cases (awaiting a)) [
      | inl unaccepted ↦ ground arith
      | inr (e, accepted) ↦ ground (arith, reopen_completes e a (record r { current_state = s }))
    ]
  ]

abbrev Quiet : Run → Option Failure → Run → Type 0
Quiet r _ r' = CompletesNothing r r'

module _ (r : Run) where
  Quiet-refused : (e : Failure) → e ≢ Failure.limit_exceeded → Quiet r (some e) r
  Quiet-refused e n id h = h

  Quiet-paused :
      (p : LimitPause)
      → r.status ≡ RunStatus.active
      → limit_pause_valid p ≡ true
      → Quiet r (some Failure.limit_exceeded) (paused_by p r)
  Quiet-paused p active v id h = h

  Quiet-start_attempt :
      (a : Assignment) (o : Operation) → Ends (Quiet r) (store_attempt r (start_attempt a o))
  unfolding start_attempt
  Quiet-start_attempt a o = record { at = λ id h. ground arith }

  Quiet-start_run_attempt : (o : Operation) → Ends (Quiet r) (start_run_attempt o r)
  unfolding start_run_attempt
  Quiet-start_run_attempt o = record { at = λ id h. ground arith }

-- A call other than `CommitAssignment` completes no leaf: a leaf that is complete afterwards was
-- complete before.
pub completes_only_by_commit :
    (c : Command) (r : Run)
    → ((a : AssignmentId) (e : CommitEvidence) → c ≢ Command.commit_assignment a e)
    → (id : TaskId) → leaf_status_of (execute c r).1 id ≡ TaskStatus.complete
    → leaf_status_of r id ≡ TaskStatus.complete
unfolding execute invalidate_final_acceptance refresh_initial_baseline start_assignment
    record_initial_baseline_pass refresh_initial_baseline_pass add_brief_version add_operation
    add_result record_task_review record_task_review_dispute set_pending_commit_intent
    refresh_pending_commit_intent_tree record_reconciled_commit add_run_operation
    supersede_run_operation record_assignment_attempt_outcome record_run_attempt_outcome
    end_explorer_episode end_run_explorer_episode add_run_result record_final_acceptance pause
    pause_execution_blocked update_paused_execution_block close succeed
completes_only_by_commit (Command.start_assignment_attempt x y) r n id h =
    (Ends-start_assignment_attempt (Quiet r) r (Quiet-refused r) (Quiet-paused r) x y
        (λ a _ o _. Quiet-start_attempt r a o)).at
      id h
completes_only_by_commit (Command.start_assignment_attempt_with_limits x y z) r n id h =
    (Ends-start_assignment_attempt_with_limits (Quiet r) r (Quiet-refused r) (Quiet-paused r) x y
        (λ a _ o _. Quiet-start_attempt r a o) z).at
      id h
completes_only_by_commit (Command.start_run_attempt x) r n id h =
    (Ends-start_run_attempt_of (Quiet r) r (Quiet-refused r) (Quiet-paused r) x
        (λ o _. Quiet-start_run_attempt r o)).at
      id h
completes_only_by_commit (Command.start_run_attempt_with_limits x y) r n id h =
    (Ends-start_run_attempt_with_limits (Quiet r) r (Quiet-refused r) (Quiet-paused r) x
        (λ o _. Quiet-start_run_attempt r o) y).at
      id h
completes_only_by_commit (Command.commit_assignment x y) r n id h = absurd (n x y refl)
completes_only_by_commit (Command.resume) r n id h = resume_completes id r h
completes_only_by_commit (Command.append_final_finding_tasks x) r n id h = append_completes id x r h
completes_only_by_commit (Command.complete_initial_task_extraction x) r n id h =
    extraction_completes id x r h
completes_only_by_commit (Command.observe_code_state x) r n id h = observe_completes id x r h
completes_only_by_commit (Command.refresh_acceptance_inputs x y) r n id h =
    refresh_completes id x y r h
completes_only_by_commit (Command.accept_assignment x y) r n id h = accept_completes id x y r h
completes_only_by_commit (Command.begin_brief_refinement x) r n id h = begin_completes id x r h
completes_only_by_commit (Command.reopen_assignment x y) r n id h =
    reopen_assignment_completes id x y r h
completes_only_by_commit _ r n id h = ground arith
