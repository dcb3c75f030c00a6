-- ===== src/Run/Step/StopReasons.antt =====
-- internal/flows/impl_loop/state/state.go: the reasons that a run carries for its status.
use Prim.Native.String.{◌∷◌}
use stepan.Base.{
  String, Bool, true, false, ◌≡◌, ◌≢◌, List, [], ◌∷◌, Option, some, Failure, ok, Bool-cases,
  Option-cases, inl, inr, arith, refl, is_blank, text_append, Result-cases, not, ◌==◌, ◌!=◌, ◌||◌,
  string_eq,
}
use stepan.Status.{RunStatus, run_status_eq}
use stepan.Evidence.{Task}
use stepan.Assignment.{Assignment, start_attempt}
use stepan.Operation.{Operation}
use stepan.Counters.{LimitPause, limit_pause_valid}
use stepan.Run.{Run, invalidate_final_acceptance}
use stepan.Run.Tasks.{append_tasks, complete_initial_task_extraction}
use stepan.Run.Validate.{lifecycle_valid, succeed}
use stepan.Run.Step.{Command, execute}
use stepan.Run.Attempts.{
  limit_reason, store_attempt, start_run_attempt, add_run_operation, supersede_run_operation,
  record_assignment_attempt_outcome, record_run_attempt_outcome, add_run_result,
}
use stepan.Run.Attempts.Rules.{
  Ends, paused_by, Ends-start_assignment_attempt, Ends-start_assignment_attempt_with_limits,
  Ends-start_run_attempt_of, Ends-start_run_attempt_with_limits,
}
use stepan.Run.Lifecycle.{
  reset_limit_pause, reset_technical, reset_assignment_cycle, activate, end_explorer_episode,
  end_run_explorer_episode, pause, pause_execution_blocked, update_paused_execution_block, resume,
  close,
}
use stepan.Run.Acceptance.{
  reopen, begin_brief_refinement, accept_assignment, set_pending_commit_intent,
  refresh_pending_commit_intent_tree, commit_assignment, record_reconciled_commit,
  reopen_assignment, observe_code_state, refresh_acceptance_inputs,
}
use stepan.Run.Baseline.{
  refresh_initial_baseline, record_initial_baseline_pass, refresh_initial_baseline_pass,
}
use stepan.Run.Work.{
  append_final_finding_tasks, start_assignment, add_brief_version, add_operation, add_result,
  record_task_review, record_task_review_dispute,
}
use stepan.Run.Final.{record_final_acceptance}

limit_reason_not_blank : (p : LimitPause) → is_blank (limit_reason p) ≡ false
unfolding limit_reason is_blank text_append
limit_reason_not_blank p = elim (Bool-cases p.technical) [ inl t ↦ rw t refl | inr f ↦ rw f refl ]

blocked_reason_not_blank : (s : String) → is_blank (text_append "execution_blocked: " s) ≡ false
unfolding is_blank text_append
blocked_reason_not_blank s = refl

lifecycle_valid-append_tasks :
    (tasks : List Task) (r : Run) → lifecycle_valid (append_tasks tasks r) ≡ lifecycle_valid r
unfolding append_tasks lifecycle_valid
lifecycle_valid-append_tasks [] r = refl
lifecycle_valid-append_tasks (t ∷ rest) r = lifecycle_valid-append_tasks rest _

lifecycle_valid-invalidate :
    (r : Run) → lifecycle_valid (invalidate_final_acceptance r) ≡ lifecycle_valid r
unfolding invalidate_final_acceptance lifecycle_valid
lifecycle_valid-invalidate r = ground arith

abbrev Kept : Run → Option Failure → Run → Type 0
Kept r _ r' = lifecycle_valid r' ≡ true

module _ (r : Run) (h : lifecycle_valid r ≡ true) where
  Kept-refused : (e : Failure) → e ≢ Failure.limit_exceeded → Kept r (some e) r
  Kept-refused e n = h

  Kept-paused :
      (p : LimitPause)
      → r.status ≡ RunStatus.active
      → limit_pause_valid p ≡ true
      → Kept r (some Failure.limit_exceeded) (paused_by p r)
  unfolding lifecycle_valid
  Kept-paused p active v = ground (arith, limit_reason_not_blank p)

  Kept-start_attempt :
      (a : Assignment) (o : Operation) → Ends (Kept r) (store_attempt r (start_attempt a o))
  unfolding start_attempt lifecycle_valid
  Kept-start_attempt a o = record { at = ground arith }

  Kept-start_run_attempt : (o : Operation) → Ends (Kept r) (start_run_attempt o r)
  unfolding start_run_attempt lifecycle_valid
  Kept-start_run_attempt o = record { at = ground arith }

Kept-append :
    (r : Run)
    → lifecycle_valid r ≡ true
    → (tasks : List Task) → lifecycle_valid (append_final_finding_tasks tasks r).1 ≡ true
unfolding append_final_finding_tasks
Kept-append r h tasks =
    ground (
      arith,
      lifecycle_valid-invalidate (append_tasks tasks r),
      lifecycle_valid-append_tasks tasks r,
    )

or_false : (a b : Bool) → (a || b) ≡ false → b ≡ false
or_false false b h = h
or_false true b h = cc

lifecycle_valid-close :
    (reason : String) (r : Run)
    → lifecycle_valid r ≡ true
    → lifecycle_valid (close reason r).1 ≡ true
unfolding close lifecycle_valid
lifecycle_valid-close reason r h =
    let refuses = not (r.status == RunStatus.active || r.status == RunStatus.paused) in
    elim (Bool-cases (refuses || is_blank reason)) [
      | inl t ↦ rw (t, close) h
      | inr f ↦ rw (f, close) (rw (or_false refuses (is_blank reason) f) refl)
    ]

close_reason-reset :
    (p : LimitPause) (r : Run) {r' : Run}
    → reset_limit_pause p r ≡ ok r'
    → r'.close_reason ≡ r.close_reason
unfolding reset_limit_pause reset_technical reset_assignment_cycle
close_reason-reset p r h = ground arith

-- A paused run has no reason to be closed.
paused_not_closed :
    (r : Run)
    → lifecycle_valid r ≡ true
    → (r.status != RunStatus.paused) ≡ false
    → (r.close_reason == "") ≡ true
unfolding lifecycle_valid
paused_not_closed r h e = ground arith

lifecycle_valid-activate :
    (r : Run) → (r.close_reason == "") ≡ true → lifecycle_valid (activate r) ≡ true
unfolding lifecycle_valid
lifecycle_valid-activate r h = rw h refl

lifecycle_valid-resume : (r : Run) → lifecycle_valid r ≡ true → lifecycle_valid (resume r).1 ≡ true
unfolding resume
lifecycle_valid-resume r h = elim (Bool-cases (r.status != RunStatus.paused)) [
  | inl stopped ↦ rw (stopped, resume) h
  | inr paused ↦ elim (Option-cases r.limit_pause) [
    | inl e ↦ rw (paused, e, resume) (lifecycle_valid-activate r (paused_not_closed r h paused))
    | inr (p, e) ↦ elim (Result-cases (reset_limit_pause p r)) [
      | inl (f, fails) ↦ rw (paused, e, fails, resume) h
      | inr (r', resets) ↦
          rw (paused, e, resets, resume)
            (lifecycle_valid-activate r'
              (rw (close_reason-reset p r resets) (paused_not_closed r h paused)))
    ]
  ]
]

-- A call on a run that shows the stop reasons of its status, and no other, ends, with or without a
-- failure, with a run that does.
pub execute-lifecycle_valid :
    (c : Command) (r : Run) → lifecycle_valid r ≡ true → lifecycle_valid (execute c r).1 ≡ true
unfolding lifecycle_valid execute invalidate_final_acceptance refresh_initial_baseline reopen
    complete_initial_task_extraction start_assignment record_initial_baseline_pass
    refresh_initial_baseline_pass add_brief_version begin_brief_refinement add_operation add_result
    record_task_review record_task_review_dispute accept_assignment set_pending_commit_intent
    refresh_pending_commit_intent_tree commit_assignment record_reconciled_commit reopen_assignment
    observe_code_state refresh_acceptance_inputs add_run_operation supersede_run_operation
    record_assignment_attempt_outcome record_run_attempt_outcome end_explorer_episode
    end_run_explorer_episode add_run_result record_final_acceptance pause pause_execution_blocked
    update_paused_execution_block succeed
execute-lifecycle_valid (Command.start_assignment_attempt x y) r h =
    (Ends-start_assignment_attempt (Kept r) r (Kept-refused r h) (Kept-paused r h) x y
      (λ a _ o _. Kept-start_attempt r h a o)).at
execute-lifecycle_valid (Command.start_assignment_attempt_with_limits x y z) r h =
    (Ends-start_assignment_attempt_with_limits (Kept r) r (Kept-refused r h) (Kept-paused r h) x y
      (λ a _ o _. Kept-start_attempt r h a o) z).at
execute-lifecycle_valid (Command.start_run_attempt x) r h =
    (Ends-start_run_attempt_of (Kept r) r (Kept-refused r h) (Kept-paused r h) x
      (λ o _. Kept-start_run_attempt r h o)).at
execute-lifecycle_valid (Command.start_run_attempt_with_limits x y) r h =
    (Ends-start_run_attempt_with_limits (Kept r) r (Kept-refused r h) (Kept-paused r h) x
      (λ o _. Kept-start_run_attempt r h o) y).at
execute-lifecycle_valid (Command.pause w) r h = ground arith
execute-lifecycle_valid (Command.pause_execution_blocked w) r h =
    ground (arith, blocked_reason_not_blank w.blocked_action)
execute-lifecycle_valid (Command.update_paused_execution_block w) r h =
    ground (arith, blocked_reason_not_blank w.blocked_action)
execute-lifecycle_valid (Command.close w) r h = lifecycle_valid-close w r h
execute-lifecycle_valid Command.resume r h = lifecycle_valid-resume r h
execute-lifecycle_valid (Command.append_final_finding_tasks w) r h = Kept-append r h w
execute-lifecycle_valid _ r h = ground arith
