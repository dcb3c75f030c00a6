-- ===== src/Run/Lifecycle/Continues.antt =====
-- internal/flows/impl_loop/state/state.go: a limit pause can be continued.
use stepan.Base.{
  String, Bool, true, false, ◌≡◌, ◌≢◌, Failure, none, some, ok, err, done, limit_exceeded, List, [],
  ◌∷◌, find?, Bool-cases, Option-cases, Result-cases, inl, inr, arith, refl, not, ◌==◌, leb, uint64,
  is_empty, string_eq, eq→≡, eq_iff, ◌⊎◌, ◌||◌, ℤ,
}
use stepan.Status.{RunStatus, AssignmentStatus, CycleCounter, cycle_counter_eq}
use stepan.Evidence.{AssignmentId, OperationId}
use stepan.Operation.{Operation, OperationAttempt, technical_attempts}
use stepan.Counters.{CycleLimits, LimitPause, limit_pause_valid, limits_valid}
use stepan.Assignment
use stepan.Assignment.{Assignment, start_attempt, has_result_for_operation, cycle_count}
use stepan.Run.{Run, assignment}
use stepan.Run.Work.{active_assignment}
use stepan.Run.Attempts.{
  cycle_limit, startable, within_limits, pause_for_limit, store_attempt,
  start_assignment_attempt_with_limits,
}
use stepan.Run.Attempts.Rules.{paused_by, active_assignment_plain, startable_plain}
use stepan.Run.Lifecycle.{
  reset_cycle, reset_technical, reset_assignment_cycle, reset_limit_pause, resume,
}

-- The pause that a start of the operation may end with.
record Stops (id : AssignmentId) (o : Operation) (p : LimitPause) : Type 0 where
  valid : limit_pause_valid p ≡ true
  here : p.assignment_id ≡ id
  cause :
      ((p.technical ≡ true) × (p.operation_id ≡ o.id))
      ⊎ ((p.technical ≡ false) × (l : CycleLimits) × (n : ℤ) × (cycle_limit l p.counter ≡ some n))

startable-stored :
    (a : Assignment) (operation_id : OperationId) (o : Operation)
    → startable a operation_id ≡ ok o
    → (Assignment.operation a operation_id ≡ some o)
      × (has_result_for_operation a operation_id ≡ false)
unfolding startable
startable-stored a operation_id o h = ground arith

find?-holds : {A : Type 0} (p : A → Bool) (xs : List A) (x : A) → find? p xs ≡ some x → p x ≡ true
find?-holds p [] x h = cc
find?-holds p (y ∷ ys) x h = ground (arith, find?-holds p ys x)

operation-id :
    (a : Assignment) (id : OperationId) (o : Operation)
    → Assignment.operation a id ≡ some o
    → o.id ≡ id
unfolding Assignment.operation
operation-id a id o h = eq→≡ o.id id (find?-holds (λ p. p.id == id) a.operations o h)

active_assignment-found :
    (r : Run) (id : AssignmentId) (a : Assignment)
    → active_assignment r id ≡ ok a
    → (assignment r id ≡ some a) × (a.status ≡ AssignmentStatus.active)
unfolding active_assignment
active_assignment-found r id a h = ground arith

reset_cycle-some :
    (a : Assignment) (k : CycleCounter) (episode : String) (l : CycleLimits) (n : ℤ)
    → cycle_limit l k ≡ some n
    → reset_cycle a.counters k episode ≢ none
unfolding reset_cycle
reset_cycle-some a k episode l n h = ground arith

start_attempt-ne-limit :
    (a : Assignment) (o : Operation) (r : Run)
    → (store_attempt r (start_attempt a o)).0 ≢ err limit_exceeded
unfolding start_attempt
start_attempt-ne-limit a o r = ground arith

pause_for_limit-paused :
    {A : Type 0} (p : LimitPause) (r : Run)
    → (pause_for_limit {A = A} p r).0 ≡ err limit_exceeded
    → (limit_pause_valid p ≡ true) × ((pause_for_limit {A = A} p r).1 ≡ paused_by p r)
unfolding pause_for_limit
pause_for_limit-paused p r h = ground arith

within_limits-Stops :
    (id : AssignmentId) (a : Assignment) (o : Operation) (l : CycleLimits) (r : Run)
    → let x = within_limits id a o l (store_attempt r (start_attempt a o)) r in
      x.0 ≡ err limit_exceeded → (p : LimitPause) × Stops id o p × (x.1 ≡ paused_by p r)
unfolding within_limits
within_limits-Stops id a o l r h =
    elim (Bool-cases (leb (uint64 l.technical_attempts) (technical_attempts o))) [
      | inl spent ↦
          let p : LimitPause = record {
            counter = o.counter;
            assignment_id = id;
            operation_id = o.id;
            episode = "";
            technical = true;
          } in
          let stops = pause_for_limit-paused {A = OperationAttempt} p r (ground arith) in
          (p, record { valid = stops.0; here = refl; cause = inl (refl, refl) }, ground arith)
      | inr left ↦
          elim (Bool-cases (not (is_empty o.attempts) || o.counter == CycleCounter.no_counter)) [
            | inl goes ↦ absurd (ground (arith, start_attempt-ne-limit a o r))
            | inr first ↦ elim (Option-cases (cycle_limit l o.counter)) [
              | inl unlimited ↦ absurd (ground arith)
              | inr (n, limited) ↦
                  elim (Bool-cases (leb (uint64 n) (cycle_count a.counters o.counter o.episode))) [
                    | inl spent ↦
                        let p : LimitPause = record {
                          counter = o.counter;
                          assignment_id = id;
                          operation_id = o.id;
                          episode = o.episode;
                          technical = false;
                        } in
                        let stops =
                          pause_for_limit-paused {A = OperationAttempt} p r (ground arith) in
                        (
                          p,
                          record {
                            valid = stops.0;
                            here = refl;
                            cause = inr (refl, l, n, limited);
                          },
                          ground arith,
                        )
                    | inr free ↦ absurd (ground (arith, start_attempt-ne-limit a o r))
                  ]
            ]
          ]
    ]

module _ (id : AssignmentId) (a : Assignment) (o : Operation) (r : Run) (p : LimitPause)
    (named : id ≢ "") (found : assignment r id ≡ some a)
    (active : a.status ≡ AssignmentStatus.active) (stored : Assignment.operation a o.id ≡ some o)
    (unfinished : has_result_for_operation a o.id ≡ false) (stops : Stops id o p) where
  resets-technical :
      p.technical ≡ true
      → p.operation_id ≡ o.id
      → (f : Failure) → reset_limit_pause p (paused_by p r) ≢ err f
  unfolding reset_limit_pause reset_technical assignment
  resets-technical t same f h = ground (arith, stops.valid, stops.here, eq_iff id "")

  resets-semantic :
      p.technical ≡ false
      → (l : CycleLimits) (n : ℤ) → cycle_limit l p.counter ≡ some n
      → (f : Failure) → reset_limit_pause p (paused_by p r) ≢ err f
  unfolding reset_limit_pause reset_assignment_cycle assignment
  resets-semantic t l n limited f h =
      elim (Option-cases (reset_cycle a.counters p.counter p.episode)) [
        | inl none_set ↦ reset_cycle-some a p.counter p.episode l n limited none_set
        | inr (c, set) ↦ ground (arith, stops.valid, stops.here, eq_iff id "")
      ]

  stopped-resumes :
      ((resume (paused_by p r)).0 ≡ done) × ((resume (paused_by p r)).1.status ≡ RunStatus.active)
  unfolding resume
  stopped-resumes = elim (Result-cases (reset_limit_pause p (paused_by p r))) [
    | inl (f, fails) ↦ absurd (elim stops.cause [
      | inl (t, same) ↦ resets-technical t same f fails
      | inr (t, l, n, limited) ↦ resets-semantic t l n limited f fails
    ])
    | inr (r', resets) ↦ (ground arith, ground arith)
  ]

-- When `StartAssignmentAttemptWithLimits` fails at a limit, for an assignment with a name, the run
-- that it has paused can be continued: `Resume` succeeds on it, and leaves it active.
pub limit_pause-resumes :
    (id : AssignmentId) (operation_id : OperationId) (l : CycleLimits) (r : Run)
    → id ≢ ""
    → (start_assignment_attempt_with_limits id operation_id l r).0 ≡ err limit_exceeded
    → ((resume (start_assignment_attempt_with_limits id operation_id l r).1).0 ≡ done)
      × ((resume (start_assignment_attempt_with_limits id operation_id l r).1).1.status
          ≡ RunStatus.active)
unfolding start_assignment_attempt_with_limits
limit_pause-resumes id operation_id l r named h = elim (Bool-cases (limits_valid l)) [
  | inr invalid ↦ absurd (ground arith)
  | inl valid ↦ elim (Result-cases (active_assignment r id)) [
    | inl (f, fails) ↦ absurd (ground (arith, active_assignment_plain r id))
    | inr (a, found) ↦ elim (Result-cases (startable a operation_id)) [
      | inl (f, fails) ↦ absurd (ground (arith, startable_plain a operation_id))
      | inr (o, ready) ↦
          let work = active_assignment-found r id a found in
          let stored = startable-stored a operation_id o ready in
          let same = operation-id a operation_id o stored.0 in
          let (p, stops, ends) = within_limits-Stops id a o l r (ground arith) in
          let resumes =
            stopped-resumes id a o r p named work.0 work.1 (cc (same, stored.0))
              (cc (same, stored.1)) stops in
          rw (valid, found, ready, ends) resumes
    ]
  ]
]
