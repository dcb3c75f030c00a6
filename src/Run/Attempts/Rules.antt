-- ===== src/Run/Attempts/Rules.antt =====
-- internal/flows/impl_loop/state/state.go: how a start of an attempt may end. To show something of
-- every end, show it where the run is left alone, where a limit pauses it, and where the attempt is
-- stored; the rules are the same for every property of the end.
use stepan.Base.{
  Bool, true, false, ◌≡◌, ◌≢◌, Option, none, some, Failure, Result, ok, err, Bool-cases,
  Option-cases, if◌then◌else◌, inl, inr, arith, refl, limit_exceeded, invalid_state,
  invalid_transition, not, ap,
}
use stepan.Status.{RunStatus}
use stepan.Evidence.{AssignmentId, OperationId}
use stepan.Operation.{Operation, OperationAttempt}
use stepan.Counters.{CycleLimits, LimitPause, limits_valid, limit_pause_valid}
use stepan.Assignment.{Assignment, start_attempt}
use stepan.Run.{Run, Returns, given, is_active}
use stepan.Run.Work.{active_assignment}
use stepan.Run.Attempts.{
  startable, store_attempt, cycle_limit, limit_reason, pause_for_limit, within_limits,
  within_run_limits, run_startable, start_run_attempt, start_assignment_attempt,
  start_assignment_attempt_with_limits, start_run_attempt_of, start_run_attempt_with_limits,
}

-- The failure of a result, if it is one.
abbrev pub failure : {A : Type 0} → Result A → Option Failure
failure (ok _) = none
failure (err e) = some e

abbrev pub paused_by : LimitPause → Run → Run
paused_by p r = record r {
  status = RunStatus.paused;
  pause_reason = limit_reason p;
  limit_pause = some p;
}

-- The failure and the run that a call ends with have the property `Q`.
pub record Ends {A : Type 0} (Q : Option Failure → Run → Type 0) (x : Returns A) : Type 0 where
  pub at : Q (failure x.0) x.1

pub active_assignment_plain :
    (r : Run) (id : AssignmentId) → active_assignment r id ≢ err limit_exceeded
unfolding active_assignment
active_assignment_plain r id h = ground arith

pub startable_plain : (a : Assignment) (id : OperationId) → startable a id ≢ err limit_exceeded
unfolding startable
startable_plain a id h = ground arith

run_startable_plain : (r : Run) (id : OperationId) → run_startable r id ≢ err limit_exceeded
unfolding run_startable
run_startable_plain r id h = ground arith

module _ (Q : Option Failure → Run → Type 0) (r : Run)
    (refused : (e : Failure) → e ≢ limit_exceeded → Q (some e) r)
    (paused : (p : LimitPause)
      → r.status ≡ RunStatus.active
      → limit_pause_valid p ≡ true
      → Q (some limit_exceeded) (paused_by p r)) where
  Ends-fail : {A : Type 0} (e : Failure) → e ≢ limit_exceeded → Ends {A = A} Q (err e, r)
  Ends-fail e n = record { at = refused e n }

  Ends-given :
      {A B : Type 0} (m : Result A) (next : A → Returns B)
      → (m ≢ err limit_exceeded)
      → ((a : A) → m ≡ ok a → Ends Q (next a))
      → Ends Q (given m r next)
  Ends-given (err e) next plain h = Ends-fail e (λ same. plain (ap err same))
  Ends-given (ok a) next plain h = h a refl

  Ends-if :
      {A : Type 0} (b : Bool) (x y : Returns A) → Ends Q x → Ends Q y → Ends Q (if b then x else y)
  Ends-if true x y h k = h
  Ends-if false x y h k = k

  Ends-refuse : Ends {A = OperationAttempt} Q (err invalid_state, r)
  Ends-refuse = Ends-fail invalid_state (λ same. cc)

  Ends-pause_for_limit : (p : LimitPause) → Ends {A = OperationAttempt} Q (pause_for_limit p r)
  unfolding pause_for_limit
  Ends-pause_for_limit p = elim (Bool-cases (is_active r)) [
    | inl active ↦ elim (Bool-cases (limit_pause_valid p)) [
      | inl v ↦ rw (active, v) (record { at = paused p (ground arith) v })
      | inr v ↦ rw (active, v) Ends-refuse
    ]
    | inr stopped ↦ rw stopped (Ends-fail invalid_transition (λ same. cc))
  ]

  ruleset limit_rules = (Ends-if, Ends-pause_for_limit, Ends-refuse)

  module _ (id : AssignmentId) (a : Assignment) (o : Operation) (l : CycleLimits)
      (go : Returns OperationAttempt) (h : Ends Q go) where
    Ends-within_limits : Ends Q (within_limits id a o l go r)
    unfolding within_limits
    Ends-within_limits = elim (Option-cases (cycle_limit l o.counter)) [
      | inl e ↦ rw (e, within_limits) (search limit_rules)
      | inr (n, e) ↦ rw (e, within_limits) (search limit_rules)
    ]

  Ends-within_run_limits :
      (o : Operation) (l : CycleLimits) (go : Returns OperationAttempt)
      → Ends Q go
      → Ends Q (within_run_limits o l go r)
  unfolding within_run_limits
  Ends-within_run_limits o l go h = search limit_rules

  module _ (id : AssignmentId) (operation_id : OperationId)
      (stored : (a : Assignment)
        → active_assignment r id ≡ ok a
        → (o : Operation) → startable a operation_id ≡ ok o
        → Ends Q (store_attempt r (start_attempt a o))) where
    pub Ends-start_assignment_attempt : Ends Q (start_assignment_attempt id operation_id r)
    unfolding start_assignment_attempt
    Ends-start_assignment_attempt =
        Ends-given _ _ (active_assignment_plain r id)
          λ a e. Ends-given _ _ (startable_plain a operation_id) (stored a e)

    pub Ends-start_assignment_attempt_with_limits :
        (l : CycleLimits) → Ends Q (start_assignment_attempt_with_limits id operation_id l r)
    unfolding start_assignment_attempt_with_limits
    Ends-start_assignment_attempt_with_limits l = Ends-if (not (limits_valid l)) _ _ Ends-refuse (
        Ends-given _ _ (active_assignment_plain r id) λ a e.
          Ends-given _ _ (startable_plain a operation_id)
            λ o f. Ends-within_limits id a o l _ (stored a e o f))

  module _ (id : OperationId)
      (stored : (o : Operation) → run_startable r id ≡ ok o → Ends Q (start_run_attempt o r)) where
    pub Ends-start_run_attempt_of : Ends Q (start_run_attempt_of id r)
    unfolding start_run_attempt_of
    Ends-start_run_attempt_of = Ends-given _ _ (run_startable_plain r id) stored

    pub Ends-start_run_attempt_with_limits :
        (l : CycleLimits) → Ends Q (start_run_attempt_with_limits id l r)
    unfolding start_run_attempt_with_limits
    Ends-start_run_attempt_with_limits l =
        Ends-if (not (limits_valid l)) _ _ Ends-refuse (
          Ends-given _ _ (run_startable_plain r id)
            λ o e. Ends-within_run_limits o l _ (stored o e))
