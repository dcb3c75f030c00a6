-- ===== src/Run/Attempts/RunLimits.antt =====
-- internal/flows/impl_loop/state/state.go: an attempt of an operation of the run that is started under
-- limits is within them.
use stepan.Base.{
  ℕ, string_eq, Option, none, ◌⊎◌, inl, inr, suc, false, ◌≡◌, ◌≤◌, ◌<◌, [], some, ok, arith, refl,
  ℤ, uint64, inc, leb, length, lookup_or,
}
use stepan.Status.{CycleCounter}
use stepan.Evidence.{OperationId}
use stepan.Operation.{OperationAttempt, Operation, technical_attempts}
use stepan.Counters.{CycleLimits}
use stepan.Assignment.{retry}
use stepan.Run.{Run, Returns}
use stepan.Run.Attempts.{
  run_startable, start_run_attempt, within_run_limits, start_run_attempt_with_limits,
}
use stepan.Run.Attempts.Limits.{uint64_bound, pause_for_limit-ne-ok}

module _ (o : Operation) (l : CycleLimits) (go : Returns OperationAttempt) (r : Run)
    (new : OperationAttempt) (starts : (within_run_limits o l go r).0 ≡ ok new) where
  within_run_technical : technical_attempts o < uint64 l.technical_attempts
  unfolding within_run_limits
  within_run_technical = grind (arith, pause_for_limit-ne-ok)

  within_final_review :
      o.attempts ≡ []
      → o.counter ≡ CycleCounter.final_review
      → leb (uint64 l.final_review) r.final_review_rounds ≡ false
  unfolding within_run_limits
  within_final_review fresh final = grind (arith, pause_for_limit-ne-ok)

  within_explorer :
      o.attempts ≡ []
      → o.counter ≡ CycleCounter.explorer
      → leb (uint64 l.explorer) (lookup_or 0 o.episode r.run_explorer_counters) ≡ false
  unfolding within_run_limits
  within_explorer fresh explores = grind (arith, pause_for_limit-ne-ok)

  within_run_goes : go.0 ≡ ok new
  unfolding within_run_limits
  within_run_goes = grind (arith, pause_for_limit-ne-ok)

started_number :
    (o : Operation) (r : Run) (new : OperationAttempt)
    → (start_run_attempt o r).0 ≡ ok new
    → new.number ≡ suc (length o.attempts)
unfolding start_run_attempt retry
started_number o r new starts = ground arith

started_final :
    (o : Operation) (r : Run) (new : OperationAttempt)
    → (start_run_attempt o r).0 ≡ ok new
    → o.attempts ≡ []
    → o.counter ≡ CycleCounter.final_review
    → new.semantic_round ≡ inc r.final_review_rounds
unfolding start_run_attempt
started_final o r new starts fresh final = ground arith

started_explorer :
    (o : Operation) (r : Run) (new : OperationAttempt)
    → (start_run_attempt o r).0 ≡ ok new
    → o.attempts ≡ []
    → o.counter ≡ CycleCounter.explorer
    → new.semantic_round ≡ inc (lookup_or 0 o.episode r.run_explorer_counters)
unfolding start_run_attempt
started_explorer o r new starts fresh explores = ground arith

-- The limit of the semantic cycle of the run that an operation of the run consumes.
abbrev pub run_cycle_limit : CycleLimits → CycleCounter → Option ℤ
run_cycle_limit l CycleCounter.final_review = some l.final_review
run_cycle_limit l CycleCounter.explorer = some l.explorer
run_cycle_limit l _ = none

inc_within : (n : ℤ) (count : ℕ) → leb (uint64 n) count ≡ false → inc count ≤ uint64 n
inc_within n count under = ground (arith, uint64_bound n)

-- The two counters that have a limit.
limited_counter :
    (l : CycleLimits) (k : CycleCounter) (n : ℤ)
    → run_cycle_limit l k ≡ some n
    → ((k ≡ CycleCounter.final_review) × (l.final_review ≡ n))
      ⊎ ((k ≡ CycleCounter.explorer) × (l.explorer ≡ n))
limited_counter l CycleCounter.final_review n limited = inl (refl, cc)
limited_counter l CycleCounter.explorer n limited = inr (refl, cc)
limited_counter l _ n limited = cc

module _ (operation_id : OperationId) (l : CycleLimits) (r : Run) (new : OperationAttempt)
    (o : Operation) (stored : run_startable r operation_id ≡ ok o)
    (starts : (start_run_attempt_with_limits operation_id l r).0 ≡ ok new) where
  allowed : (within_run_limits o l (start_run_attempt o r) r).0 ≡ ok new
  unfolding start_run_attempt_with_limits
  allowed = ground arith

  goes : (start_run_attempt o r).0 ≡ ok new
  goes = within_run_goes o l (start_run_attempt o r) r new allowed

  -- An attempt that `StartRunAttemptWithLimits` starts, for an operation of the run that can be
  -- started, is the next of its operation, and the attempts in the technical window of the operation
  -- were fewer than the technical limit.
  pub start_run_with_limits_technical :
      (new.number ≡ suc (length o.attempts)) × (technical_attempts o < uint64 l.technical_attempts)
  start_run_with_limits_technical =
      (started_number o r new goes, within_run_technical o l (start_run_attempt o r) r new allowed)

  -- The first attempt that `StartRunAttemptWithLimits` starts of an operation of the run that can be
  -- started has a semantic round that does not pass the limit, if there is one, of the cycle that the
  -- operation consumes: the final review, or the exploration of its episode.
  pub start_run_with_limits_semantic :
      o.attempts ≡ []
      → (n : ℤ) → run_cycle_limit l o.counter ≡ some n
      → new.semantic_round ≤ uint64 n
  start_run_with_limits_semantic fresh n limited = elim (limited_counter l o.counter n limited) [
    | inl (final, same) ↦ rw (started_final o r new goes fresh final) (
        rw (← same) (
          inc_within l.final_review r.final_review_rounds
            (within_final_review o l (start_run_attempt o r) r new allowed fresh final)))
    | inr (explores, same) ↦ rw (started_explorer o r new goes fresh explores) (
        rw (← same) (
          inc_within l.explorer (lookup_or 0 o.episode r.run_explorer_counters)
            (within_explorer o l (start_run_attempt o r) r new allowed fresh explores)))
  ]
