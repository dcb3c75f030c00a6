-- ===== src/Run/Attempts/Limits.antt =====
-- internal/flows/impl_loop/state/state.go: an attempt that is started under limits is within them.
use stepan.Base.{
  suc, String, false, ◌≡◌, ◌≢◌, ◌≤◌, ◌<◌, [], some, ok, arith, refl, ℤ, pos, negsuc, uint64, inc,
  leb, length, lookup_or, lookup_or-insert, string_eq, eq_iff,
}
use stepan.Status.{CycleCounter}
use stepan.Evidence.{AssignmentId, OperationId}
use stepan.Operation.{OperationAttempt, Operation, technical_attempts}
use stepan.Counters.{CycleCounters, CycleLimits, LimitPause}
use stepan.Assignment.{Assignment, cycle_count, count_cycle, first_attempt, retry, start_attempt}
use stepan.Run.{Run, Returns}
use stepan.Run.Work.{active_assignment}
use stepan.Run.Attempts.{
  cycle_limit, startable, within_limits, pause_for_limit, store_attempt,
  start_assignment_attempt_with_limits,
}

-- A count goes up by one, modulo the width of the counter.
cycle_count-count_cycle :
    (c : CycleCounters) (k : CycleCounter) (episode : String) (l : CycleLimits) {n : ℤ}
    → cycle_limit l k ≡ some n
    → cycle_count (count_cycle c k episode) k episode ≡ inc (cycle_count c k episode)
unfolding cycle_count count_cycle
cycle_count-count_cycle c CycleCounter.no_counter episode l h = cc
cycle_count-count_cycle c CycleCounter.explorer episode l h = ground (
  arith,
  lookup_or-insert 0 (inc (lookup_or 0 episode c.explorer)) episode episode c.explorer,
  eq_iff episode episode,
)
cycle_count-count_cycle c CycleCounter.final_review episode l h = cc
cycle_count-count_cycle c CycleCounter.unknown episode l h = cc
cycle_count-count_cycle c _ episode l h = refl

pub uint64_bound : (n : ℤ) → uint64 n < 18446744073709551616
uint64_bound (pos n) = omega arith
uint64_bound (negsuc n) = omega arith

round_within :
    (a : Assignment) (o : Operation) (l : CycleLimits) (n : ℤ)
    → cycle_limit l o.counter ≡ some n
    → leb (uint64 n) (cycle_count a.counters o.counter o.episode) ≡ false
    → cycle_count (count_cycle a.counters o.counter o.episode) o.counter o.episode ≤ uint64 n
round_within a o l n limited under =
    rw (cycle_count-count_cycle a.counters o.counter o.episode l limited)
      (ground (arith, uint64_bound n))

pub pause_for_limit-ne-ok :
    (p : LimitPause) (r : Run) (new : OperationAttempt) → (pause_for_limit p r).0 ≢ ok new
unfolding pause_for_limit
pause_for_limit-ne-ok p r new h = ground arith

module _ (id : AssignmentId) (a : Assignment) (o : Operation) (l : CycleLimits)
    (go : Returns OperationAttempt) (r : Run) (new : OperationAttempt)
    (starts : (within_limits id a o l go r).0 ≡ ok new) where
  within_technical : technical_attempts o < uint64 l.technical_attempts
  unfolding within_limits
  within_technical = grind (arith, pause_for_limit-ne-ok)

  within_semantic :
      o.attempts ≡ []
      → (n : ℤ) → cycle_limit l o.counter ≡ some n
      → leb (uint64 n) (cycle_count a.counters o.counter o.episode) ≡ false
  unfolding within_limits
  within_semantic fresh n limited = grind (arith, pause_for_limit-ne-ok)

  within_goes : go.0 ≡ ok new
  unfolding within_limits
  within_goes = grind (arith, pause_for_limit-ne-ok)

start_attempt-Within :
    (a : Assignment) (o : Operation) (l : CycleLimits) (r : Run) (new : OperationAttempt)
    → (store_attempt r (start_attempt a o)).0 ≡ ok new
    → (new.number ≡ suc (length o.attempts))
      × (o.attempts ≡ []
          → new.semantic_round
            ≡ cycle_count (count_cycle a.counters o.counter o.episode) o.counter o.episode)
unfolding start_attempt first_attempt retry
start_attempt-Within a o l r new h = ground arith

module _ (id : AssignmentId) (operation_id : OperationId) (l : CycleLimits) (r : Run)
    (new : OperationAttempt) (a : Assignment) (o : Operation)
    (found : active_assignment r id ≡ ok a) (stored : startable a operation_id ≡ ok o)
    (starts : (start_assignment_attempt_with_limits id operation_id l r).0 ≡ ok new) where
  allowed : (within_limits id a o l (store_attempt r (start_attempt a o)) r).0 ≡ ok new
  unfolding start_assignment_attempt_with_limits
  allowed = ground arith

  goes : (store_attempt r (start_attempt a o)).0 ≡ ok new
  goes = within_goes id a o l (store_attempt r (start_attempt a o)) r new allowed

  -- An attempt that `StartAssignmentAttemptWithLimits` starts, for an operation of an active
  -- assignment, is the next of its operation, and the attempts in the technical window of the
  -- operation were fewer than the technical limit.
  pub start_with_limits_technical :
      (new.number ≡ suc (length o.attempts)) × (technical_attempts o < uint64 l.technical_attempts)
  start_with_limits_technical = (
    (start_attempt-Within a o l r new goes).0,
    within_technical id a o l (store_attempt r (start_attempt a o)) r new allowed,
  )

  -- The first attempt that `StartAssignmentAttemptWithLimits` starts of an operation of an active
  -- assignment has a semantic round that does not pass the limit, if there is one, of the cycle
  -- that the operation consumes.
  pub start_with_limits_semantic :
      o.attempts ≡ [] → (n : ℤ) → cycle_limit l o.counter ≡ some n → new.semantic_round ≤ uint64 n
  start_with_limits_semantic fresh n limited =
      rw ((start_attempt-Within a o l r new goes).1 fresh) (
        round_within a o l n limited (
          within_semantic id a o l (store_attempt r (start_attempt a o)) r new allowed fresh n
            limited))
