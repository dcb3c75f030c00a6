-- ===== src/Store/Attempts.antt =====
-- internal/flows/impl_loop/store/state.go: attempts of operations, recorded before they are
-- dispatched.
pub mod Durable
pub mod BeforeDispatch
use stepan.Base.{
  ℕ, String, Bool, true, false, ◌&&◌, ◌||◌, Option, none, some, List, [], ◌∷◌, ◌++◌, ◌==◌, ◌!=◌,
  not, string_eq, nat_eq, is_empty, get_last?, if◌then◌else◌, Failure, Result, ok, err,
  limit_exceeded, panic,
}
use stepan.Status.{RunStatus, AttemptOutcome, run_status_eq}
use stepan.Evidence.{RunId, AssignmentId, OperationId}
use stepan.Operation.{Operation, OperationAttempt}
use stepan.Counters.{CycleLimits, LimitPause}
use stepan.Assignment.{Assignment}
use stepan.Run.{Run, Returns}
use stepan.Run.Attempts.{
  start_assignment_attempt, start_assignment_attempt_with_limits, start_run_attempt_of,
  start_run_attempt_with_limits, record_assignment_attempt_outcome, record_run_attempt_outcome,
}
use stepan.Run.Validate.{Event, new_run_state_event}
use stepan.Store.Answer.{StoreError, Io}
use stepan.Store.Codec.{Codec, json_copy}
use stepan.Store.Recording.{StateStore, Recorded, resolve_pending, record_state}

-- What a call returns (the errors that are joined, the attempt and the event where they are not the
-- zero value), and what it leaves: the run of the caller and the store.
pub record Call : Type 0 where
  pub attempt : Option OperationAttempt
  pub event : Option Event
  pub failures : List StoreError
  pub caller : Run
  pub store : StateStore

abbrev pub refused : List StoreError → Run → StateStore → Call
refused xs state s = record {
  attempt = none;
  event = none;
  failures = xs;
  caller = state;
  store = s;
}

abbrev pub failures_of : Option StoreError → List StoreError
failures_of none = []
failures_of (some x) = x ∷ []

-- The clone of the run that a call works on.
abbrev pub candidate_of : Event → Result Run
candidate_of e = elim e.state [ none ↦ err panic | some r ↦ ok r ]

unfoldable pub candidate : Codec → Run → Result Run
candidate c state = elim (new_run_state_event (json_copy c) 1 state) [
  | err f ↦ err f
  | ok e ↦ candidate_of e
]

-- `Record` of the changed clone, which replaces the caller's run if an event came back.
unfoldable pub record_candidate :
    Codec → RunId → Io → Option OperationAttempt → List StoreError → Run → Run → StateStore → Call
record_candidate c id io attempt earlier changed state s =
    let x = record_state c id io changed s in
    record {
      attempt = attempt;
      event = x.0.event;
      failures = earlier ++ failures_of x.0.failure;
      caller = elim x.0.event [
        | none ↦ state
        | some e ↦ if e.sequence != 0 then changed else state
      ];
      store = x.1;
    }

abbrev pub end_outcome : Codec → RunId → Io → Run → StateStore → Returns (Unit {0}) → Call
end_outcome c id io state s (err f, _) = refused (StoreError.run_state f ∷ []) state s
end_outcome c id io state s (ok _, changed) = record_candidate c id io none [] changed state s

-- `recordAttemptOutcome`.
unfoldable pub record_outcome :
    Codec → RunId → Io → (Run → Returns (Unit {0})) → Run → StateStore → Call
record_outcome c id io change state s = elim (candidate c state) [
  | err f ↦ refused (StoreError.run_state f ∷ []) state s
  | ok r ↦ end_outcome c id io state s (change r)
]

abbrev pub end_start : Codec → RunId → Io → Run → StateStore → Returns OperationAttempt → Call
end_start c id io state s (err f, _) = refused (StoreError.run_state f ∷ []) state s
end_start c id io state s (ok a, changed) = record_candidate c id io (some a) [] changed state s

-- The rest of `recordAttemptStart`, with nothing pending.
unfoldable pub start_new :
    Codec → RunId → Io → (Run → Returns OperationAttempt) → Run → StateStore → Call
start_new c id io start state s = elim (candidate c state) [
  | err f ↦ refused (StoreError.run_state f ∷ []) state s
  | ok r ↦ end_start c id io state s (start r)
]

-- The call after the pending record was resolved: an error ends it, and so does an attempt that was
-- started already.
abbrev pub after_resolved : Recorded → Option OperationAttempt → Run → StateStore → Call → Call
after_resolved x last state s next = elim x.failure [
  | some e ↦ record {
    attempt = none;
    event = x.event;
    failures = e ∷ [];
    caller = state;
    store = s;
  }
  | none ↦ elim last [
    | some a ↦ record {
      attempt = some a;
      event = x.event;
      failures = [];
      caller = state;
      store = s;
    }
    | none ↦ next
  ]
]

-- `recordAttemptStart`; the environment answers first to the resolution of the pending record, then
-- to `Record`.
unfoldable pub record_attempt_start :
    Codec
    → RunId
    → Io
    → Io
    → (Run → Returns OperationAttempt)
    → (Run → Option OperationAttempt)
    → Run
    → StateStore
    → Call
record_attempt_start c id io io' start last state s = elim (resolve_pending c id io state s) [
  | none ↦ start_new c id io' start state s
  | some x ↦ after_resolved x.0 (last state) state x.1 (start_new c id io' start state x.1)
]

-- A start that the limits stopped has paused the candidate, which is recorded all the same.
abbrev pub end_limited : Codec → RunId → Io → Run → StateStore → Returns OperationAttempt → Call
end_limited c id io state s (err Failure.limit_exceeded, changed) =
    record_candidate c id io none (StoreError.run_state limit_exceeded ∷ []) changed state s
end_limited c id io state s (err f, _) = refused (StoreError.run_state f ∷ []) state s
end_limited c id io state s (ok a, changed) = record_candidate c id io (some a) [] changed state s

-- The rest of `recordLimitedAttemptStart`, with nothing pending.
unfoldable pub start_limited :
    Codec → RunId → Io → (Run → Returns OperationAttempt) → Bool → Run → StateStore → Call
start_limited c id io start paused state s =
    if paused
    then refused (StoreError.run_state limit_exceeded ∷ []) state s
    else elim (candidate c state) [
      | err f ↦ refused (StoreError.run_state f ∷ []) state s
      | ok r ↦ end_limited c id io state s (start r)
    ]

abbrev pub after_resolved_pause :
    Recorded → Bool → Option OperationAttempt → Run → StateStore → Call → Call
after_resolved_pause x paused last state s next = elim x.failure [
  | some e ↦ record {
    attempt = none;
    event = x.event;
    failures = e ∷ [];
    caller = state;
    store = s;
  }
  | none ↦
      if paused
      then record {
        attempt = none;
        event = x.event;
        failures = StoreError.run_state limit_exceeded ∷ [];
        caller = state;
        store = s;
      }
      else elim last [
        | some a ↦ record {
          attempt = some a;
          event = x.event;
          failures = [];
          caller = state;
          store = s;
        }
        | none ↦ next
      ]
]

-- `recordLimitedAttemptStart`.
unfoldable pub record_limited_attempt_start :
    Codec
    → RunId
    → Io
    → Io
    → (Run → Returns OperationAttempt)
    → (Run → Option OperationAttempt)
    → (Run → Bool)
    → Run
    → StateStore
    → Call
record_limited_attempt_start c id io io' start last paused state s =
    elim (resolve_pending c id io state s) [
      | none ↦ start_limited c id io' start (paused state) state s
      | some x ↦
          after_resolved_pause x.0 (paused state) (last state) state x.1
            (start_limited c id io' start (paused state) state x.1)
    ]

unfoldable pub limit_pause_matches : AssignmentId → OperationId → Run → Bool
limit_pause_matches id operation_id r = r.status == RunStatus.paused && (elim r.limit_pause [
  | none ↦ false
  | some p ↦ p.assignment_id == id && p.operation_id == operation_id
])

-- The last attempt of the first operation with the identifier that has one.
unfoldable pub last_attempt_of : OperationId → List Operation → Option OperationAttempt
last_attempt_of id [] = none
last_attempt_of id (o ∷ os) =
    let rest = last_attempt_of id os in
    if o.id == id && not (is_empty o.attempts) then get_last? o.attempts else rest

unfoldable pub assignment_last_attempt :
    AssignmentId → OperationId → List Assignment → Option OperationAttempt
assignment_last_attempt id operation_id [] = none
assignment_last_attempt id operation_id (a ∷ rest) =
    let later = assignment_last_attempt id operation_id rest in
    if a.id != id
    then later
    else elim (last_attempt_of operation_id a.operations) [ some found ↦ some found | none ↦ later ]

unfoldable pub run_last_attempt : OperationId → Run → Option OperationAttempt
run_last_attempt id r = last_attempt_of id r.run_operations

module _ (c : Codec) (id : RunId) where
  unfoldable pub record_assignment_attempt_start :
      Io → Io → AssignmentId → OperationId → Run → StateStore → Call
  record_assignment_attempt_start io io' a o =
      record_attempt_start c id io io' (start_assignment_attempt a o)
        (λ r. assignment_last_attempt a o r.assignments)

  unfoldable pub record_assignment_attempt_start_with_limits :
      Io → Io → AssignmentId → OperationId → CycleLimits → Run → StateStore → Call
  record_assignment_attempt_start_with_limits io io' a o limits =
      record_limited_attempt_start c id io io' (start_assignment_attempt_with_limits a o limits)
        (λ r. assignment_last_attempt a o r.assignments) (limit_pause_matches a o)

  unfoldable pub record_run_attempt_start : Io → Io → OperationId → Run → StateStore → Call
  record_run_attempt_start io io' o =
      record_attempt_start c id io io' (start_run_attempt_of o) (run_last_attempt o)

  unfoldable pub record_run_attempt_start_with_limits :
      Io → Io → OperationId → CycleLimits → Run → StateStore → Call
  record_run_attempt_start_with_limits io io' o limits =
      record_limited_attempt_start c id io io' (start_run_attempt_with_limits o limits)
        (run_last_attempt o) (limit_pause_matches "" o)

  unfoldable pub record_assignment_outcome :
      Io → AssignmentId → OperationId → AttemptOutcome → String → Run → StateStore → Call
  record_assignment_outcome io a o outcome diagnostic =
      record_outcome c id io (record_assignment_attempt_outcome a o outcome diagnostic)

  unfoldable pub record_run_outcome :
      Io → OperationId → AttemptOutcome → String → Run → StateStore → Call
  record_run_outcome io o outcome diagnostic =
      record_outcome c id io (record_run_attempt_outcome o outcome diagnostic)
