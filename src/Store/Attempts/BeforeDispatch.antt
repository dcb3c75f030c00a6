-- ===== src/Store/Attempts/BeforeDispatch.antt =====
-- internal/flows/impl_loop/store/state.go: an attempt is in the journal before it is dispatched.
use mathlib.Core.Path.{subst}
use stepan.Base.{
  ◌≡◌, ◌≢◌, refl, Bool, Option, none, some, List, [], ◌∷◌, nat_eq, inl, inr, Bool-cases,
  Option-cases, limit_exceeded,
}
use stepan.Evidence.{RunId}
use stepan.Operation.{OperationAttempt}
use stepan.Run.{Run, Returns}
use stepan.Run.Validate.{Event}
use stepan.Store.Answer.{StoreError, Io}
use stepan.Store.Codec.{Codec, Faithful}
use stepan.Store.Recording.{StateStore, Recorded, resolve_pending}
use stepan.Store.Recording.Consistent.{Consistent}
use stepan.Store.Recording.Pending.{Resolves}
use stepan.Store.Recording.Refines.{resolved-Resolves}
use stepan.Store.Attempts.{
  Call, after_resolved, record_attempt_start, after_resolved_pause, record_limited_attempt_start,
}
use stepan.Store.Attempts.Durable.{Durable, start_new-Durable, start_limited-Durable}

module _ (c : Codec) (h : List Run) (state changed : Run) (x : Recorded × StateStore)
    (resolved : Resolves c h state x) where
  is_newest : x.0.event ≢ none → (older : List Run) × (resolved.history ≡ state ∷ older)
  is_newest returned = elim (Option-cases x.0.event) [
    | inl missing ↦ absurd (returned missing)
    | inr (e, found) ↦ (let (older, grown, same) = resolved.named e found in (older, grown))
  ]

  -- The call ends with the run that was pending.
  resolved-Durable :
      (attempt : Option OperationAttempt) (event : Option Event) (failures : List StoreError)
      → (failures ≡ [] → x.0.failure ≡ none)
      → Durable c h state changed (record {
        attempt = attempt;
        event = event;
        failures = failures;
        caller = state;
        store = x.1;
      })
  resolved-Durable attempt event failures fails = record {
    history = resolved.history;
    kept = inl resolved.kept;
    consistent = resolved.consistent;
    held = inl refl;
    settled = λ fine.
        let (idle, projection, returned) = resolved.confirmed (fails fine) in
        (is_newest returned, idle, projection);
  }

  still_Consistent : Consistent c h x.1
  still_Consistent = subst (λ g. Consistent c g x.1) resolved.kept resolved.consistent

  module _ (last : Option OperationAttempt) (next : Call)
      (goes : Durable c h state changed next) where
    after_resolved-Durable : Durable c h state changed (after_resolved x.0 last state x.1 next)
    after_resolved-Durable = elim (Option-cases x.0.failure) [
      | inr (e, fails) ↦ rw fails (resolved-Durable none x.0.event (e ∷ []) (λ e. cc))
      | inl fine ↦ rw fine (elim (Option-cases last) [
        | inl missing ↦ rw missing goes
        | inr (a, found) ↦ rw found (resolved-Durable (some a) x.0.event [] (λ e. fine))
      ])
    ]

    after_resolved_pause-Durable :
        (paused : Bool)
        → Durable c h state changed (after_resolved_pause x.0 paused last state x.1 next)
    after_resolved_pause-Durable paused = elim (Option-cases x.0.failure) [
      | inr (e, fails) ↦ rw fails (resolved-Durable none x.0.event (e ∷ []) (λ e. cc))
      | inl fine ↦ rw fine (elim (Bool-cases paused) [
        | inl pauses ↦
            rw pauses
              (resolved-Durable none x.0.event (StoreError.run_state limit_exceeded ∷ []) (λ e. cc))
        | inr goes_on ↦ rw goes_on (elim (Option-cases last) [
          | inl missing ↦ rw missing goes
          | inr (a, found) ↦ rw found (resolved-Durable (some a) x.0.event [] (λ e. fine))
        ])
      ])
    ]

module _ (c : Codec) (id : RunId) (io io' : Io) (start : Run → Returns OperationAttempt)
    (last : Run → Option OperationAttempt) (state : Run) (h : List Run) (s : StateStore)
    (recorded : Faithful c state) (faithful : Faithful c (start state).1)
    (holds : Consistent c h s) where
  -- The start of an attempt, `recordAttemptStart`, on a store that holds a history, for a run and
  -- a changed run that the encoder is faithful to, and under whatever the file system and the
  -- database answer: the store keeps its history or adds the changed run, the caller's run stays
  -- or is the newest of the history, and without an error, which is when the caller may dispatch,
  -- the run is the newest, nothing is pending, and the projection is that of the history.
  pub record_attempt_start-Durable :
      Durable c h state (start state).1 (record_attempt_start c id io io' start last state s)
  unfolding record_attempt_start
  record_attempt_start-Durable = elim (Option-cases (resolve_pending c id io state s)) [
    | inl idle ↦
        rw (idle, record_attempt_start)
          (start_new-Durable c id io' h state s recorded holds start faithful)
    | inr (x, resolved) ↦
        let kept = resolved-Resolves c id io state h s recorded holds x resolved in
        let goes =
          start_new-Durable c id io' h state x.1 recorded (still_Consistent c h state state x kept)
            start faithful in
        rw (resolved, record_attempt_start)
          (after_resolved-Durable c h state (start state).1 x kept (last state) _ goes)
  ]

  -- The start of an attempt with limits, `recordLimitedAttemptStart`, on a store that holds a
  -- history, for a run and a changed run that the encoder is faithful to, and under whatever the
  -- file system and the database answer: the store keeps its history or adds the changed run, the
  -- caller's run stays or is the newest of the history, and without an error, which is when the
  -- caller may dispatch, the run is the newest, nothing is pending, and the projection is that of
  -- the history.
  pub record_limited_attempt_start-Durable :
      (paused : Run → Bool)
      → Durable c h state
          (start state).1
          (record_limited_attempt_start c id io io' start last paused state s)
  unfolding record_limited_attempt_start
  record_limited_attempt_start-Durable paused =
      elim (Option-cases (resolve_pending c id io state s)) [
        | inl idle ↦
            rw (idle, record_limited_attempt_start)
              (start_limited-Durable c id io' h state s recorded holds start faithful
                (paused state))
        | inr (x, resolved) ↦
            let kept = resolved-Resolves c id io state h s recorded holds x resolved in
            let goes =
              start_limited-Durable c id io' h state x.1 recorded
                (still_Consistent c h state state x kept) start faithful (paused state) in
            rw (resolved, record_limited_attempt_start)
              (after_resolved_pause-Durable c h state (start state).1 x kept (last state) _ goes
                (paused state))
      ]
