-- ===== src/Store/Attempts/Durable.antt =====
-- internal/flows/impl_loop/store/state.go: a call gives the caller only a run that is recorded.
use mathlib.Core.Path.{subst}
use stepan.Base.{
  ℕ, ◌≡◌, ◌≢◌, ◌⊎◌, refl, sym, ◌∙◌, ap, Bool, true, false, Option, none, some, List, [], ◌∷◌, ◌++◌,
  ◌!=◌, nat_eq, arith, inl, inr, Bool-cases, Option-cases, Result-cases, if◌then◌else◌, Failure,
  Result, ok, err, limit_exceeded,
}
use stepan.Evidence.{RunId}
use stepan.Operation.{OperationAttempt}
use stepan.Run.{Run, Returns}
use stepan.Run.Validate.{Event, validate, new_run_state_event}
use stepan.Run.Validate.Events.{clone_run-stable}
use stepan.Store.Answer.{StoreError, Io}
use stepan.Store.Codec.{Codec, json_copy, Faithful}
use stepan.Store.Journal.History.{newest_event, IsGood}
use stepan.Store.Projection.Rows.{projected}
use stepan.Store.Recording.{StateStore, record_state}
use stepan.Store.Recording.Consistent.{Consistent}
use stepan.Store.Recording.Refines.{record_state-Records}
use stepan.Store.Attempts.{
  Call, refused, failures_of, candidate, record_candidate, end_outcome, record_outcome, end_start,
  start_new, end_limited, start_limited,
}

-- What a call makes of a store with the history `h`: it keeps the history or adds the changed run,
-- it leaves the caller with the old run or with one that is the newest of the history, and without
-- an error the run of the caller is the newest, and applied.
pub record Durable (c : Codec) (h : List Run) (state changed : Run) (x : Call) : Type 0 where
  pub history : List Run
  pub kept : (history ≡ h) ⊎ (history ≡ changed ∷ h)
  pub consistent : Consistent c history x.store
  pub held : (x.caller ≡ state) ⊎ ((older : List Run) × (history ≡ x.caller ∷ older))
  pub settled :
      x.failures ≡ []
      → ((older : List Run) × (history ≡ x.caller ∷ older))
        × (x.store.pending ≡ none)
        × (x.store.projection ≡ projected c history)

candidate-same :
    (c : Codec) (state r : Run) → Faithful c state → candidate c state ≡ ok r → r ≡ state
unfolding candidate new_run_state_event stepan.Base.◌>>=◌
candidate-same c state r faithful made = elim (Result-cases (validate state)) [
  | inl (f, fails) ↦ absurd (ground arith)
  | inr (u, valid) ↦ ground (arith, clone_run-stable (json_copy c) state faithful.decodes_run valid)
]

module _ (c : Codec) (h : List Run) (state changed : Run) where
  -- Nothing is recorded, and the call has an error.
  refused-Durable :
      (x : StoreError) (xs : List StoreError) (s : StateStore)
      → Consistent c h s
      → Durable c h state changed (refused (x ∷ xs) state s)
  refused-Durable x xs s holds = record {
    history = h;
    kept = inl refl;
    consistent = holds;
    held = inl refl;
    settled = λ e. cc;
  }

  -- The run that the caller has after a record with this event.
  abbrev adopted : Option Event → Run
  adopted event = elim event [ none ↦ state | some e ↦ if e.sequence != 0 then changed else state ]

  module _ (history : List Run) (good : IsGood c history) where
    abbrev Names : Option Event → Type 0
    Names event =
        (e : Event)
        → event ≡ some e
        → (older : List Run) × (history ≡ changed ∷ older) × (e ≡ newest_event changed older)

    adopted-newest :
        (event : Option Event)
        → Names event
        → event ≢ none
        → (older : List Run) × (history ≡ adopted event ∷ older)
    adopted-newest none named returned = absurd (returned refl)
    adopted-newest (some e) named returned =
        let (older, grown, same) = named e refl in
        let fine : IsGood c (changed ∷ older) = subst (IsGood c) grown good in
        let adopts : adopted (some e) ≡ changed = ground (arith, same, fine.2) in
        (older, grown ∙ ap (λ (r : Run). r ∷ older) (sym adopts))

    adopted-held :
        (event : Option Event)
        → Names event
        → (adopted event ≡ state) ⊎ ((older : List Run) × (history ≡ adopted event ∷ older))
    adopted-held none named = inl refl
    adopted-held (some e) named = inr (adopted-newest (some e) named (λ e. cc))

  no_failure : (x : Option StoreError) (xs : List StoreError) → xs ++ failures_of x ≡ [] → x ≡ none
  no_failure none xs e = refl
  no_failure (some x) [] e = cc
  no_failure (some x) (y ∷ ys) e = cc

  record_candidate-Durable :
      (id : RunId) (io : Io) (attempt : Option OperationAttempt) (earlier : List StoreError)
      (s : StateStore)
      → Faithful c changed
      → Consistent c h s
      → Durable c h state changed (record_candidate c id io attempt earlier changed state s)
  unfolding record_candidate
  record_candidate-Durable id io attempt earlier s faithful holds =
      let x = record_state c id io changed s in
      let records = record_state-Records c id io changed h s faithful holds in
      let good = records.consistent.represents.good in
      record {
        history = records.history;
        kept = records.kept;
        consistent = records.consistent;
        held = adopted-held records.history good x.0.event records.named;
        settled = λ fine.
            let (idle, projection, returned) =
              records.confirmed (no_failure x.0.failure earlier fine) in
            (
              adopted-newest records.history good x.0.event records.named returned,
              idle,
              projection,
            );
      }

module _ (c : Codec) (id : RunId) (io : Io) (h : List Run) (state : Run) (s : StateStore)
    (recorded : Faithful c state) (holds : Consistent c h s) where
  end_start-Durable :
      (x : Returns OperationAttempt)
      → Faithful c x.1
      → Durable c h state x.1 (end_start c id io state s x)
  end_start-Durable (err f, changed) faithful =
      refused-Durable c h state changed (StoreError.run_state f) [] s holds
  end_start-Durable (ok a, changed) faithful =
      record_candidate-Durable c h state changed id io (some a) [] s faithful holds

  end_outcome-Durable :
      (x : Returns (Unit {0}))
      → Faithful c x.1
      → Durable c h state x.1 (end_outcome c id io state s x)
  end_outcome-Durable (err f, changed) faithful =
      refused-Durable c h state changed (StoreError.run_state f) [] s holds
  end_outcome-Durable (ok a, changed) faithful =
      record_candidate-Durable c h state changed id io none [] s faithful holds

  end_limited-Durable :
      (x : Returns OperationAttempt)
      → Faithful c x.1
      → Durable c h state x.1 (end_limited c id io state s x)
  end_limited-Durable (err Failure.limit_exceeded, changed) faithful =
      record_candidate-Durable c h state changed id io none
        (StoreError.run_state limit_exceeded ∷ []) s faithful holds
  end_limited-Durable (err Failure.invalid_state, changed) faithful =
      refused-Durable c h state changed _ [] s holds
  end_limited-Durable (err Failure.invalid_transition, changed) faithful =
      refused-Durable c h state changed _ [] s holds
  end_limited-Durable (err Failure.panic, changed) faithful =
      refused-Durable c h state changed _ [] s holds
  end_limited-Durable (ok a, changed) faithful =
      record_candidate-Durable c h state changed id io (some a) [] s faithful holds

  -- A call that goes on with the candidate, which is the run itself.
  with_candidate :
      {A : Type 0}
      → (x : Returns A) → (next : Run → Call) → Durable c h state x.1 (next state)
      → Durable c h state x.1 (elim (candidate c state) [
        | err f ↦ refused (StoreError.run_state f ∷ []) state s
        | ok r ↦ next r
      ])
  with_candidate x next goes = elim (Result-cases (candidate c state)) [
    | inl (f, fails) ↦ rw fails (refused-Durable c h state x.1 _ [] s holds)
    | inr (r, made) ↦ rw made (rw (candidate-same c state r recorded made) goes)
  ]

  module _ (start : Run → Returns OperationAttempt) (faithful : Faithful c (start state).1) where
    pub start_new-Durable : Durable c h state (start state).1 (start_new c id io start state s)
    unfolding start_new
    start_new-Durable =
        with_candidate (start state) (λ r. end_start c id io state s (start r))
          (end_start-Durable (start state) faithful)

    pub start_limited-Durable :
        (paused : Bool)
        → Durable c h state (start state).1 (start_limited c id io start paused state s)
    unfolding start_limited
    start_limited-Durable true = refused-Durable c h state (start state).1 _ [] s holds
    start_limited-Durable false =
        with_candidate (start state) (λ r. end_limited c id io state s (start r))
          (end_limited-Durable (start state) faithful)

-- `recordAttemptOutcome` on a store that holds a history, for a run and a changed run that the
-- encoder is faithful to, and under whatever the file system and the database answer: the store
-- keeps its history or adds the changed run, the caller's run stays or is the newest of the history,
-- and without an error it is the newest, nothing is pending, and the projection is that of the
-- history.
pub record_outcome-Durable :
    (c : Codec) (id : RunId) (io : Io) (change : Run → Returns (Unit {0})) (state : Run)
    (h : List Run) (s : StateStore)
    → Faithful c state
    → Faithful c (change state).1
    → Consistent c h s
    → Durable c h state (change state).1 (record_outcome c id io change state s)
unfolding record_outcome
record_outcome-Durable c id io change state h s recorded faithful holds =
    with_candidate c id io h state s recorded holds (change state)
      (λ r. end_outcome c id io state s (change r))
      (end_outcome-Durable c id io h state s recorded holds (change state) faithful)
