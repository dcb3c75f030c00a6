-- ===== src/StoreTests.antt =====
-- Tests of the store's model on the runs of the scenario, and the theorems at concrete inputs.
use stepan.Base.{
  ℕ, ◌+◌, ◌-◌, ◌≡◌, refl, done, none, some, inl, true, false, Option, [], ◌∷◌, ◌++◌, ◌==◌, nat_eq,
  arith, if◌then◌else◌, contains, all, ◌!=◌, string_eq,
}
use stepan.Status.{RunStatus, AttemptOutcome, run_status_eq, attempt_outcome_eq}
use stepan.Run.{Run, Returns}
use stepan.Run.Validate.{Event, validate}
use stepan.Scenario.{checked, tried, stopped, observed, limits}
use stepan.Store.Answer.{StoreError, value, error, Io, Appending, Truncation, Database, Publishing}
use stepan.Store.Codec.{Bytes, Codec, Faithful, event_of, line}
use stepan.Store.Attempts.{
  assignment_last_attempt, last_attempt_of, limit_pause_matches, record_attempt_start,
  record_limited_attempt_start, record_outcome,
}
use stepan.Store.Attempts.Durable.{Durable, record_outcome-Durable}
use stepan.Store.Attempts.BeforeDispatch.{
  record_attempt_start-Durable, record_limited_attempt_start-Durable,
}
use stepan.Operation.{OperationAttempt}
use stepan.Run.Attempts.{start_assignment_attempt_with_limits, record_assignment_attempt_outcome}
use stepan.Store.References.Published.{IsPublished, verdict, verify_refs-decides}
use stepan.Store.References.{verify_refs, state_evidence_refs}
use stepan.Store.Journal.{read_journal_current, journal_states}
use stepan.Store.Journal.History.{newest_event, written, IsGood}
use stepan.Store.Projection.{current}
use stepan.Store.Projection.Rows.{projected}
use stepan.Store.Recording.{StateStore, record_state, open_state}
use stepan.Store.Recording.Consistent.{Represents, Phase, Consistent}
use stepan.Store.Recording.Pending.{Records}
use stepan.Store.Recording.Refines.{record_state-Records}
use stepan.Store.Recording.Reopens.{Reopens, open_state-Reopens}
use stepan.Store.Recording.Reads.{
  recorded, events, journal_states-events, current-read_journal_current,
}
use stepan.Store.Recording.Progress.{Works, record_state-succeeds, record_state-retries}
use stepan.Store.Recording.Opening.{open_state-succeeds}

-- A byte for each run of the scenario.
unfoldable code : Run → ℕ
code r =
    if r.status == RunStatus.paused
    then 14
    else elim (assignment_last_attempt "a1" "o1" r.assignments) [
      | none ↦ 11
      | some a ↦ if a.outcome == AttemptOutcome.unobserved then 12 else 13
    ]

unfoldable of_code : ℕ → Run
of_code n =
    if n == 11 then checked else if n == 12 then tried else if n == 13 then observed else stopped

unfoldable byte_codec : Codec
byte_codec = record {
  encode = λ (e : Event). (e.sequence + 11) ∷ (elim e.state [ none ↦ 11 | some r ↦ code r ]) ∷ [];
  decode = λ (d : Bytes). elim d [
    | [] ↦ none
    | n ∷ rest ↦ elim rest [ [] ↦ none | b ∷ _ ↦ some (event_of (n - 11) (of_code b)) ]
  ];
  encode_run = λ (r : Run). code r ∷ [];
  decode_run = λ (d : Bytes). elim d [ [] ↦ none | b ∷ _ ↦ some (of_code b) ];
}

code-Faithful :
    (r : Run) (n : ℕ)
    → code r ≡ n
    → contains (n ∷ []) 10 ≡ false
    → of_code n ≡ r
    → Faithful byte_codec r
unfolding byte_codec
code-Faithful r n coded plain same = record {
  plain = λ n'. ground (arith, coded, plain);
  not_empty = λ n'. refl;
  decodes = λ n'. ground (arith, coded, same);
  decodes_line = λ n'. ground (arith, coded, same);
  decodes_run = ground (arith, coded, same);
}

tried-code : code tried ≡ 12
unfolding code tried assignment_last_attempt last_attempt_of
tried-code = refl

observed-code : code observed ≡ 13
unfolding code observed assignment_last_attempt last_attempt_of
observed-code = refl

stopped-code : code stopped ≡ 14
unfolding code stopped assignment_last_attempt last_attempt_of
stopped-code = refl

tried-decoded : of_code 12 ≡ tried
unfolding of_code
tried-decoded = refl

observed-decoded : of_code 13 ≡ observed
unfolding of_code
observed-decoded = refl

stopped-decoded : of_code 14 ≡ stopped
unfolding of_code
stopped-decoded = refl

tried-Faithful : Faithful byte_codec tried
tried-Faithful = code-Faithful tried 12 tried-code refl tried-decoded

observed-Faithful : Faithful byte_codec observed
observed-Faithful = code-Faithful observed 13 observed-code refl observed-decoded

stopped-Faithful : Faithful byte_codec stopped
stopped-Faithful = code-Faithful stopped 14 stopped-code refl stopped-decoded

tried_valid : validate tried ≡ done
unfolding tried
tried_valid = refl

stopped_valid : validate stopped ≡ done
unfolding stopped
stopped_valid = refl

observed_valid : validate observed ≡ done
unfolding observed
observed_valid = refl

tried-IsGood : IsGood byte_codec (tried ∷ [])
tried-IsGood = (tried-Faithful, tried_valid, (λ e. cc), tt)

stopped-IsGood : IsGood byte_codec (stopped ∷ tried ∷ [])
stopped-IsGood = (stopped-Faithful, stopped_valid, (λ e. cc), tried-IsGood)

-- An environment in which everything works, and one in which the append tears the record.
abbrev working : Io
working = record {
  published = λ _. true;
  readable = true;
  truncation = Truncation.truncated;
  appending = Appending.appended;
  database = Database.committed;
}

abbrev tearing : Io
tearing = record working { appending = Appending.torn 1 }

-- One whose database cannot be reached.
abbrev broken : Io
broken = record working { database = Database.unreachable }

working-Works : Works working
working-Works = record { readable = refl; truncates = refl; appends = refl; commits = refl }

tried-IsPublished : IsPublished "run" working (tried ∷ [])
unfolding tried state_evidence_refs
tried-IsPublished = (refl, refl, tt)

stopped-IsPublished : IsPublished "run" working (stopped ∷ tried ∷ [])
unfolding stopped state_evidence_refs
stopped-IsPublished = (refl, refl, tried-IsPublished)

broken-IsPublished : IsPublished "run" broken (stopped ∷ tried ∷ [])
unfolding stopped tried state_evidence_refs
broken-IsPublished = (refl, refl, (refl, refl, tt))

-- A store with one state, with a torn record behind it.
abbrev one_recorded : StateStore
one_recorded = record {
  journal = written byte_codec (tried ∷ []) ++ 7 ∷ [];
  projection = projected byte_codec (tried ∷ []);
  pending = none;
}

one-Represents : Represents byte_codec (tried ∷ []) (tried ∷ []) one_recorded
one-Represents = record {
  good = tried-IsGood;
  tail = 7 ∷ [];
  torn = refl;
  journal = refl;
  projection = refl;
}

one-Consistent : Consistent byte_codec (tried ∷ []) one_recorded
one-Consistent = record {
  behind = tried ∷ [];
  represents = one-Represents;
  phase = Phase.clean refl refl;
}

-- A store whose second state is in the journal and not in the projection.
abbrev two_recorded : StateStore
two_recorded = record {
  journal = written byte_codec (stopped ∷ tried ∷ []) ++ [];
  projection = projected byte_codec (tried ∷ []);
  pending = some (line byte_codec (newest_event stopped (tried ∷ [])));
}

two-Represents : Represents byte_codec (stopped ∷ tried ∷ []) (tried ∷ []) two_recorded
two-Represents = record {
  good = stopped-IsGood;
  tail = [];
  torn = refl;
  journal = refl;
  projection = refl;
}

two-Consistent : Consistent byte_codec (stopped ∷ tried ∷ []) two_recorded
two-Consistent = record {
  behind = tried ∷ [];
  represents = two-Represents;
  phase = Phase.unprojected stopped (tried ∷ []) refl (inl refl) refl;
}

record_state-Records_example :
    Records byte_codec
      (tried ∷ [])
      stopped
      (record_state byte_codec "run" tearing stopped one_recorded)
record_state-Records_example =
    record_state-Records byte_codec "run" tearing stopped (tried ∷ []) one_recorded stopped-Faithful
      one-Consistent

open_state-Reopens_example :
    Reopens byte_codec
      (stopped ∷ tried ∷ [])
      (open_state byte_codec "run" broken working Publishing.unsynced two_recorded)
open_state-Reopens_example =
    open_state-Reopens byte_codec "run" broken working Publishing.unsynced (stopped ∷ tried ∷ [])
      two_recorded two-Consistent

record_state-succeeds_example : record_state byte_codec "run" working stopped one_recorded ≡ (
  record { event = some (newest_event stopped (tried ∷ [])); failure = none },
  record {
    journal = written byte_codec (stopped ∷ tried ∷ []);
    projection = projected byte_codec (stopped ∷ tried ∷ []);
    pending = none;
  },
)
record_state-succeeds_example =
    record_state-succeeds byte_codec "run" working stopped (tried ∷ []) one_recorded working-Works
      stopped-IsGood stopped-IsPublished one-Represents refl

record_state-retries_example : record_state byte_codec "run" working stopped two_recorded ≡ (
  record { event = some (newest_event stopped (tried ∷ [])); failure = none },
  record two_recorded { projection = projected byte_codec (stopped ∷ tried ∷ []); pending = none },
)
record_state-retries_example =
    record_state-retries byte_codec "run" working stopped (tried ∷ []) (tried ∷ []) two_recorded
      working-Works stopped-IsGood stopped-IsPublished two-Represents (inl refl) refl

open_state-succeeds_example :
    (open_state byte_codec "run" broken working Publishing.published two_recorded).0 ≡ none
open_state-succeeds_example =
    open_state-succeeds byte_codec "run" broken working (stopped ∷ tried ∷ []) two_recorded refl
      refl broken-IsPublished working-Works stopped-IsPublished two-Consistent

current-read_journal_current_example :
    (current byte_codec working one_recorded.projection ≡ recorded (tried ∷ []))
    × (read_journal_current byte_codec "run" working one_recorded.journal ≡ recorded (tried ∷ []))
current-read_journal_current_example =
    current-read_journal_current byte_codec "run" working (tried ∷ []) one_recorded one-Represents
      refl refl tried-IsPublished

verify_refs-decides_example :
    verdict (verify_refs (λ x. x.id != "spec") (state_evidence_refs tried) []) ≡ (
      if all (λ x. x.id != "spec") (state_evidence_refs tried)
      then value tt
      else error StoreError.state_reference)
verify_refs-decides_example = verify_refs-decides (λ x. x.id != "spec") (state_evidence_refs tried)

journal_states-events_example :
    journal_states byte_codec "run" working (written byte_codec (stopped ∷ tried ∷ []) ++ 7 ∷ [])
    ≡ value (events (stopped ∷ tried ∷ []))
journal_states-events_example =
    journal_states-events byte_codec "run" working (stopped ∷ tried ∷ []) (7 ∷ []) stopped-IsGood
      refl refl stopped-IsPublished

abbrev start : Run → Returns OperationAttempt
start = start_assignment_attempt_with_limits "a1" "o1" limits

start-stopped : (start tried).1 ≡ stopped
unfolding stopped
start-stopped = refl

start-Faithful : Faithful byte_codec (start tried).1
start-Faithful = rw start-stopped stopped-Faithful

abbrev observe : Run → Returns (Unit {0})
observe = record_assignment_attempt_outcome "a1" "o1" AttemptOutcome.failed "timeout"

observe-observed : (observe tried).1 ≡ observed
unfolding observed
observe-observed = refl

observe-Faithful : Faithful byte_codec (observe tried).1
observe-Faithful = rw observe-observed observed-Faithful

abbrev last : Run → Option OperationAttempt
last r = assignment_last_attempt "a1" "o1" r.assignments

record_attempt_start-Durable_example :
    Durable byte_codec
      (tried ∷ [])
      tried
      (start tried).1
      (record_attempt_start byte_codec "run" working tearing start last tried one_recorded)
record_attempt_start-Durable_example =
    record_attempt_start-Durable byte_codec "run" working tearing start last tried (tried ∷ [])
      one_recorded tried-Faithful start-Faithful one-Consistent

record_limited_attempt_start-Durable_example :
    Durable byte_codec (tried ∷ []) tried (start tried).1 (
      record_limited_attempt_start byte_codec "run" working working start last
        (limit_pause_matches "a1" "o1")
        tried
        one_recorded)
record_limited_attempt_start-Durable_example =
    record_limited_attempt_start-Durable byte_codec "run" working working start last tried
      (tried ∷ []) one_recorded tried-Faithful start-Faithful one-Consistent
      (limit_pause_matches "a1" "o1")

record_outcome-Durable_example :
    Durable byte_codec
      (tried ∷ [])
      tried
      (observe tried).1
      (record_outcome byte_codec "run" working observe tried one_recorded)
record_outcome-Durable_example =
    record_outcome-Durable byte_codec "run" working observe tried (tried ∷ []) one_recorded
      tried-Faithful observe-Faithful one-Consistent
