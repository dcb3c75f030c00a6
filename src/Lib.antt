-- ===== src/Lib.antt =====
-- The state machine of an implementation run, internal/flows/impl_loop/state/state.go, and the store
-- that records it, internal/flows/impl_loop/store/state.go; and the settings, internal/setting.
--
-- A run holds the ordered task tree of a change, the assignments that work through its leaves, the
-- operations that were carried out for an assignment or for the whole run with their attempts and
-- results, and the evidence on which work is accepted, committed and, in the end, declared done.
-- The controller calls the methods of `*Run`; after each transition it appends a record with the
-- whole run to a journal, and a restart replays the last record.
--
-- Base and its children hold the shared helpers: Boolean tests and equality (Base/Tests), lists,
-- searches and association lists for maps (Base/Lists), strings (Base/Text), Go's int and uint64
-- (Base/Int), failures and results (Base/Errors).
-- Status: the string enumerations, from RunStatus to EventKind, with their `valid` methods.
-- Evidence: EvidenceRef, AcceptanceBasis, RunIdentity, Task, BriefVersion, CommitIntent and
-- CommitEvidence. Operation: OperationAttempt, Operation, OperationResult and the task reviews.
-- Counters: CycleCounters, CycleLimits, LimitPause and ExecutionBlock. Assignment: Assignment with
-- validateAcceptance and startAttempt. Run: Run and its lookups. Under Run, by what the methods do:
--   Tasks: validateStructure, NewRun, CompleteInitialTaskExtraction, TaskStatus, PendingLeafTasks
--   Baseline: RecordInitialBaselinePass, RefreshInitialBaselinePass and what they rest on
--   Work: AppendFinalFindingTasks, StartAssignment, AddBriefVersion, AddOperation, AddResult,
--     RecordTaskReview, RecordTaskReviewDispute, OpenTaskReviewFindings
--   Acceptance: AcceptAssignment, SetPendingCommitIntent, RefreshPendingCommitIntentTree,
--     CommitAssignment, RecordReconciledCommit, BeginBriefRefinement, ReopenAssignment,
--     ObserveCodeState, RefreshAcceptanceInputs
--   Attempts: AddRunOperation, SupersedeRunOperation, AddRunResult, the starts of an attempt with
--     and without limits, the outcomes of an attempt, pauseForLimit
--   Lifecycle: Pause, PauseExecutionBlocked, UpdatePausedExecutionBlock, EndExplorerEpisode,
--     EndRunExplorerEpisode, Resume with resetLimitPause, Close
--   Final: validateFinalAcceptance and RecordFinalAcceptance. Counters: validateCounters
--   Validate: Validate, Succeed, NewRunPendingTaskExtraction, Event, NewRunStateEvent, Apply
--   Step: `Command`, one constructor for each exported method that may write to a run, and `execute`
-- Store models store/state.go: a journal of JSON records, one to a line, which is the truth, and a
-- SQLite projection of it with the applied records and the current state.
--   Answer: the errors, and what the file system and the database may do to a call. Codec: the records
--   References: stateEvidenceRefs, verifyStateReferencesSeen
--   Journal: scanJournal, validateJournal, appendJournalResult, discardJournalTail,
--     ReadJournalCurrent, JournalStates
--   Projection: applyCanonical, lastApplied, projectionMatchesJournal, Current
--   Recording: Record, applyPendingLocked, refreshCleanSequence, rebuildProjection, OpenState
--   Attempts: the starts and the outcomes of attempts, which call Run.Attempts on a clone of the run
--     and record it before the caller may dispatch
-- Journal/History says which bytes a list of states, the newest first, is in the journal, and
-- Recording/Consistent what a journal, a projection and a pending record may be between two calls:
-- a torn record behind the history, and a projection that is at most one state behind.
-- Settings models internal/setting: the settings documents of the user and of a project
-- (settings.go), Settings/Merge the effective configuration of the loop and its roles (merge.go),
-- Settings/Limits its limits (limits.go), Settings/Profile the runtime profile of a role and the main
-- branch (profile.go, branch.go), Settings/Checks the checks that a machine can run (checks.go). A
-- map is an association list, in which the first entry of a name counts; encoding/json and
-- bytes.TrimSpace are the parameter `Json`, and an absent message is the empty one.
-- The other modules below these hold proofs. Scenario is a short life of a run; Tests, StoreTests and
-- SettingsTests run the models.
--
-- A method takes the run last, and returns its error or value together with the run it leaves
-- behind, so what it has written before it fails is part of the model. A pointer into a slice is
-- the value, found by its identifier, and stored back at the same place. An error is the sentinel
-- that the code wraps; the text around it is left out. A nil pointer dereference is the failure
-- `panic`. A string that is none of the constants of its enumeration is the constructor `unknown`.
-- A map is an association list with one entry per key, and a nil map is an empty one; a write to a
-- nil LeafStatus, which needs a run with tasks that no constructor made, is not seen. An optional
-- pointer is an Option.
-- `int` is the type of integers without a bound, and its conversion to `uint64` is taken modulo
-- 2 ^ 64; the increment of a `uint64` wraps. `TaskStatus` recurses over the task tree on fuel,
-- the number of tasks and one more, which a path of distinct tasks does not exceed.
--
-- The environment of a call on the store is a record of answers, `Io`: which evidence is
-- published, for which the code reads a file and its digest; whether the journal can be read; how
-- a truncation, an append and a transaction end. An append may end before it writes, after a part
-- of the line, after the whole line but before the sync, or after the sync, and a commit may be
-- reported as failed. A theorem that fixes no answers holds for all of them. What is on the disk
-- after a failed sync is what was written. The start of an attempt has one environment for the
-- pending record, one for `Record`; an opening has one for the journal and the old projection, one
-- for the projection that replaces it. JSON is a parameter: for `cloneRun` the function
-- `JsonCopy`, which says what a run is after it has been encoded and decoded, and may fail or
-- change it, as encoding/json does with bytes that are not UTF-8; for the store `Codec`, whose
-- encoder and decoder make that copy, `json_copy`. Where a theorem needs it, `Faithful` says of
-- one state what encoding/json promises of text that is UTF-8: the record has no newline in it, is
-- not empty, and decodes to what was encoded, and so does the state. Sequence numbers are uint64
-- and wrap; their conversion to int64 is the identity, which holds up to 2 ^ 63 records. An absent
-- journal is an empty one, and an absent or corrupt database is one that does not match.
--
-- Not modelled: nil receivers; how encoding/json works; aliasing between a caller's slices and
-- those of the run, which the code rules out by cloning. Of the store: the checks of paths, the
-- locks, the handles and `Close`, SQLite's side files and pragmas, the durability modes, the hooks
-- of the tests, and store/store.go with the layout of a run. Of the settings: the reading of the
-- files, rules.go, proposal.go, auth.go and paths.go.
-- The agents, the checks, git, the specification flow and the command line are not part of this
-- development.
pub mod Base
pub mod Status
pub mod Evidence
pub mod Operation
pub mod Counters
pub mod Assignment
pub mod Run
pub mod Store
pub mod Scenario
pub mod Tests
pub mod StoreTests
pub mod Settings
pub mod SettingsTests
