-- ===== src/Store/Journal.antt =====
-- internal/flows/impl_loop/store/state.go: the append-only journal, one record to a line.
pub mod Lines
pub mod History
use stepan.Base.{
  ℕ, ◌+◌, Bool, true, false, Option, none, some, List, [], ◌∷◌, ◌++◌, ◌==◌, ◌!=◌, not, nat_eq, inc,
  length, is_empty, take, if◌then◌else◌,
}
use stepan.Evidence.{RunId, EvidenceRef}
use stepan.Run.{Run}
use stepan.Run.Validate.{Event}
use stepan.Store.Answer.{StoreError, Answer, value, error, Io, Appending, Truncation, ◌>>=◌, ◌>>◌}
use stepan.Store.Codec.{Bytes, newline, Codec, event_from_data}
use stepan.Store.References.{verify_state_references_seen}

-- The records that a newline ends, and the fragment behind them: what `ReadBytes` returns in turn.
unfoldable pub records : Bytes → List Bytes × Bytes
records [] = ([], [])
records (b ∷ bs) =
    let rest = records bs in
    if b == newline
    then ([] ∷ rest.0, rest.1)
    else elim rest.0 [ [] ↦ ([], b ∷ rest.1) | d ∷ ds ↦ ((b ∷ d) ∷ ds, rest.1) ]

pub record JournalContents : Type 0 where
  pub last_sequence : ℕ
  pub valid_bytes : ℕ
  pub discard_tail : Bool

abbrev pub no_contents : JournalContents
no_contents = record { last_sequence = 0; valid_bytes = 0; discard_tail = false }

-- One complete record: what the callback makes of it, with the line's bytes.
unfoldable pub scan_record :
    {S : Type 0}
    → Codec
    → (Bytes → Event → S → Answer S)
    → Bytes
    → JournalContents × S
    → Answer (JournalContents × S)
scan_record c callback d (j, s) =
    if is_empty d then error StoreError.journal_sequence else elim (event_from_data c d) [
      | error _ ↦ error StoreError.journal_sequence
      | value e ↦
          if e.sequence != inc j.last_sequence
          then error StoreError.journal_sequence
          else callback (d ++ newline ∷ []) e s >>= λ s'. value (
            record j {
              last_sequence = e.sequence;
              valid_bytes = j.valid_bytes + length (d ++ newline ∷ []);
            },
            s',
          )
    ]

-- The loop of `scanJournal` over the complete records.
unfoldable pub scan_records :
    {S : Type 0}
    → Codec
    → (Bytes → Event → S → Answer S)
    → List Bytes
    → JournalContents × S
    → Answer (JournalContents × S)
scan_records c callback [] x = value x
scan_records c callback (d ∷ ds) x =
    scan_record c callback d x >>= λ y. scan_records c callback ds y

unfoldable pub scan_journal :
    {S : Type 0}
    → Codec
    → Io
    → (Bytes → Event → S → Answer S)
    → Bytes
    → S
    → Answer (JournalContents × S)
scan_journal c io callback journal s =
    if not io.readable
    then error StoreError.io
    else scan_records c callback (records journal).0 (no_contents, s) >>= λ x.
        value (record x.0 { discard_tail = not (is_empty (records journal).1) }, x.1)

-- The callback of `validateJournal`: it carries the references that are verified already.
abbrev pub verify_event : RunId → Io → Bytes → Event → List EvidenceRef → Answer (List EvidenceRef)
verify_event id io d e seen = verify_state_references_seen id io e.state seen

unfoldable pub validate_journal : Codec → RunId → Io → Bytes → Answer JournalContents
validate_journal c id io journal =
    scan_journal c io (verify_event id io) journal [] >>= λ x. value x.0

-- The journal after `appendJournalResult`.
unfoldable pub append_journal : Appending → Bytes → Bytes → Bytes
append_journal Appending.refused journal d = journal
append_journal (Appending.torn n) journal d = journal ++ take n d
append_journal Appending.unclosed journal d = journal ++ d
append_journal Appending.appended journal d = journal ++ d

abbrev pub is_durable : Appending → Bool
is_durable Appending.unclosed = true
is_durable Appending.appended = true
is_durable _ = false

-- The journal after `discardJournalTail`, and its error.
unfoldable pub discard_journal_tail : Truncation → ℕ → Bytes → Option StoreError × Bytes
discard_journal_tail Truncation.refused n journal = (some StoreError.io, journal)
discard_journal_tail Truncation.unsynced n journal = (some StoreError.io, take n journal)
discard_journal_tail Truncation.truncated n journal = (none, take n journal)

-- `ReadJournalCurrent`: the newest state of the journal, without the projection. The callback keeps
-- the last state and the references that are verified already.
abbrev pub keep_current :
    RunId
    → Io
    → Bytes
    → Event
    → Option Run × List EvidenceRef
    → Answer (Option Run × List EvidenceRef)
keep_current id io d e (current, seen) =
    verify_state_references_seen id io e.state seen >>= λ seen'. value (e.state, seen')

unfoldable pub read_journal_current : Codec → RunId → Io → Bytes → Answer (Run × ℕ)
read_journal_current c id io journal =
    scan_journal c io (keep_current id io) journal (none, []) >>= λ x.
    if x.0.last_sequence == 0 then error StoreError.state_unavailable else elim x.1.0 [
      | none ↦ error StoreError.state_unavailable
      | some r ↦ value (r, x.0.last_sequence)
    ]

-- `JournalStates`: the events in their order.
abbrev pub keep_event :
    RunId
    → Io
    → Bytes
    → Event
    → List Event × List EvidenceRef
    → Answer (List Event × List EvidenceRef)
keep_event id io d e (events, seen) =
    verify_state_references_seen id io e.state seen >>= λ seen'. value (events ++ e ∷ [], seen')

unfoldable pub journal_states : Codec → RunId → Io → Bytes → Answer (List Event)
journal_states c id io journal =
    scan_journal c io (keep_event id io) journal ([], []) >>= λ x. value x.1.0
