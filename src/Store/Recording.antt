-- ===== src/Store/Recording.antt =====
-- internal/flows/impl_loop/store/state.go: the store of a run, how it records a state, and how it is
-- opened again.
pub mod Consistent
pub mod Pending
pub mod Steps
pub mod Refines
pub mod Matches
pub mod Cuts
pub mod Reopens
pub mod Reads
pub mod Progress
pub mod Opening
use stepan.Base.{
  ℕ, Bool, true, false, ◌&&◌, ◌||◌, Option, none, some, List, [], ◌∷◌, ◌==◌, ◌!=◌, not, nat_eq, inc,
  list_beq, if◌then◌else◌, Result, ok, err,
}
use stepan.Evidence.{RunId}
use stepan.Run.{Run}
use stepan.Run.Validate.{Event, new_run_state_event}
use stepan.Store.Answer.{
  StoreError, Answer, value, error, Io, Appending, Publishing, Database, of_run, ◌>>=◌, ◌>>◌,
}
use stepan.Store.Codec.{Bytes, Codec, json_copy, marshal_event, event_from_data}
use stepan.Store.References.{verify_state_references}
use stepan.Store.Journal.{
  JournalContents, validate_journal, scan_journal, append_journal, is_durable, discard_journal_tail,
}
use stepan.Store.Projection.{
  Projection, empty_projection, last_applied, is_unreachable, apply_canonical, replay_event,
  projection_matches,
}

-- The journal and the projection are on the disk, the pending record is in the memory of a handle.
pub record StateStore : Type 0 where
  pub journal : Bytes
  pub projection : Projection
  pub pending : Option Bytes

-- The event and the error that `Record` returns; the event is none where Go returns the zero one.
pub record Recorded : Type 0 where
  pub event : Option Event
  pub failure : Option StoreError

abbrev pub refuse : StoreError → Recorded
refuse x = record { event = none; failure = some x }

-- `cloneEventFromData` at the end of a call, and `eventWithError`.
unfoldable pub finish : Codec → Bytes → Recorded
finish c d = elim (event_from_data c d) [
  | error x ↦ refuse x
  | value e ↦ record { event = some e; failure = none }
]

unfoldable pub event_with_error : Codec → Bytes → StoreError → Recorded
event_with_error c d x = elim (event_from_data c d) [
  | error _ ↦ refuse x
  | value e ↦ record { event = some e; failure = some x }
]

-- A torn record behind a valid journal is cut off.
unfoldable pub clean_journal : Io → JournalContents → Bytes → Option StoreError × Bytes
clean_journal io j journal =
    if j.discard_tail
    then discard_journal_tail io.truncation j.valid_bytes journal
    else (none, journal)

-- `refreshCleanSequence`, and the journal that it leaves.
unfoldable pub refresh_clean_sequence : Codec → RunId → Io → StateStore → Answer ℕ × Bytes
refresh_clean_sequence c id io s = elim (validate_journal c id io s.journal) [
  | error x ↦ (error x, s.journal)
  | value j ↦
      let cut = clean_journal io j s.journal in
      elim cut.0 [
        | some x ↦ (error x, cut.1)
        | none ↦
            if is_unreachable io.database
            then (error StoreError.io, cut.1)
            else if last_applied s.projection != j.last_sequence
            then (error StoreError.journal_sequence, cut.1)
            else (value j.last_sequence, cut.1)
      ]
]

-- The last step of `Record` and of `applyPendingLocked`: the record is in the journal, and applied.
unfoldable pub apply_pending_record :
    Codec → RunId → Io → Bytes → StateStore → Recorded × StateStore
apply_pending_record c id io d s =
    let after = apply_canonical c id io d s.projection in
    elim after.0 [
      | some x ↦ (event_with_error c d x, record s { projection = after.1; pending = some d })
      | none ↦ (finish c d, record s { projection = after.1; pending = none })
    ]

-- `applyPendingLocked` where the record `pending` is pending.
unfoldable pub resolve_record :
    Codec → RunId → Io → Run → Bytes → StateStore → Recorded × StateStore
resolve_record c id io state pending s =
    elim (event_from_data c pending >>= λ e. verify_state_references id io (some state) >>= λ _.
    of_run (new_run_state_event (json_copy c) e.sequence state) >>= λ e'. marshal_event c e') [
      | error x ↦ (refuse x, s)
      | value d ↦
          if not (list_beq d pending)
          then (refuse StoreError.pending_event, s)
          else apply_pending_record c id io pending s
    ]

-- `applyPendingLocked`; none where nothing is pending.
unfoldable pub resolve_pending :
    Codec → RunId → Io → Run → StateStore → Option (Recorded × StateStore)
resolve_pending c id io state s = elim s.pending [
  | none ↦ none
  | some pending ↦ some (resolve_record c id io state pending s)
]

-- `Record` after the append that ended so.
unfoldable pub append_record :
    Appending → Codec → RunId → Io → Bytes → StateStore → Recorded × StateStore
unfolding append_journal
append_record Appending.unclosed c id io d s = (
  event_with_error c d StoreError.io,
  record s { journal = append_journal Appending.unclosed s.journal d; pending = some d },
)
append_record Appending.appended c id io d s =
    apply_pending_record c id io d
      (record s { journal = append_journal Appending.appended s.journal d })
append_record a c id io d s =
    (refuse StoreError.io, record s { journal = append_journal a s.journal d })

-- `Record` where nothing is pending.
unfoldable pub record_new : Codec → RunId → Io → Run → StateStore → Recorded × StateStore
record_new c id io state s =
    let clean = refresh_clean_sequence c id io s in
    let s' = record s { journal = clean.1 } in
    elim (clean.0 >>= λ last. verify_state_references id io (some state) >>= λ _.
    of_run (new_run_state_event (json_copy c) (inc last) state) >>= λ e. marshal_event c e) [
      | error x ↦ (refuse x, s')
      | value d ↦ append_record io.appending c id io d s'
    ]

unfoldable pub record_state : Codec → RunId → Io → Run → StateStore → Recorded × StateStore
record_state c id io state s = elim (resolve_pending c id io state s) [
  | some resolved ↦ resolved
  | none ↦ record_new c id io state s
]

-- `publishProjectionGroup` for the replacement, and the verification of what is published; `unsynced`
-- is also the outcome of a later failure to open what is published.
unfoldable pub publish_projection :
    Publishing → Codec → Io → Projection → StateStore → Option StoreError × StateStore
publish_projection Publishing.kept c io p s = (some StoreError.io, s)
publish_projection Publishing.unsynced c io p s = (some StoreError.io, record s { projection = p })
publish_projection Publishing.published c io p s =
    if is_unreachable io.database
    then (some StoreError.io, record s { projection = p })
    else if projection_matches c io s.journal p
    then (none, record s { projection = p })
    else (some StoreError.journal_sequence, record s { projection = p })

-- `rebuildProjection`: the replacement is built from the journal, compared with what was validated,
-- and put in the place of the old one.
unfoldable pub rebuild_projection :
    Codec → RunId → Io → Publishing → JournalContents → StateStore → Option StoreError × StateStore
rebuild_projection c id io publishing j s =
    elim (scan_journal c io (replay_event c id io) s.journal empty_projection) [
      | error x ↦ (some x, s)
      | value (j', p) ↦
          if j'.last_sequence != j.last_sequence
            || j'.valid_bytes != j.valid_bytes
            || j'.discard_tail
          then (some StoreError.journal_sequence, s)
          else publish_projection publishing c io p s
    ]

-- `OpenState` on what an earlier handle has left on the disk: in `io` is the database that was left, in
-- `io'` the one that replaces it.
unfoldable pub open_state :
    Codec → RunId → Io → Io → Publishing → StateStore → Option StoreError × StateStore
open_state c id io io' publishing s =
    let fresh = record s { pending = none } in
    elim (validate_journal c id io s.journal) [
      | error x ↦ (some x, fresh)
      | value j ↦
          let cut = clean_journal io j s.journal in
          let s' = record fresh { journal = cut.1 } in
          elim cut.0 [
            | some x ↦ (some x, s')
            | none ↦
                if projection_matches c io cut.1 s.projection
                then (none, s')
                else rebuild_projection c id io' publishing j s'
          ]
    ]
