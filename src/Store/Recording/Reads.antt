-- ===== src/Store/Recording/Reads.antt =====
-- internal/flows/impl_loop/store/state.go: what the readers of the journal and of the projection see.

use stepan.Base.{
  ℕ, ◌≡◌, refl, ◌∙◌, ap, true, false, Option, none, some, List, [], ◌∷◌, ◌++◌, ◌==◌, nat_eq,
  contains, all, arith, if◌then◌else◌,
}
use stepan.Evidence.{RunId, EvidenceRef}
use stepan.Run.{Run}
use stepan.Run.Validate.{Event}
use stepan.Store.Answer.{StoreError, Answer, value, error, Io, ◌>>=◌}
use stepan.Store.Codec.{Bytes, newline, Codec}
use stepan.Store.References.Published.{IsPublished, verified_lem}
use stepan.Store.Journal.{
  verify_event, keep_current, keep_event, read_journal_current, journal_states,
}
use stepan.Store.Journal.History.{
  sequence_of, newest_event, written, IsGood, replay, scan_journal-replay,
}
use stepan.Store.Projection.{is_unreachable, current}
use stepan.Store.Projection.Rows.{projected}
use stepan.Store.Recording.{StateStore}
use stepan.Store.Recording.Consistent.{Represents}

abbrev pub newest : List Run → Option Run
newest [] = none
newest (r ∷ h) = some r

-- The events of a history in the order of the journal.
abbrev pub events : List Run → List Event
events [] = []
events (r ∷ h) = events h ++ newest_event r h ∷ []

module _ (c : Codec) (id : RunId) (io : Io) where
  -- With every reference published, a callback that verifies goes through.
  pub replay-verify_event :
      (h : List Run)
      → IsPublished id io h
      → (seen : List EvidenceRef) × (replay c (verify_event id io) h [] ≡ value seen)
        × (all io.published seen ≡ true)
  unfolding ◌>>=◌
  replay-verify_event [] published = ([], refl, refl)
  replay-verify_event (r ∷ h) published =
      let (before, ok, seen) = replay-verify_event h published.2 in
      let (after, verified, seen') = verified_lem id io r before published.0 published.1 seen in
      (after, rw ok verified, seen')

  replay-keep_current :
      (h : List Run)
      → IsPublished id io h
      → (seen : List EvidenceRef) × (replay c (keep_current id io) h (none, [])
          ≡ value (newest h, seen))
        × (all io.published seen ≡ true)
  unfolding ◌>>=◌
  replay-keep_current [] published = ([], refl, refl)
  replay-keep_current (r ∷ h) published =
      let (before, ok, seen) = replay-keep_current h published.2 in
      let (after, verified, seen') = verified_lem id io r before published.0 published.1 seen in
      (after, rw ok (rw verified refl), seen')

  replay-keep_event :
      (h : List Run)
      → IsPublished id io h
      → (seen : List EvidenceRef) × (replay c (keep_event id io) h ([], [])
          ≡ value (events h, seen))
        × (all io.published seen ≡ true)
  unfolding ◌>>=◌
  replay-keep_event [] published = ([], refl, refl)
  replay-keep_event (r ∷ h) published =
      let (before, ok, seen) = replay-keep_event h published.2 in
      let (after, verified, seen') = verified_lem id io r before published.0 published.1 seen in
      (after, rw ok (rw verified refl), seen')

  module _ (h : List Run) (tail : Bytes) (good : IsGood c h) (torn : contains tail newline ≡ false)
      (readable : io.readable ≡ true) (published : IsPublished id io h) where
    -- `JournalStates` on a journal that holds a history, with its references published: the events
    -- of the history in their order, whatever torn record is behind them.
    pub journal_states-events : journal_states c id io (written c h ++ tail) ≡ value (events h)
    unfolding journal_states ◌>>=◌
    journal_states-events =
        let (seen, ok, rest) = replay-keep_event h published in
        rw
          (
            scan_journal-replay c (keep_event id io) io h tail ([], []) good torn readable,
            journal_states,
          )
          (rw ok refl)

    scanned : read_journal_current c id io (written c h ++ tail) ≡ (
        if sequence_of h == 0 then error StoreError.state_unavailable else elim (newest h) [
          | none ↦ error StoreError.state_unavailable
          | some r ↦ value (r, sequence_of h)
        ])
    unfolding read_journal_current ◌>>=◌
    scanned =
        let (seen, ok, rest) = replay-keep_current h published in
        rw
          (
            scan_journal-replay c (keep_current id io) io h tail (none, []) good torn readable,
            read_journal_current,
          )
          (rw ok refl)

-- What `Current` reads of the projection of a history.
current-projected :
    (c : Codec) (io : Io) (r : Run) (h : List Run)
    → IsGood c (r ∷ h)
    → is_unreachable io.database ≡ false
    → current c io (projected c (r ∷ h)) ≡ value (r, sequence_of (r ∷ h))
unfolding current ◌>>=◌
current-projected c io r h good up = ground (arith, good.0.decodes_run, good.1, good.2)

current-empty :
    (c : Codec) (io : Io)
    → is_unreachable io.database ≡ false
    → current c io (projected c []) ≡ error StoreError.state_unavailable
unfolding current
current-empty c io up = ground arith

-- The state under its number that both readers should find.
abbrev pub recorded : List Run → Answer (Run × ℕ)
recorded [] = error StoreError.state_unavailable
recorded (r ∷ h) = value (r, sequence_of (r ∷ h))

current-recorded :
    (c : Codec) (io : Io) (h : List Run)
    → IsGood c h
    → is_unreachable io.database ≡ false
    → current c io (projected c h) ≡ recorded h
current-recorded c io [] good up = current-empty c io up
current-recorded c io (r ∷ h) good up = current-projected c io r h good up

journal-recorded :
    (c : Codec) (id : RunId) (io : Io) (h : List Run) (tail : Bytes)
    → IsGood c h
    → contains tail newline ≡ false
    → io.readable ≡ true
    → IsPublished id io h
    → read_journal_current c id io (written c h ++ tail) ≡ recorded h
journal-recorded c id io [] tail good torn readable published =
    scanned c id io [] tail good torn readable published
journal-recorded c id io (r ∷ h) tail good torn readable published =
    ground (arith, scanned c id io (r ∷ h) tail good torn readable published, good.2)

-- The readers agree: on a store whose projection is that of the history in the journal, with the
-- references published and the file system and the database reachable, `Current`, which reads only
-- the projection, and `ReadJournalCurrent`, which reads only the journal, both return the newest
-- state of the history under its number, or that there is none.
pub current-read_journal_current :
    (c : Codec) (id : RunId) (io : Io) (h : List Run) (s : StateStore)
    → Represents c h h s
    → io.readable ≡ true
    → is_unreachable io.database ≡ false
    → IsPublished id io h
    → (current c io s.projection ≡ recorded h)
      × (read_journal_current c id io s.journal ≡ recorded h)
current-read_journal_current c id io h s rep readable up published = (
  ap (current c io) rep.projection ∙ current-recorded c io h rep.good up,
  ap (read_journal_current c id io) rep.journal
      ∙ journal-recorded c id io h rep.tail rep.good rep.torn readable published,
)
