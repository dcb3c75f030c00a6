-- ===== src/Store/Recording/Progress.antt =====
-- internal/flows/impl_loop/store/state.go: with a file system and a database that work, the calls
-- of the store succeed.
use mathlib.Core.List.{append-nil}
use stepan.Base.{
  ℕ, ◌≡◌, ◌≢◌, ◌⊎◌, refl, sym, ◌∙◌, ap, Bool, true, false, Option, none, some, List, [], ◌∷◌, ◌++◌,
  ◌==◌, ◌!=◌, not, nat_eq, contains, is_empty, all, length, list_beq, arith, inl, inr, inc,
  Bool-cases, done, Result, ok, err, if◌then◌else◌,
}
use stepan.Evidence.{RunId}
use stepan.Run.{Run}
use stepan.Run.Validate.{new_run_state_event}
use stepan.Run.Validate.Events.{clone_run-stable}
use stepan.Store.Answer.{value, Io, Appending, Truncation, Database, ◌>>=◌}
use stepan.Store.Codec.{Bytes, newline, Codec, json_copy, line, marshal_event}
use stepan.Store.References.{verify_state_references}
use stepan.Store.References.Published.{IsPublished, verified_lem}
use stepan.Store.Journal.{append_journal, verify_event, validate_journal, discard_journal_tail}
use stepan.Store.Journal.Lines.{take-length-append}
use stepan.Store.Journal.History.{
  sequence_of, newest_event, written, IsGood, contents, event_of_valid, event_from_data-line,
  scan_journal-replay,
}
use stepan.Store.Projection.{last_applied, apply_canonical}
use stepan.Store.Projection.Rows.{
  projected, last_applied-projected, list_beq_self, apply_canonical-committed,
}
use stepan.Store.Recording.{
  StateStore, clean_journal, refresh_clean_sequence, apply_pending_record, resolve_record,
  append_record, record_new, record_state,
}
use stepan.Store.Recording.Consistent.{Represents}
use stepan.Store.Recording.Pending.{finish-line}
use stepan.Store.Recording.Steps.{prepared}
use stepan.Store.Recording.Refines.{resolves}
use stepan.Store.Recording.Reads.{replay-verify_event}

-- The file system and the database do what they are asked.
pub record Works (io : Io) : Type 0 where
  pub readable : io.readable ≡ true
  pub truncates : io.truncation ≡ Truncation.truncated
  pub appends : io.appending ≡ Appending.appended
  pub commits : io.database ≡ Database.committed

module _ (c : Codec) (id : RunId) (io : Io) where
  -- A journal that can be read, with its references published, is valid.
  pub validates :
      (h : List Run) (tail : Bytes)
      → io.readable ≡ true
      → IsGood c h
      → contains tail newline ≡ false
      → IsPublished id io h
      → validate_journal c id io (written c h ++ tail)
        ≡ value (record (contents c h) { discard_tail = not (is_empty tail) })
  unfolding validate_journal ◌>>=◌
  validates h tail readable good torn published =
      let (seen, replayed, rest) = replay-verify_event c id io h published in
      rw
        (
          scan_journal-replay c (verify_event id io) io h tail [] good torn readable,
          validate_journal,
        )
        (rw replayed refl)

  -- A torn record is cut off, where the file can be truncated.
  pub cleans :
      (h : List Run) (tail journal : Bytes)
      → io.truncation ≡ Truncation.truncated
      → journal ≡ written c h ++ tail
      → clean_journal io (record (contents c h) { discard_tail = not (is_empty tail) }) journal
        ≡ (none, written c h)
  unfolding clean_journal discard_journal_tail
  cleans h [] journal truncates same =
      rw same (ap (λ (j : Bytes). (none, j)) (append-nil (written c h)))
  cleans h (b ∷ tail) journal truncates same =
      rw (truncates, clean_journal)
        (rw same (ap (λ (j : Bytes). (none, j)) (take-length-append (written c h) (b ∷ tail))))

module _ (c : Codec) (id : RunId) (io : Io) (works : Works io) where
  refreshes :
      (h : List Run) (s : StateStore)
      → Represents c h h s
      → IsPublished id io h
      → refresh_clean_sequence c id io s ≡ (value (sequence_of h), written c h)
  unfolding refresh_clean_sequence
  refreshes h s rep published =
      let valid =
        ap (validate_journal c id io) rep.journal
        ∙ validates c id io h rep.tail works.readable rep.good rep.torn published in
      let cut = cleans c id io h rep.tail s.journal works.truncates rep.journal in
      let last = ap last_applied rep.projection ∙ last_applied-projected c h in
      rw (valid, refresh_clean_sequence) (rw cut (ground (arith, last, works.commits)))

  appended_lem :
      (a : Appending)
      → a ≡ Appending.appended
      → (d : Bytes) (s : StateStore)
      → append_record a c id io d s
        ≡ apply_pending_record c id io d (record s { journal = s.journal ++ d })
  unfolding append_record append_journal
  appended_lem a same d s = rw same refl

  module _ (r : Run) (h : List Run) (good : IsGood c (r ∷ h))
      (published : IsPublished id io (r ∷ h)) where
    prepares : prepared c id io r (sequence_of (r ∷ h)) ≡ value (line c (newest_event r h))
    unfolding marshal_event new_run_state_event verify_state_references ◌>>=◌ stepan.Base.◌>>=◌
    prepares =
        let (seen, verified, rest) = verified_lem id io r [] published.0 published.1 refl in
        let fine = event_of_valid (sequence_of (r ∷ h)) r good.2 good.1 in
        let cloned = clone_run-stable (json_copy c) r good.0.decodes_run good.1 in
        ground (arith, verified, fine, cloned, good.1, good.2)

    -- The record in the journal is applied, whether or not it was.
    applies :
        (p : List Run) (s : StateStore)
        → (p ≡ h) ⊎ (p ≡ r ∷ h)
        → s.projection ≡ projected c p
        → apply_pending_record c id io (line c (newest_event r h)) s ≡ (
          record { event = some (newest_event r h); failure = none },
          record s { projection = projected c (r ∷ h); pending = none },
        )
    unfolding apply_pending_record verify_state_references
    applies p s close projection =
        let (seen, verified, rest) = verified_lem id io r [] published.0 published.1 refl in
        let applied =
          ap (apply_canonical c id io (line c (newest_event r h))) projection
          ∙ apply_canonical-committed c id io r h good works.commits p close seen verified in
        rw (ap (λ x. x.0) applied, apply_pending_record)
          (rw (ap (λ x. x.1) applied) (rw (finish-line c r h good) refl))

    record_new-appends :
        (s : StateStore)
        → Represents c h h s
        → record_new c id io r s ≡ (
          record { event = some (newest_event r h); failure = none },
          record { journal = written c (r ∷ h); projection = projected c (r ∷ h); pending = none },
        )
    unfolding record_new append_record append_journal ◌>>=◌
    record_new-appends s rep =
        rw (ap (λ x. x.0) (refreshes h s rep published.2), record_new)
          (rw prepares (
            appended_lem io.appending works.appends _ _
            ∙ (rw (ap (λ x. x.1) (refreshes h s rep published.2))
                (applies h (record s { journal = written c (r ∷ h) }) (inl refl) rep.projection))))

    resolve_record-applies :
        (p : List Run) (s : StateStore)
        → Represents c (r ∷ h) p s
        → (p ≡ h) ⊎ (p ≡ r ∷ h)
        → resolve_record c id io r (line c (newest_event r h)) s ≡ (
          record { event = some (newest_event r h); failure = none },
          record s { projection = projected c (r ∷ h); pending = none },
        )
    unfolding resolve_record ◌>>=◌
    resolve_record-applies p s rep close =
        let n = sequence_of (r ∷ h) in
        rw (event_from_data-line c r n good.0 good.2 good.1, resolve_record)
          (rw prepares
            (rw (list_beq_self (line c (newest_event r h))) (applies p s close rep.projection)))

-- `Record` with a file system and a database that work, on a store with nothing pending and a
-- projection of the whole history, for a valid state of the run that the encoder is faithful to,
-- with published references and a number that does not wrap: it succeeds, returns the state under
-- the next number, adds its record to the journal once, without the torn record that was there,
-- and applies it to the projection.
pub record_state-succeeds :
    (c : Codec) (id : RunId) (io : Io) (state : Run) (h : List Run) (s : StateStore)
    → Works io
    → IsGood c (state ∷ h)
    → IsPublished id io (state ∷ h)
    → Represents c h h s
    → s.pending ≡ none
    → record_state c id io state s ≡ (
      record { event = some (newest_event state h); failure = none },
      record {
        journal = written c (state ∷ h);
        projection = projected c (state ∷ h);
        pending = none;
      },
    )
unfolding record_state
record_state-succeeds c id io state h s works good published rep idle =
    rw (resolves c id io state s none idle, record_state)
      (record_new-appends c id io works state h good published s rep)

-- The retry of a record that is in the journal and pending, for the same state, on a store that
-- holds the history with it, with a file system and a database that work and the references
-- published: it succeeds, returns the event that the journal holds already, adds nothing to the
-- journal and applies the record to the projection, if it was not applied.
pub record_state-retries :
    (c : Codec) (id : RunId) (io : Io) (state : Run) (h p : List Run) (s : StateStore)
    → Works io
    → IsGood c (state ∷ h)
    → IsPublished id io (state ∷ h)
    → Represents c (state ∷ h) p s
    → (p ≡ h) ⊎ (p ≡ state ∷ h)
    → s.pending ≡ some (line c (newest_event state h))
    → record_state c id io state s ≡ (
      record { event = some (newest_event state h); failure = none },
      record s { projection = projected c (state ∷ h); pending = none },
    )
unfolding record_state
record_state-retries c id io state h p s works good published rep close waits =
    rw (resolves c id io state s _ waits, record_state)
      (resolve_record-applies c id io works state h good published p s rep close)
