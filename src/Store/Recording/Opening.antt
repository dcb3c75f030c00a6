-- ===== src/Store/Recording/Opening.antt =====
-- internal/flows/impl_loop/store/state.go: a store can be opened again.
use mathlib.Core.List.{append-nil}
use stepan.Base.{
  ℕ, ◌<◌, ◌≡◌, refl, sym, ◌∙◌, ap, Bool, true, Option, none, some, List, [], ◌∷◌, ◌++◌, not, nat_eq,
  is_empty, length, lookup, arith, inl, inr, Bool-cases,
}
use stepan.Evidence.{RunId}
use stepan.Run.{Run}
use stepan.Run.Validate.{Event}
use stepan.Store.Answer.{value, Io, Truncation, Publishing, ◌>>=◌}
use stepan.Store.Codec.{Bytes, Codec, line}
use stepan.Store.References.{verify_state_references}
use stepan.Store.References.Published.{IsPublished, verified_lem}
use stepan.Store.Journal.{JournalContents, scan_journal, validate_journal}
use stepan.Store.Journal.History.{
  sequence_of, newest_event, written, IsGood, replay, contents, scan_journal-replay,
}
use stepan.Store.Projection.{
  Projection, empty_projection, match_event, replay_event, projection_matches,
}
use stepan.Store.Projection.Rows.{
  rows, projected, sequence-suc, list_beq_self, apply_canonical-committed,
}
use stepan.Store.Recording.{
  StateStore, clean_journal, publish_projection, rebuild_projection, open_state,
}
use stepan.Store.Recording.Consistent.{Consistent}
use stepan.Store.Recording.Progress.{Works, validates, cleans}
use stepan.Store.Recording.Matches.{length-rows}

-- The table has a row for every event of the history.
abbrev Holds : Codec → List (ℕ × Bytes) → List Run → Type 0
Holds c table [] = Unit
Holds c table (r ∷ h) =
    (lookup (sequence_of (r ∷ h)) table ≡ some (line c (newest_event r h))) × Holds c table h

Holds-newer :
    (c : Codec) (table : List (ℕ × Bytes)) (n : ℕ) (d : Bytes) (h : List Run)
    → IsGood c h
    → sequence_of h < n
    → Holds c table h
    → Holds c ((n, d) ∷ table) h
Holds-newer c table n d [] good newer held = tt
Holds-newer c table n d (r ∷ h) good newer held = (
  ground (arith, held.0),
  Holds-newer c table n d h good.3 (omega (arith, newer, sequence-suc r h good.2)) held.1,
)

rows-Holds : (c : Codec) (h : List Run) → IsGood c h → Holds c (rows c h) h
rows-Holds c [] good = tt
rows-Holds c (r ∷ h) good = (
  ground arith,
  Holds-newer c (rows c h) _ _ h good.3 (omega (arith, sequence-suc r h good.2))
      (rows-Holds c h good.3),
)

abbrev last_event : List Run → Option Event
last_event [] = none
last_event (r ∷ h) = some (newest_event r h)

replay-match_event :
    (c : Codec) (p : Projection) (h : List Run)
    → Holds c p.applied h
    → replay c (match_event p) h (0, none) ≡ value (length h, last_event h)
unfolding ◌>>=◌
replay-match_event c p [] held = refl
replay-match_event c p (r ∷ h) held =
    rw (replay-match_event c p h held.1)
      (ground (arith, held.0, list_beq_self (line c (newest_event r h))))

module _ (c : Codec) (id : RunId) (io : Io) (works : Works io) where
  scans :
      (h : List Run)
      → IsGood c h
      → scan_journal c io (match_event (projected c h)) (written c h ++ []) (0, none)
        ≡ value (contents c h, (length h, last_event h))
  unfolding ◌>>=◌
  scans h good =
      rw
        (scan_journal-replay c (match_event (projected c h)) io h [] (0, none) good refl
          works.readable)
        (rw (replay-match_event c (projected c h) h (rows-Holds c h good)) refl)

  -- The projection of a history matches the journal that holds the history.
  matches-projected :
      (h : List Run)
      → IsGood c h
      → projection_matches c io (written c h ++ []) (projected c h) ≡ true
  unfolding projection_matches
  matches-projected [] good = ground (arith, scans [] good, works.commits)
  matches-projected (r ∷ h) good =
      ground
        (arith, scans (r ∷ h) good, works.commits, length-rows c h, list_beq_self (c.encode_run r))

  replay-replay_event :
      (h : List Run)
      → IsGood c h
      → IsPublished id io h
      → replay c (replay_event c id io) h empty_projection ≡ value (projected c h)
  unfolding ◌>>=◌ verify_state_references
  replay-replay_event [] good published = refl
  replay-replay_event (r ∷ h) good published =
      let (seen, verified, rest) = verified_lem id io r [] published.0 published.1 refl in
      let applied =
        apply_canonical-committed c id io r h good works.commits h (inl refl) seen verified in
      rw (replay-replay_event h good.3 published.2) (ground (arith, applied))

  rebuilds :
      (h : List Run) (torn : Bool) (s : StateStore)
      → IsGood c h
      → IsPublished id io h
      → s.journal ≡ written c h ++ []
      → rebuild_projection c id io Publishing.published
          (record (contents c h) { discard_tail = torn })
          s
        ≡ (none, record s { projection = projected c h })
  unfolding rebuild_projection publish_projection ◌>>=◌
  rebuilds h torn s good published journal =
      let scan =
        ap (λ (j : Bytes). scan_journal c io (replay_event c id io) j empty_projection) journal
        ∙ scan_journal-replay c (replay_event c id io) io h [] empty_projection good refl
            works.readable in
      let fits =
        ap (λ (j : Bytes). projection_matches c io j (projected c h)) journal
        ∙ matches-projected h good in
      rw (scan, rebuild_projection)
        (rw (replay-replay_event h good published) (ground (arith, fits, works.commits)))

-- `OpenState` on what any store with a history has left, where the journal can be read and truncated
-- and the references of the history are published: it succeeds, whatever the old database answers, if
-- the file system and the new database work while the projection is rebuilt.
pub open_state-succeeds :
    (c : Codec) (id : RunId) (io io' : Io) (h : List Run) (s : StateStore)
    → io.readable ≡ true
    → io.truncation ≡ Truncation.truncated
    → IsPublished id io h
    → Works io'
    → IsPublished id io' h
    → Consistent c h s
    → (open_state c id io io' Publishing.published s).0 ≡ none
unfolding open_state
open_state-succeeds c id io io' h s readable truncates published works published' holds =
    let rep = holds.represents in
    let valid =
      ap (validate_journal c id io) rep.journal
      ∙ validates c id io h rep.tail readable rep.good rep.torn published in
    let cut = cleans c id io h rep.tail s.journal truncates rep.journal in
    let measured : JournalContents = record (contents c h) {
      discard_tail = not (is_empty rep.tail);
    } in
    rw (valid, open_state)
      (rw (ap (λ x. x.0) cut)
        (elim (Bool-cases
          (projection_matches c io (clean_journal io measured s.journal).1 s.projection)) [
            | inl fits ↦ rw fits refl
            | inr differs ↦ rw differs (
                ap (λ x. x.0)
                  (rebuilds c id io' works h (not (is_empty rep.tail)) _ rep.good published'
                    (ap (λ x. x.1) cut ∙ sym (append-nil (written c h)))))
          ]))
