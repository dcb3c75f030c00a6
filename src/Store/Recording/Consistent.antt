-- ===== src/Store/Recording/Consistent.antt =====
-- internal/flows/impl_loop/store/state.go: what the disk and a handle hold of a history.
use mathlib.Core.List.{append-nil}
use stepan.Base.{
  ℕ, ◌≡◌, ◌⊎◌, refl, ◌∙◌, false, Option, none, some, List, [], ◌∷◌, ◌++◌, not, nat_eq, contains,
  is_empty, take, length, arith, inl, inr, Bool-cases,
}
use stepan.Evidence.{RunId}
use stepan.Run.{Run}
use stepan.Store.Answer.{Answer, value, Io, Answer-cases, ◌>>=◌}
use stepan.Store.Codec.{Bytes, newline, Codec, line}
use stepan.Store.Journal.{
  JournalContents, scan_journal, validate_journal, verify_event, discard_journal_tail,
}
use stepan.Store.Journal.Lines.{take-length-append}
use stepan.Store.Journal.History.{
  sequence_of, newest_event, written, IsGood, replay, contents, scan_journal-replay,
}
use stepan.Store.Projection.Rows.{projected, last_applied-projected}
use stepan.Store.Recording.{StateStore, clean_journal, refresh_clean_sequence}

-- The journal holds the history `h`, perhaps with a torn record behind it, and the projection holds
-- the history `p`.
pub record Represents (c : Codec) (h p : List Run) (s : StateStore) : Type 0 where
  pub good : IsGood c h
  pub tail : Bytes
  pub torn : contains tail newline ≡ false
  pub journal : s.journal ≡ written c h ++ tail
  pub projection : s.projection ≡ projected c p

-- How far the projection is behind the journal, and what the handle knows of it.
pub data Phase (c : Codec) (h p : List Run) (pending : Option Bytes) : Type 0 where
  clean : h ≡ p → pending ≡ none → Phase c h p pending
  unprojected :
      (r : Run) (older : List Run)
      → h ≡ r ∷ older
      → (p ≡ older) ⊎ (p ≡ r ∷ older)
      → pending ≡ some (line c (newest_event r older))
      → Phase c h p pending
  stranded :
      (r : Run) (older : List Run)
      → h ≡ r ∷ older
      → p ≡ older
      → pending ≡ none
      → Phase c h p pending

-- The states that the store has recorded, the newest first.
pub record Consistent (c : Codec) (h : List Run) (s : StateStore) : Type 0 where
  pub behind : List Run
  pub represents : Represents c h behind s
  pub phase : Phase c h behind s.pending

module _ (c : Codec) (id : RunId) (io : Io) (h : List Run) (tail : Bytes) (good : IsGood c h)
    (torn : contains tail newline ≡ false) where
  -- What a validation that succeeds has measured.
  pub validate_journal-contents :
      (j : JournalContents)
      → validate_journal c id io (written c h ++ tail) ≡ value j
      → j ≡ record (contents c h) { discard_tail = not (is_empty tail) }
  unfolding validate_journal ◌>>=◌
  validate_journal-contents j valid = elim (Bool-cases io.readable) [
    | inr unreadable ↦ absurd (unfold scan_journal in ground arith)
    | inl readable ↦ elim (Answer-cases (replay c (verify_event id io) h [])) [
      | inl (x, fails) ↦ absurd (
          ground
            (arith, scan_journal-replay c (verify_event id io) io h tail [] good torn readable))
      | inr (seen, ok) ↦
          ground (arith, scan_journal-replay c (verify_event id io) io h tail [] good torn readable)
    ]
  ]

-- What `refreshCleanSequence` does to a journal: it may cut the torn record, and it succeeds only
-- where the projection is as long as the journal.
pub record Refreshed (c : Codec) (h p : List Run) (journal : Bytes) (x : Answer ℕ × Bytes)
    : Type 0 where
  pub left : (x.1 ≡ journal) ⊎ (x.1 ≡ written c h)
  pub ok :
      (n : ℕ)
      → x.0 ≡ value n
      → (n ≡ sequence_of h) × (x.1 ≡ written c h) × (sequence_of p ≡ sequence_of h)

pub empty_tail : (t : Bytes) → not (is_empty t) ≡ false → t ≡ []
empty_tail [] h = refl
empty_tail (b ∷ t) h = cc

module _ (c : Codec) (id : RunId) (io : Io) (h p : List Run) (s : StateStore)
    (rep : Represents c h p s) where
  cut-written : take (length (written c h)) s.journal ≡ written c h
  cut-written = rw rep.journal (take-length-append (written c h) rep.tail)

  whole-written : not (is_empty rep.tail) ≡ false → s.journal ≡ written c h
  whole-written e = rep.journal ∙ rw (empty_tail rep.tail e) (append-nil (written c h))

  pub refresh-Refreshed : Refreshed c h p s.journal (refresh_clean_sequence c id io s)
  unfolding refresh_clean_sequence clean_journal discard_journal_tail
  refresh-Refreshed = elim (Answer-cases (validate_journal c id io s.journal)) [
    | inl (x, fails) ↦ record { left = ground arith; ok = λ n e. ground arith }
    | inr (j, ok) ↦
        let measured =
          validate_journal-contents c id io h rep.tail rep.good rep.torn j
            (rw (← rep.journal) ok) in
        let last = last_applied-projected c p in
        record {
          left = ground (arith, cut-written, rep.projection);
          ok = λ n e. ground (arith, cut-written, whole-written, rep.projection);
        }
  ]
