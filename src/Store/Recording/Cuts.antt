-- ===== src/Store/Recording/Cuts.antt =====
-- internal/flows/impl_loop/store/state.go: cutting off a torn record.

use mathlib.Core.List.{append-nil}
use stepan.Base.{
  ◌≡◌, refl, sym, ◌∙◌, false, Option, none, List, [], ◌++◌, not, nat_eq, contains, is_empty, length,
  take, inl, inr, Bool-cases,
}
use stepan.Evidence.{RunId}
use stepan.Run.{Run}
use stepan.Store.Answer.{StoreError, Io, Truncation}
use stepan.Store.Codec.{Bytes, newline, Codec}
use stepan.Store.Journal.{JournalContents, discard_journal_tail}
use stepan.Store.Journal.Lines.{take-length-append}
use stepan.Store.Journal.History.{written, contents}
use stepan.Store.Recording.{clean_journal}
use stepan.Store.Recording.Consistent.{empty_tail}

cut_lem :
    (c : Codec) (h : List Run) (tail journal : Bytes)
    → journal ≡ written c h ++ tail
    → take (length (written c h)) journal ≡ written c h
cut_lem c h tail journal same = rw same (take-length-append (written c h) tail)

-- What the discard of a torn record leaves: the torn record or nothing behind the history.
pub record Cut (c : Codec) (h : List Run) (x : Option StoreError × Bytes) : Type 0 where
  pub tail : Bytes
  pub torn : contains tail newline ≡ false
  pub journal : x.1 ≡ written c h ++ tail
  pub done : x.0 ≡ none → tail ≡ []

discard-Cut :
    (c : Codec) (h : List Run) (tail journal : Bytes) (t : Truncation)
    → contains tail newline ≡ false
    → journal ≡ written c h ++ tail
    → Cut c h (discard_journal_tail t (length (written c h)) journal)
unfolding discard_journal_tail
discard-Cut c h tail journal Truncation.refused torn same = record {
  tail = tail;
  torn = torn;
  journal = same;
  done = λ e. cc;
}
discard-Cut c h tail journal Truncation.unsynced torn same = record {
  tail = [];
  torn = refl;
  journal = cut_lem c h tail journal same ∙ sym (append-nil (written c h));
  done = λ e. refl;
}
discard-Cut c h tail journal Truncation.truncated torn same = record {
  tail = [];
  torn = refl;
  journal = cut_lem c h tail journal same ∙ sym (append-nil (written c h));
  done = λ e. refl;
}

module _ (c : Codec) (id : RunId) (io : Io) (h : List Run) (tail journal : Bytes)
    (torn : contains tail newline ≡ false) (same : journal ≡ written c h ++ tail) where
  pub clean-Cut :
      (j : JournalContents)
      → j ≡ record (contents c h) { discard_tail = not (is_empty tail) }
      → Cut c h (clean_journal io j journal)
  unfolding clean_journal
  clean-Cut j measured =
      rw (measured, clean_journal)
        (elim (Bool-cases (not (is_empty tail))) [
          | inl more ↦ rw more (discard-Cut c h tail journal io.truncation torn same)
          | inr whole ↦ rw whole (record {
            tail = tail;
            torn = torn;
            journal = same;
            done = λ e. empty_tail tail whole;
          })
        ])
