-- ===== src/Store/Journal/History.antt =====
-- internal/flows/impl_loop/store/state.go: the history that a journal holds, newest state first, and
-- scanning a journal as a replay of its history.
use mathlib.Core.List.{append_assoc, append-nil}
use stepan.Base.{
  ℕ, suc, ◌+◌, ◌≡◌, ◌≢◌, refl, sym, ◌∙◌, ap, Bool, true, false, some, List, [], ◌∷◌, ◌++◌, contains,
  is_empty, nat_eq, not, done, length, inc, arith, inl, inr,
}
use stepan.Run.{Run}
use stepan.Run.Validate.{Event, validate, event_valid}
use stepan.Store.Answer.{Answer, value, Io, ◌>>=◌, Answer-cases}
use stepan.Store.Codec.{Bytes, newline, Codec, Faithful, event_of, line, event_from_data}
use stepan.Store.Journal.{
  records, JournalContents, no_contents, scan_record, scan_records, scan_journal,
}
use stepan.Store.Journal.Lines.{records-fragment, records-line, length-append}

-- The sequence number of the newest state.
abbrev pub sequence_of : List Run → ℕ
sequence_of [] = 0
sequence_of (r ∷ h) = inc (sequence_of h)

abbrev pub newest_event : Run → List Run → Event
newest_event r h = event_of (inc (sequence_of h)) r

-- The bytes of a journal with a history, and the records in it.
abbrev pub written : Codec → List Run → Bytes
written c [] = []
written c (r ∷ h) = written c h ++ line c (newest_event r h)

abbrev pub encoded : Codec → List Run → List Bytes
encoded c [] = []
encoded c (r ∷ h) = encoded c h ++ c.encode (newest_event r h) ∷ []

-- The states are valid, the encoder is faithful to them, and the numbers have not wrapped.
abbrev pub IsGood : Codec → List Run → Type 0
IsGood c [] = Unit
IsGood c (r ∷ h) = Faithful c r × (validate r ≡ done) × (sequence_of (r ∷ h) ≢ 0) × IsGood c h

-- The callback on each event of a history, the oldest first.
abbrev pub replay : {S : Type 0} → Codec → (Bytes → Event → S → Answer S) → List Run → S → Answer S
replay c f [] s = value s
replay c f (r ∷ h) s = replay c f h s >>= λ s'. f (line c (newest_event r h)) (newest_event r h) s'

abbrev pub contents : Codec → List Run → JournalContents
contents c h = record {
  last_sequence = sequence_of h;
  valid_bytes = length (written c h);
  discard_tail = false;
}

pub event_of_valid :
    (n : ℕ) (r : Run) → n ≢ 0 → validate r ≡ done → event_valid (event_of n r) ≡ done
unfolding event_valid stepan.Base.◌>>=◌
event_of_valid n r positive valid = rw valid (ground arith)

event_from_data-some :
    (c : Codec) (d : Bytes) (e : Event)
    → c.decode d ≡ some e
    → event_valid e ≡ done
    → event_from_data c d ≡ value e
unfolding event_from_data ◌>>=◌
event_from_data-some c d e decodes valid = rw (decodes, event_from_data) (rw valid refl)

module _ (c : Codec) (r : Run) (n : ℕ) (f : Faithful c r) (positive : n ≢ 0)
    (valid : validate r ≡ done) where
  pub event_from_data-encode : event_from_data c (c.encode (event_of n r)) ≡ value (event_of n r)
  event_from_data-encode =
      event_from_data-some c _ _ (f.decodes n) (event_of_valid n r positive valid)

  pub event_from_data-line : event_from_data c (line c (event_of n r)) ≡ value (event_of n r)
  event_from_data-line =
      event_from_data-some c _ _ (f.decodes_line n) (event_of_valid n r positive valid)

pub records-written :
    (c : Codec) (h : List Run) (rest : Bytes)
    → IsGood c h
    → records (written c h ++ rest) ≡ (encoded c h ++ (records rest).0, (records rest).1)
records-written c [] rest good = refl
records-written c (r ∷ h) rest good =
    let e = newest_event r h in
    rw (append_assoc (written c h) (line c e) rest, append_assoc (c.encode e) (newline ∷ []) rest)
      (rw
        (
          records-written c h (c.encode e ++ newline ∷ rest) good.3,
          records-line (c.encode e) rest (good.0.plain (inc (sequence_of h))),
          append_assoc (encoded c h) (c.encode e ∷ []) (records rest).0,
        )
        refl)

module _ {S : Type 0} (c : Codec) (f : Bytes → Event → S → Answer S) where
  scan_records-append :
      (ds : List Bytes) (d : Bytes) (x : JournalContents × S)
      → scan_records c f (ds ++ d ∷ []) x ≡ (scan_records c f ds x >>= scan_record c f d)
  unfolding scan_records ◌>>=◌
  scan_records-append [] d x = elim (Answer-cases (scan_record c f d x)) [
    | inl (e, fails) ↦ rw fails refl
    | inr (y, ok) ↦ rw ok refl
  ]
  scan_records-append (d' ∷ ds) d x = elim (Answer-cases (scan_record c f d' x)) [
    | inl (e, fails) ↦ rw fails refl
    | inr (y, ok) ↦ rw ok (scan_records-append ds d y)
  ]

  scan_record-encode :
      (r : Run) (h : List Run) (s : S)
      → IsGood c (r ∷ h)
      → scan_record c f (c.encode (newest_event r h)) (contents c h, s) ≡ (
          f (line c (newest_event r h)) (newest_event r h) s >>= λ s'.
          value (contents c (r ∷ h), s'))
  unfolding scan_record
  scan_record-encode r h s good =
      let n = inc (sequence_of h) in
      rw
        (
          scan_record,
          good.0.not_empty n,
          event_from_data-encode c r n good.0 good.2 good.1,
          length-append (written c h) (line c (newest_event r h)),
        )
        (ground arith)

  scan_records-written :
      (h : List Run) (s : S)
      → IsGood c h
      → scan_records c f (encoded c h) (no_contents, s)
        ≡ (replay c f h s >>= λ s'. value (contents c h, s'))
  unfolding scan_records ◌>>=◌
  scan_records-written [] s good = refl
  scan_records-written (r ∷ h) s good =
      rw
        (
          scan_records-append (encoded c h) (c.encode (newest_event r h)) (no_contents, s),
          scan_records-written h s good.3,
        )
        (elim (Answer-cases (replay c f h s)) [
          | inl (e, fails) ↦ rw fails refl
          | inr (s', ok) ↦ rw ok (scan_record-encode r h s' good)
        ])

  -- Scanning a journal with a history is the replay of that history, oldest event first.
  pub scan_journal-replay :
      (io : Io) (h : List Run) (tail : Bytes) (s : S)
      → IsGood c h
      → contains tail newline ≡ false
      → io.readable ≡ true
      → scan_journal c io f (written c h ++ tail) s ≡ (
          replay c f h s >>= λ s'.
          value (record (contents c h) { discard_tail = not (is_empty tail) }, s'))
  unfolding scan_journal ◌>>=◌
  scan_journal-replay io h tail s good torn readable =
      rw (scan_journal, readable)
        (rw (records-written c h tail good, records-fragment tail torn)
          (rw (append-nil (encoded c h), scan_records-written h s good)
            (elim (Answer-cases (replay c f h s)) [
              | inl (e, fails) ↦ rw fails refl
              | inr (s', ok) ↦ rw ok refl
            ])))
