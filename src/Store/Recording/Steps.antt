-- ===== src/Store/Recording/Steps.antt =====
-- internal/flows/impl_loop/store/state.go: the steps of `Record` on a store with a history.
use mathlib.Core.List.{append-nil}
use stepan.Base.{
  ℕ, zero, suc, ◌≡◌, ◌≢◌, ◌⊎◌, refl, sym, ◌∙◌, ap, Bool, true, false, Option, none, some, List, [],
  ◌∷◌, ◌++◌, ◌==◌, ◌!=◌, not, nat_eq, contains, is_empty, take, length, arith, inl, inr, Bool-cases,
  Option-cases, inc, list_beq, done, ok, Result-cases, Result, err,
}
use stepan.Evidence.{RunId}
use stepan.Run.{Run}
use stepan.Run.Validate.{Event, validate, new_run_state_event}
use stepan.Run.Validate.Events.{clone_run-stable}
use stepan.Store.Answer.{StoreError, Answer, value, Io, Appending, of_run, Answer-cases, ◌>>=◌}
use stepan.Store.Codec.{Bytes, newline, Codec, Faithful, json_copy, line, event_of, marshal_event}
use stepan.Store.References.{verify_state_references}
use stepan.Store.Journal.Lines.{take-line}
use stepan.Store.Journal.History.{sequence_of, newest_event, written, IsGood, event_from_data-line}
use stepan.Store.Projection.Rows.{projected, list_beq-eq}
use stepan.Store.Recording.{StateStore, refuse, resolve_record, append_record}
use stepan.Store.Recording.Consistent.{Represents, Phase, Consistent}
use stepan.Store.Recording.Pending.{
  Leaves, IsGrown, Records, Resolves, apply_pending_record-Leaves, event_with_error-line,
}

new_event_lem :
    (c : Codec) (n : ℕ) (r : Run) (e : Event)
    → Faithful c r
    → new_run_state_event (json_copy c) n r ≡ ok e
    → (e ≡ event_of n r) × (validate r ≡ done) × (n ≢ 0)
unfolding new_run_state_event stepan.Base.◌>>=◌
new_event_lem c n r e faithful made = elim (Result-cases (validate r)) [
  | inl (f, fails) ↦ absurd (ground arith)
  | inr (u, valid) ↦
      let cloned = clone_run-stable (json_copy c) r faithful.decodes_run valid in
      (ground (arith, cloned), valid, ground arith)
]

marshal_lem : (c : Codec) (e : Event) (d : Bytes) → marshal_event c e ≡ value d → d ≡ line c e
unfolding marshal_event ◌>>=◌
marshal_lem c e d made = ground arith

-- The bytes that a call prepares for a state under a number.
abbrev pub prepared : Codec → RunId → Io → Run → ℕ → Answer Bytes
prepared c id io state n = verify_state_references id io (some state) >>= λ _.
    of_run (new_run_state_event (json_copy c) n state) >>= λ e. marshal_event c e

pub prepared_lem :
    (c : Codec) (id : RunId) (io : Io) (state : Run) (n : ℕ) (d : Bytes)
    → Faithful c state
    → prepared c id io state n ≡ value d
    → (d ≡ line c (event_of n state)) × (validate state ≡ done) × (n ≢ 0)
unfolding ◌>>=◌
prepared_lem c id io state n d faithful made =
    elim (Result-cases (new_run_state_event (json_copy c) n state)) [
      | inl (f, fails) ↦ absurd (ground arith)
      | inr (e, makes) ↦
          let (same, valid, positive) = new_event_lem c n state e faithful makes in
          (ground (arith, marshal_lem c e d), valid, positive)
    ]

-- Nothing is recorded, and the store is as consistent as it was.
pub refused-Leaves :
    (c : Codec) (h : List Run) (Kept : List Run → Type 0)
    → Kept h
    → (state : Run) (x : StoreError) (s : StateStore) → Consistent c h s
    → Leaves c Kept state (refuse x, s)
refused-Leaves c h Kept kept state x s consistent = record {
  history = h;
  kept = kept;
  consistent = consistent;
  named = λ e h. cc;
  confirmed = λ e. cc;
}

pub refused-Records :
    (c : Codec) (h : List Run) (state : Run) (x : StoreError) (s : StateStore)
    → Consistent c h s
    → Records c h state (refuse x, s)
refused-Records c h state = refused-Leaves c h (IsGrown h state) (inl refl) state

same_state :
    (c : Codec) (n : ℕ) (state r : Run)
    → Faithful c state
    → Faithful c r
    → line c (event_of n state) ≡ line c (event_of n r)
    → state ≡ r
same_state c n state r f g same =
    ground (arith, f.decodes_line n, g.decodes_line n, ap c.decode same)

module _ (c : Codec) (id : RunId) (io : Io) (state : Run) (faithful : Faithful c state) where
  module _ (r : Run) (older p : List Run) (s : StateStore) (rep : Represents c (r ∷ older) p s)
      (behind : (p ≡ older) ⊎ (p ≡ r ∷ older))
      (waits : s.pending ≡ some (line c (newest_event r older))) where
    waiting : Consistent c (r ∷ older) s
    waiting = record {
      behind = p;
      represents = rep;
      phase = Phase.unprojected r older refl behind waits;
    }

    -- A pending record is either applied, for the state that it holds, or left alone.
    pub resolve_record-Resolves :
        Resolves c
          (r ∷ older)
          state
          (resolve_record c id io state (line c (newest_event r older)) s)
    unfolding resolve_record ◌>>=◌
    resolve_record-Resolves =
        let n = sequence_of (r ∷ older) in
        let good = rep.good in
        rw (event_from_data-line c r n good.0 good.2 good.1, resolve_record)
          (elim (Answer-cases (prepared c id io state n)) [
            | inl (x, fails) ↦
                rw fails (refused-Leaves c (r ∷ older) (λ g. g ≡ r ∷ older) refl state x s waiting)
            | inr (d, made) ↦
                rw made (elim (Bool-cases (list_beq d (line c (newest_event r older)))) [
                  | inr differs ↦ rw differs (
                      refused-Leaves c (r ∷ older) (λ g. g ≡ r ∷ older) refl state
                        StoreError.pending_event s waiting)
                  | inl agrees ↦
                      let bytes = (prepared_lem c id io state n d faithful made).0 in
                      let same =
                        same_state c n state r faithful good.0
                          (sym bytes ∙ list_beq-eq d (line c (newest_event r older)) agrees) in
                      rw agrees (
                        rw same (
                          apply_pending_record-Leaves c r older good id io p s rep behind
                            (λ g. g ≡ r ∷ older) refl))
                ])
          ])

  module _ (h p : List Run) (s : StateStore) (rep : Represents c h p s) where
    -- The journal after a refresh still holds the history.
    pub refreshed :
        (journal : Bytes)
        → (journal ≡ s.journal) ⊎ (journal ≡ written c h)
        → Represents c h p (record s { journal = journal })
    refreshed journal (inl same) = record {
      good = rep.good;
      tail = rep.tail;
      torn = rep.torn;
      journal = same ∙ rep.journal;
      projection = rep.projection;
    }
    refreshed journal (inr cut) = record {
      good = rep.good;
      tail = [];
      torn = refl;
      journal = cut ∙ sym (append-nil (written c h));
      projection = rep.projection;
    }

  -- The append, after a refresh that has found the projection as long as the journal.
  module _ (h : List Run) (s : StateStore) (good : IsGood c (state ∷ h))
      (journal : s.journal ≡ written c h) (projection : s.projection ≡ projected c h)
      (idle : s.pending ≡ none) where
    -- The store with another journal: the history and the torn record behind it.
    grown :
        (g : List Run) (tail journal' : Bytes)
        → IsGood c g
        → contains tail newline ≡ false
        → journal' ≡ written c g ++ tail
        → Represents c g h (record s { journal = journal' })
    grown g tail journal' fine torn same = record {
      good = fine;
      tail = tail;
      torn = torn;
      journal = same;
      projection = projection;
    }

    refused_clean :
        (tail journal' : Bytes)
        → contains tail newline ≡ false
        → journal' ≡ written c h ++ tail
        → Records c h state (refuse StoreError.io, record s { journal = journal' })
    refused_clean tail journal' torn same = refused-Records c h state StoreError.io _ (record {
      behind = h;
      represents = grown h tail journal' good.3 torn same;
      phase = Phase.clean refl idle;
    })

    whole_line :
        (journal' : Bytes)
        → journal' ≡ written c (state ∷ h)
        → Represents c (state ∷ h) h (record s { journal = journal' })
    whole_line journal' same =
        grown (state ∷ h) [] journal' good refl (same ∙ sym (append-nil (written c (state ∷ h))))

    after_append : Bytes → StateStore
    after_append journal' = record s { journal = journal' }

    pub append_record-Records :
        (a : Appending)
        → Records c h state (append_record a c id io (line c (newest_event state h)) s)
    unfolding append_record
    append_record-Records Appending.refused =
        refused_clean [] s.journal refl (journal ∙ sym (append-nil (written c h)))
    append_record-Records (Appending.torn n) =
        elim (take-line n (c.encode (newest_event state h)) (good.0.plain _)) [
          | inl part ↦
              refused_clean _ _ part (ap (λ j. j ++ take n (line c (newest_event state h))) journal)
          | inr whole ↦ record {
            history = state ∷ h;
            kept = inr refl;
            consistent = record {
              behind = h;
              represents = whole_line _ (rw (whole, journal) refl);
              phase = Phase.stranded state h refl refl idle;
            };
            named = λ e h. cc;
            confirmed = λ e. cc;
          }
        ]
    append_record-Records Appending.unclosed =
        rw (event_with_error-line c state h good StoreError.io) (record {
          history = state ∷ h;
          kept = inr refl;
          consistent = record {
            behind = h;
            represents = record {
              good = good;
              tail = [];
              torn = refl;
              journal =
                  (ap (λ j. j ++ line c (newest_event state h)) journal)
                  ∙ sym (append-nil (written c (state ∷ h)));
              projection = projection;
            };
            phase = Phase.unprojected state h refl (inl refl) refl;
          };
          named = λ e same. (h, refl, ground arith);
          confirmed = λ e. cc;
        })
    append_record-Records Appending.appended =
        apply_pending_record-Leaves c state h good id io h _
          (whole_line _ (ap (λ j. j ++ line c (newest_event state h)) journal)) (inl refl)
          (IsGrown h state) (inr refl)
