-- ===== src/Store/Recording/Pending.antt =====
-- internal/flows/impl_loop/store/state.go: a record that is in the journal is applied, now or later.

use stepan.Base.{
  ◌≡◌, ◌≢◌, ◌⊎◌, refl, Option, none, some, List, ◌∷◌, nat_eq, arith, inl, inr, Option-cases,
}
use stepan.Evidence.{RunId}
use stepan.Run.{Run}
use stepan.Run.Validate.{Event}
use stepan.Store.Answer.{StoreError, value, Io}
use stepan.Store.Codec.{Bytes, Codec, line, event_from_data}
use stepan.Store.Journal.History.{sequence_of, newest_event, IsGood, event_from_data-line}
use stepan.Store.Projection.{Projection, apply_canonical}
use stepan.Store.Projection.Rows.{projected, Applies, apply_canonical-next, apply_canonical-again}
use stepan.Store.Recording.{StateStore, Recorded, finish, event_with_error, apply_pending_record}
use stepan.Store.Recording.Consistent.{Represents, Phase, Consistent}

-- What a call that records `state` leaves: a store with a history that is in `Kept`. It returns an
-- event only with the state as the newest of the history, and a success only with the history in the
-- projection.
pub record Leaves (c : Codec) (Kept : List Run → Type 0) (state : Run) (x : Recorded × StateStore)
    : Type 0 where
  pub history : List Run
  pub kept : Kept history
  pub consistent : Consistent c history x.1
  pub named :
      (e : Event)
      → x.0.event ≡ some e
      → (older : List Run) × (history ≡ state ∷ older) × (e ≡ newest_event state older)
  pub confirmed :
      x.0.failure ≡ none
      → (x.1.pending ≡ none) × (x.1.projection ≡ projected c history) × (x.0.event ≢ none)

-- On a store with the history `h`: the history is kept, or the state is added to it.
abbrev pub IsGrown : List Run → Run → List Run → Type 0
IsGrown h state g = (g ≡ h) ⊎ (g ≡ state ∷ h)

abbrev pub Records : Codec → List Run → Run → Recorded × StateStore → Type 0
Records c h state x = Leaves c (IsGrown h state) state x

-- The same for the resolution of a pending record, which adds nothing.
abbrev pub Resolves : Codec → List Run → Run → Recorded × StateStore → Type 0
Resolves c h state x = Leaves c (λ g. g ≡ h) state x

pub Resolves-Records :
    (c : Codec) (h : List Run) (state : Run) (x : Recorded × StateStore)
    → Resolves c h state x
    → Records c h state x
Resolves-Records c h state x resolves = record {
  history = resolves.history;
  kept = inl resolves.kept;
  consistent = resolves.consistent;
  named = resolves.named;
  confirmed = resolves.confirmed;
}

module _ (c : Codec) (r : Run) (h : List Run) (good : IsGood c (r ∷ h)) where
  abbrev the_line : Bytes
  the_line = line c (newest_event r h)

  decoded : event_from_data c the_line ≡ value (newest_event r h)
  decoded = event_from_data-line c r (sequence_of (r ∷ h)) good.0 good.2 good.1

  pub finish-line : finish c the_line ≡ record { event = some (newest_event r h); failure = none }
  unfolding finish
  finish-line = rw (decoded, finish) refl

  pub event_with_error-line :
      (x : StoreError)
      → event_with_error c the_line x ≡ record { event = some (newest_event r h); failure = some x }
  unfolding event_with_error
  event_with_error-line x = rw (decoded, event_with_error) refl

  module _ (id : RunId) (io : Io) (p : List Run) (s : StateStore) (rep : Represents c (r ∷ h) p s)
      (behind : (p ≡ h) ⊎ (p ≡ r ∷ h)) where
    applies :
        Applies
          (projected c p)
          (projected c (r ∷ h))
          (apply_canonical c id io the_line s.projection)
    applies = rw rep.projection (elim behind [
      | inl shorter ↦ rw shorter (apply_canonical-next c id io r h good)
      | inr same ↦ rw same (apply_canonical-again c id io r h good)
    ])

    abbrev after : Option StoreError × Projection
    after = apply_canonical c id io the_line s.projection

    -- The journal is left alone.
    represents :
        (q : List Run) (pending : Option Bytes) (p' : Projection)
        → p' ≡ projected c q
        → Represents c (r ∷ h) q (record s { projection = p'; pending = pending })
    represents q pending p' e = record {
      good = good;
      tail = rep.tail;
      torn = rep.torn;
      journal = rep.journal;
      projection = e;
    }

    failed-Leaves :
        (Kept : List Run → Type 0)
        → Kept (r ∷ h)
        → (x : StoreError) (q : List Run) → (q ≡ h) ⊎ (q ≡ r ∷ h)
        → after.1 ≡ projected c q
        → Leaves c Kept r (
          record { event = some (newest_event r h); failure = some x },
          record s { projection = after.1; pending = some the_line },
        )
    failed-Leaves Kept kept x q behind' same = record {
      history = r ∷ h;
      kept = kept;
      consistent = record {
        behind = q;
        represents = represents q (some the_line) after.1 same;
        phase = Phase.unprojected r h refl behind' refl;
      };
      named = λ e same. (h, refl, ground arith);
      confirmed = λ e. cc;
    }

    -- The record stays in the history, and is no longer pending where the call succeeds.
    pub apply_pending_record-Leaves :
        (Kept : List Run → Type 0)
        → Kept (r ∷ h)
        → Leaves c Kept r (apply_pending_record c id io the_line s)
    unfolding apply_pending_record
    apply_pending_record-Leaves Kept kept =
        elim (Option-cases (apply_canonical c id io the_line s.projection).0) [
          | inl done ↦
              rw (done, apply_pending_record)
                (rw finish-line (record {
                  history = r ∷ h;
                  kept = kept;
                  consistent = record {
                    behind = r ∷ h;
                    represents = represents (r ∷ h) none _ (applies.applied done);
                    phase = Phase.clean refl refl;
                  };
                  named = λ e same. (h, refl, ground arith);
                  confirmed = λ _. (refl, applies.applied done, λ e. cc);
                }))
          | inr (x, failed) ↦
              rw (failed, apply_pending_record)
                (rw (event_with_error-line x) (elim applies.leaves [
                  | inl same ↦ failed-Leaves Kept kept x p behind same
                  | inr longer ↦ failed-Leaves Kept kept x (r ∷ h) (inr refl) longer
                ]))
        ]
