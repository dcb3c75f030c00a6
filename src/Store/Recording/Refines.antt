-- ===== src/Store/Recording/Refines.antt =====
-- internal/flows/impl_loop/store/state.go: `Record` refines a history that only grows.
use stepan.Base.{◌≡◌, sym, ◌∙◌, ap, some, none, Option, List, ◌∷◌, arith, inl, inr, inc}
use mathlib.Core.Path.{subst}
use stepan.Evidence.{RunId}
use stepan.Run.{Run}
use stepan.Store.Answer.{Io, Answer-cases, ◌>>=◌}
use stepan.Store.Codec.{Bytes, Codec, Faithful, line}
use stepan.Store.Journal.History.{sequence_of, newest_event, IsGood}
use stepan.Store.Projection.Rows.{projected, sequence-suc}
use stepan.Store.Recording.{
  StateStore, Recorded, refresh_clean_sequence, resolve_pending, resolve_record, record_new,
  record_state,
}
use stepan.Store.Recording.Consistent.{Represents, Phase, Consistent, refresh-Refreshed, Refreshed}
use stepan.Store.Recording.Pending.{Records, Resolves, Resolves-Records}
use stepan.Store.Recording.Steps.{
  refused-Records, resolve_record-Resolves, refreshed, append_record-Records, prepared,
  prepared_lem,
}

module _ (c : Codec) (id : RunId) (io : Io) (state : Run) (faithful : Faithful c state)
    (h p : List Run) (s : StateStore) (rep : Represents c h p s) (idle : s.pending ≡ none) where
  -- With nothing pending, the projection has the length of the journal only if it is its projection.
  caught_up : Phase c h p s.pending → sequence_of p ≡ sequence_of h → p ≡ h
  caught_up (Phase.clean same none_pending) e = sym same
  caught_up (Phase.unprojected r older grown behind waits) e = cc (waits, idle)
  caught_up (Phase.stranded r older grown behind none_pending) e =
      let good : IsGood c (r ∷ older) = subst (IsGood c) grown rep.good in
      absurd
        (omega (arith, sequence-suc r older good.2, e, ap sequence_of grown, ap sequence_of behind))

  refresh_left : Refreshed c h p s.journal (refresh_clean_sequence c id io s)
  refresh_left = refresh-Refreshed c id io h p s rep

  record_new-Records : Phase c h p s.pending → Records c h state (record_new c id io state s)
  unfolding record_new ◌>>=◌
  record_new-Records phase =
      let x = refresh_clean_sequence c id io s in
      elim (Answer-cases x.0) [
        | inl (e, fails) ↦
            rw (fails, record_new)
              (refused-Records c h state e _ (record {
                behind = p;
                represents = refreshed c id io state faithful h p s rep x.1 refresh_left.left;
                phase = phase;
              }))
        | inr (n, ok) ↦
            let (last, journal, length) = refresh_left.ok n ok in
            elim (Answer-cases (prepared c id io state (inc n))) [
              | inl (e, fails) ↦
                  rw (ok, record_new)
                    (rw fails (
                      refused-Records c h state e _ (record {
                        behind = p;
                        represents =
                            refreshed c id io state faithful h p s rep x.1 refresh_left.left;
                        phase = phase;
                      })))
              | inr (d, made) ↦
                  let (bytes, valid, positive) =
                    prepared_lem c id io state (inc n) d faithful made in
                  let up = caught_up phase length in
                  rw (ok, record_new)
                    (rw made (
                      rw (bytes, last)
                        (append_record-Records c id io state faithful h (record s { journal = x.1 })
                          (faithful, valid, (rw (← last) positive), rep.good) journal
                          (rep.projection ∙ ap (projected c) up) idle io.appending)))
            ]
      ]

module _ (c : Codec) (id : RunId) (io : Io) (state : Run) (s : StateStore) where
  abbrev pub on_pending : Option Bytes → Option (Recorded × StateStore)
  on_pending none = none
  on_pending (some d) = some (resolve_record c id io state d s)

  pub resolves : (q : Option Bytes) → s.pending ≡ q → resolve_pending c id io state s ≡ on_pending q
  unfolding resolve_pending
  resolves none e =
      ap
        (λ (x : Option Bytes). elim x [
          | none ↦ none
          | some d ↦ some (resolve_record c id io state d s)
        ])
        e
  resolves (some d) e =
      ap
        (λ (x : Option Bytes). elim x [
          | none ↦ none
          | some d ↦ some (resolve_record c id io state d s)
        ])
        e

-- The resolution of a pending record, by `Record` or before the start of an attempt.
pub resolved-Resolves :
    (c : Codec) (id : RunId) (io : Io) (state : Run) (h : List Run) (s : StateStore)
    → Faithful c state
    → Consistent c h s
    → (x : Recorded × StateStore) → resolve_pending c id io state s ≡ some x
    → Resolves c h state x
resolved-Resolves c id io state h s faithful holds x resolved = elim holds.phase [
  | Phase.clean same idle ↦ absurd (ground (arith, resolves c id io state s none idle, resolved))
  | Phase.stranded r older grown behind idle ↦
      absurd (ground (arith, resolves c id io state s none idle, resolved))
  | Phase.unprojected r older grown behind waits ↦
      let same : x ≡ resolve_record c id io state (line c (newest_event r older)) s =
        ground (arith, resolves c id io state s _ waits, resolved) in
      rw same (
        subst
          (λ g. Resolves c g state (resolve_record c id io state (line c (newest_event r older)) s))
          (sym grown)
          (resolve_record-Resolves c id io state faithful r older holds.behind s
            (subst (λ g. Represents c g holds.behind s) grown holds.represents) behind waits))
]

-- `Record`, on a store that holds a history and for a state that the encoder is faithful to, under
-- whatever the file system and the database answer: the store still holds that history, or the
-- history with the state added once. An event is returned only with the state as the newest of the
-- history, under the number of that event, and a call without an error leaves nothing pending and
-- the projection of the whole history.
pub record_state-Records :
    (c : Codec) (id : RunId) (io : Io) (state : Run) (h : List Run) (s : StateStore)
    → Faithful c state
    → Consistent c h s
    → Records c h state (record_state c id io state s)
unfolding record_state
record_state-Records c id io state h s faithful holds = elim holds.phase [
  | Phase.clean same idle ↦
      rw (resolves c id io state s none idle, record_state)
        (record_new-Records c id io state faithful h holds.behind s holds.represents idle
          holds.phase)
  | Phase.stranded r older grown behind idle ↦
      rw (resolves c id io state s none idle, record_state)
        (record_new-Records c id io state faithful h holds.behind s holds.represents idle
          holds.phase)
  | Phase.unprojected r older grown behind waits ↦
      rw (resolves c id io state s _ waits, record_state)
        (Resolves-Records c h state _
          (resolved-Resolves c id io state h s faithful holds _ (resolves c id io state s _ waits)))
]
