-- ===== src/Store/Recording/Reopens.antt =====
-- internal/flows/impl_loop/store/state.go: opening a store again keeps its history.
use mathlib.Core.Path.{subst}
use mathlib.Core.List.{append-nil}
use stepan.Base.{
  ◌≡◌, ◌⊎◌, refl, sym, ◌∙◌, ap, true, false, Option, none, some, List, [], ◌∷◌, ◌++◌, ◌!=◌, ◌||◌,
  nat_eq, contains, length, arith, inl, inr, Bool-cases, Option-cases,
}
use stepan.Evidence.{RunId}
use stepan.Run.{Run}
use stepan.Store.Answer.{StoreError, Io, Publishing, Answer-cases}
use stepan.Store.Codec.{Bytes, newline, Codec}
use stepan.Store.Journal.{JournalContents, scan_journal, validate_journal}
use stepan.Store.Journal.History.{written, IsGood}
use stepan.Store.Projection.{
  Projection, empty_projection, replay_event, projection_matches, is_unreachable,
}
use stepan.Store.Projection.Rows.{projected}
use stepan.Store.Recording.{
  StateStore, clean_journal, publish_projection, rebuild_projection, open_state,
}
use stepan.Store.Recording.Consistent.{Phase, Consistent, validate_journal-contents}
use stepan.Store.Recording.Matches.{length-rows, matches-length, rebuilt-projected}
use stepan.Store.Recording.Cuts.{clean-Cut}

-- A projection that is at most one state behind.
abbrev IsClose : List Run → List Run → Type 0
IsClose h p = (h ≡ p) ⊎ ((r : Run) × (h ≡ r ∷ p))

close-length : (h p : List Run) → IsClose h p → length p ≡ length h → p ≡ h
close-length h p (inl same) e = sym same
close-length h p (inr (r, longer)) e = absurd (omega (arith, ap length longer))

Phase-IsClose :
    (c : Codec) (h p : List Run) (pending : Option Bytes) → Phase c h p pending → IsClose h p
Phase-IsClose c h p pending (Phase.clean same idle) = inl same
Phase-IsClose c h p pending (Phase.unprojected r older grown (inl behind) waits) =
    inr (r, grown ∙ ap (λ t. r ∷ t) (sym behind))
Phase-IsClose c h p pending (Phase.unprojected r older grown (inr even) waits) =
    inl (grown ∙ sym even)
Phase-IsClose c h p pending (Phase.stranded r older grown behind idle) =
    inr (r, grown ∙ ap (λ t. r ∷ t) (sym behind))

-- What an opening leaves: the history, and on success a clean store.
pub record Reopens (c : Codec) (h : List Run) (x : Option StoreError × StateStore) : Type 0 where
  pub consistent : Consistent c h x.1
  pub forgotten : x.1.pending ≡ none
  pub opened : x.0 ≡ none → (x.1.journal ≡ written c h) × (x.1.projection ≡ projected c h)

close-Phase : (c : Codec) (h p : List Run) → IsClose h p → Phase c h p none
close-Phase c h p (inl same) = Phase.clean same refl
close-Phase c h p (inr (r, longer)) = Phase.stranded r p longer refl refl

module _ (c : Codec) (id : RunId) (io : Io) (h : List Run) (good : IsGood c h) where
  -- A store with nothing pending, a whole or torn journal, and a projection that is close.
  settled :
      (p : List Run) (tail : Bytes) (s : StateStore) (x : Option StoreError)
      → IsClose h p
      → contains tail newline ≡ false
      → s.journal ≡ written c h ++ tail
      → s.projection ≡ projected c p
      → s.pending ≡ none
      → (x ≡ none → (tail ≡ []) × (p ≡ h))
      → Reopens c h (x, s)
  settled p tail s x close torn journal projection idle fine = record {
    consistent = record {
      behind = p;
      represents = record {
        good = good;
        tail = tail;
        torn = torn;
        journal = journal;
        projection = projection;
      };
      phase = subst (Phase c h p) (sym idle) (close-Phase c h p close);
    };
    forgotten = idle;
    opened = λ e. (
      journal ∙ rw (fine e).0 (append-nil (written c h)),
      projection ∙ ap (projected c) (fine e).1,
    );
  }

  -- The replacement is the projection of the history.
  replaced :
      (s : StateStore) (q : Projection) (x : Option StoreError)
      → s.journal ≡ written c h ++ []
      → q ≡ projected c h
      → s.pending ≡ none
      → Reopens c h (x, record s { projection = q })
  replaced s q x journal whole idle =
      settled h [] (record s { projection = q }) x (inl refl) refl journal whole idle
        (λ e. (refl, refl))

  publish-Reopens :
      (publishing : Publishing) (p : List Run) (s : StateStore) (q : Projection)
      → IsClose h p
      → s.journal ≡ written c h ++ []
      → s.projection ≡ projected c p
      → s.pending ≡ none
      → q ≡ projected c h
      → Reopens c h (publish_projection publishing c io q s)
  unfolding publish_projection
  publish-Reopens Publishing.kept p s q close journal projection idle whole =
      settled p [] s (some StoreError.io) close refl journal projection idle (λ e. cc)
  publish-Reopens Publishing.unsynced p s q close journal projection idle whole =
      replaced s q (some StoreError.io) journal whole idle
  publish-Reopens Publishing.published p s q close journal projection idle whole =
      elim (Bool-cases (is_unreachable io.database)) [
        | inl down ↦ rw down (replaced s q (some StoreError.io) journal whole idle)
        | inr up ↦ rw up (elim (Bool-cases (projection_matches c io s.journal q)) [
          | inl fits ↦ rw fits (replaced s q none journal whole idle)
          | inr differs ↦
              rw differs (replaced s q (some StoreError.journal_sequence) journal whole idle)
        ])
      ]

  rebuild-Reopens :
      (publishing : Publishing) (j : JournalContents) (p : List Run) (s : StateStore)
      → IsClose h p
      → s.journal ≡ written c h ++ []
      → s.projection ≡ projected c p
      → s.pending ≡ none
      → Reopens c h (rebuild_projection c id io publishing j s)
  unfolding rebuild_projection
  rebuild-Reopens publishing j p s close journal projection idle =
      elim (Answer-cases (scan_journal c io (replay_event c id io) s.journal empty_projection)) [
        | inl (x, fails) ↦
            rw (fails, rebuild_projection)
              (settled p [] s (some x) close refl journal projection idle (λ e. cc))
        | inr ((j', q), built) ↦
            let whole = rebuilt-projected c io h [] good refl id j' q (rw (← journal) built) in
            let changed =
              j'.last_sequence != j.last_sequence
              || j'.valid_bytes != j.valid_bytes
              || j'.discard_tail in
            rw (built, rebuild_projection)
              (elim (Bool-cases changed) [
                | inl moved ↦ rw moved (
                    settled p [] s (some StoreError.journal_sequence) close refl journal projection
                      idle (λ e. cc))
                | inr fixed ↦
                    rw fixed (publish-Reopens publishing p s q close journal projection idle whole)
              ])
      ]

-- `OpenState` on what a store with a history has left, under whatever the file system and the
-- databases, the old one and its replacement, answer: the disk still holds that history, with at most a torn record behind it and a
-- projection at most one state behind, and no record is pending. Where the call succeeds, the torn
-- record is gone and the projection is that of the whole history.
pub open_state-Reopens :
    (c : Codec) (id : RunId) (io io' : Io) (publishing : Publishing) (h : List Run) (s : StateStore)
    → Consistent c h s
    → Reopens c h (open_state c id io io' publishing s)
unfolding open_state
open_state-Reopens c id io io' publishing h s holds =
    let p = holds.behind in
    let rep = holds.represents in
    let close = Phase-IsClose c h p s.pending holds.phase in
    elim (Answer-cases (validate_journal c id io s.journal)) [
      | inl (x, fails) ↦
          rw (fails, open_state)
            (settled c id io h rep.good p rep.tail _ (some x) close rep.torn rep.journal
              rep.projection refl (λ e. cc))
      | inr (j, valid) ↦
          let measured =
            validate_journal-contents c id io h rep.tail rep.good rep.torn j
              (rw (← rep.journal) valid) in
          let cut = clean-Cut c id io h rep.tail s.journal rep.torn rep.journal j measured in
          rw (valid, open_state)
            (elim (Option-cases (clean_journal io j s.journal).0) [
              | inr (x, fails) ↦ rw fails (
                  settled c id io h rep.good p cut.tail _ (some x) close cut.torn cut.journal
                    rep.projection refl (λ e. cc))
              | inl cleaned ↦
                  let journal = cut.journal ∙ ap (λ t. written c h ++ t) (cut.done cleaned) in
                  rw cleaned
                    (elim (Bool-cases
                      (projection_matches c io (clean_journal io j s.journal).1 s.projection)) [
                        | inl fits ↦
                            let fits' =
                              subst (λ b. projection_matches c io b s.projection ≡ true) journal
                                fits in
                            let count = matches-length c io h [] rep.good refl s.projection fits' in
                            let applied =
                              ap (λ (q : Projection). length q.applied) rep.projection in
                            rw fits (
                              settled c id io h rep.good p [] _ none close refl journal
                                rep.projection refl
                                (λ e. (
                                  refl,
                                  close-length h p close
                                      (sym (length-rows c p) ∙ sym applied ∙ count),
                                )))
                        | inr differs ↦ rw differs (
                            rebuild-Reopens c id io' h rep.good publishing j p _ close journal
                              rep.projection refl)
                      ])
            ])
    ]
