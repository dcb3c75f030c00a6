-- ===== src/Store/Recording/Matches.antt =====
-- internal/flows/impl_loop/store/state.go: what a scan of the journal says of a projection.

use stepan.Base.{
  ℕ, suc, ◌≡◌, refl, ap, true, false, Option, none, List, [], ◌∷◌, ◌++◌, nat_eq, contains, length,
  arith, inl, inr, Bool-cases,
}
use stepan.Evidence.{RunId}
use stepan.Run.{Run}
use stepan.Run.Validate.{Event}
use stepan.Store.Answer.{value, Io, Answer-cases, ◌>>=◌}
use stepan.Store.Codec.{Bytes, newline, Codec}
use stepan.Store.Journal.{JournalContents, scan_journal}
use stepan.Store.Journal.History.{written, IsGood, replay, scan_journal-replay}
use stepan.Store.Projection.{
  Projection, empty_projection, match_event, replay_event, projection_matches,
}
use stepan.Store.Projection.Rows.{rows, projected, replay-projected}

pub length-rows : (c : Codec) (h : List Run) → length (rows c h) ≡ length h
length-rows c [] = refl
length-rows c (r ∷ h) = ap suc (length-rows c h)

replay-count :
    (c : Codec) (q : Projection) (h : List Run) (n : ℕ) (last : Option Event)
    → replay c (match_event q) h (0, none) ≡ value (n, last)
    → n ≡ length h
unfolding ◌>>=◌
replay-count c q [] n last e = ground arith
replay-count c q (r ∷ h) n last e = elim (Answer-cases (replay c (match_event q) h (0, none))) [
  | inl (x, fails) ↦ absurd (ground arith)
  | inr ((m, before), counted) ↦ ground (arith, replay-count c q h m before counted)
]

module _ (c : Codec) (io : Io) (h : List Run) (tail : Bytes) (good : IsGood c h)
    (torn : contains tail newline ≡ false) where
  -- A projection that matches a journal has as many events.
  pub matches-length :
      (q : Projection)
      → projection_matches c io (written c h ++ tail) q ≡ true
      → length q.applied ≡ length h
  unfolding projection_matches ◌>>=◌
  matches-length q fits = elim (Bool-cases io.readable) [
    | inr unreadable ↦ absurd (unfold scan_journal in ground arith)
    | inl readable ↦ elim (Answer-cases (replay c (match_event q) h (0, none))) [
      | inl (x, fails) ↦ absurd (
          ground
            (arith, scan_journal-replay c (match_event q) io h tail (0, none) good torn readable))
      | inr ((n, last), counted) ↦ ground (
        arith,
        scan_journal-replay c (match_event q) io h tail (0, none) good torn readable,
        replay-count c q h n last counted,
      )
    ]
  ]

  -- A scan that rebuilds gives the projection of the history.
  pub rebuilt-projected :
      (id : RunId) (j : JournalContents) (q : Projection)
      → scan_journal c io (replay_event c id io) (written c h ++ tail) empty_projection
        ≡ value (j, q)
      → q ≡ projected c h
  unfolding ◌>>=◌
  rebuilt-projected id j q scanned = elim (Bool-cases io.readable) [
    | inr unreadable ↦ absurd (unfold scan_journal in ground arith)
    | inl readable ↦ elim (Answer-cases (replay c (replay_event c id io) h empty_projection)) [
      | inl (x, fails) ↦ absurd (
          ground (
            arith,
            scan_journal-replay c (replay_event c id io) io h tail empty_projection good torn
                readable,
          ))
      | inr (q', built) ↦ ground (
        arith,
        scan_journal-replay c (replay_event c id io) io h tail empty_projection good torn readable,
        replay-projected c id io h q' good built,
      )
    ]
  ]
