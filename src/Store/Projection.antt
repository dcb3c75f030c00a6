-- ===== src/Store/Projection.antt =====
-- internal/flows/impl_loop/store/state.go: the projection of the journal, a table of the applied
-- events and one row with the current state.
pub mod Rows
use stepan.Base.{
  ℕ, ◌+◌, Bool, true, false, ◌&&◌, ◌||◌, Option, none, some, List, [], ◌∷◌, ◌==◌, ◌!=◌, not, nat_eq,
  leb, inc, length, lookup, list_beq, if◌then◌else◌, Result, ok, err,
}
use stepan.Evidence.{RunId}
use stepan.Run.{Run, is_some}
use stepan.Run.Validate.{Event, apply, validate}
use stepan.Store.Answer.{StoreError, Answer, value, error, Io, Database, of_run, ◌>>=◌, ◌>>◌}
use stepan.Store.Codec.{Bytes, Codec, json_copy, event_from_data}
use stepan.Store.References.{verify_state_references}
use stepan.Store.Journal.{scan_journal}

-- The tables `applied_events` and `current_state`.
pub record Projection : Type 0 where
  pub applied : List (ℕ × Bytes)
  pub current : Option (ℕ × Bytes)

abbrev pub empty_projection : Projection
empty_projection = record { applied = []; current = none }

unfoldable pub last_applied : Projection → ℕ
last_applied p = elim p.current [ none ↦ 0 | some row ↦ row.0 ]

-- The end of a transaction that has written `new` over `old`.
abbrev pub commit : Database → Projection → Projection → Option StoreError × Projection
commit Database.committed old new = (none, new)
commit Database.unacknowledged old new = (some StoreError.io, new)
commit _ old new = (some StoreError.io, old)

abbrev pub is_unreachable : Database → Bool
is_unreachable Database.unreachable = true
is_unreachable _ = false

-- The transaction of `applyCanonical`.
unfoldable pub apply_event :
    Codec → Io → Bytes → Event → Run → Projection → Option StoreError × Projection
apply_event c io d e state p =
    if is_unreachable io.database
    then (some StoreError.io, p)
    else if leb e.sequence (last_applied p)
    then elim (lookup e.sequence p.applied) [
      | none ↦ (some StoreError.io, p)
      | some stored ↦
          if not (list_beq stored d)
          then (some StoreError.journal_sequence, p)
          else commit io.database p p
    ]
    else if e.sequence != last_applied p + 1
    then (some StoreError.journal_sequence, p)
    else if is_some (lookup e.sequence p.applied)
    then (some StoreError.io, p)
    else commit io.database p (record {
      applied = (e.sequence, d) ∷ p.applied;
      current = some (e.sequence, c.encode_run state);
    })

-- `applyCanonical`, with the verification of the references that all its callers ask for.
unfoldable pub apply_canonical :
    Codec → RunId → Io → Bytes → Projection → Option StoreError × Projection
apply_canonical c id io d p = elim (event_from_data c d) [
  | error x ↦ (some x, p)
  | value e ↦ elim (verify_state_references id io e.state) [
    | error x ↦ (some x, p)
    | value _ ↦ elim e.state [
      | none ↦ (some StoreError.io, p)
      | some current ↦ elim (apply (json_copy c) e current) [
        | err f ↦ (some (StoreError.run_state f), p)
        | ok state ↦ apply_event c io d e state p
      ]
    ]
  ]
]

-- The callback of `rebuildProjection`: it applies the record to the replacement.
abbrev pub replay_event : Codec → RunId → Io → Bytes → Event → Projection → Answer Projection
replay_event c id io d e p =
    let (failure, p') = apply_canonical c id io d p in
    elim failure [ none ↦ value p' | some x ↦ error x ]

-- The callback of `projectionMatchesJournal`: the count of the events, the last one, and whether a
-- row was missing or different. The Go code stops at the first such row with an error or a mismatch,
-- and the caller rebuilds in both cases.
abbrev pub match_event : Projection → Bytes → Event → ℕ × Option Event → Answer (ℕ × Option Event)
match_event p d e (count, last) = elim (lookup e.sequence p.applied) [
  | none ↦ error StoreError.io
  | some stored ↦
      if list_beq stored d then value (count + 1, some e) else error StoreError.journal_sequence
]

-- `projectionMatchesJournal` returns true and no error.
unfoldable pub projection_matches : Codec → Io → Bytes → Projection → Bool
projection_matches c io journal p =
    if is_unreachable io.database
    then false
    else elim (scan_journal c io (match_event p) journal (0, none)) [
      | error _ ↦ false
      | value (j, (count, last)) ↦ length p.applied == count && (elim last [
        | none ↦ not (is_some p.current)
        | some e ↦ elim p.current [
          | none ↦ false
          | some row ↦
              row.0 == e.sequence
              && (elim e.state [ none ↦ false | some r ↦ list_beq row.1 (c.encode_run r) ])
        ]
      ])
    ]

-- `Current`, which reads only the projection.
unfoldable pub current : Codec → Io → Projection → Answer (Run × ℕ)
current c io p = if is_unreachable io.database then error StoreError.io else elim p.current [
  | none ↦ error StoreError.state_unavailable
  | some row ↦ if row.0 == 0 then error StoreError.journal_sequence else elim (c.decode_run row.1) [
    | none ↦ error StoreError.malformed
    | some r ↦ of_run (validate r) >> value (r, row.0)
  ]
]
