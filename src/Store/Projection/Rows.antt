-- ===== src/Store/Projection/Rows.antt =====
-- internal/flows/impl_loop/store/state.go: applying a record to the projection of a history.
use stepan.Base.{
  ℕ, zero, suc, ◌+◌, ◌<◌, ◌≤◌, ◌≡◌, ◌≢◌, ◌⊎◌, refl, Bool, true, false, Option, none, some, List, [],
  ◌∷◌, ◌==◌, ◌!=◌, not, nat_eq, nat_beq, nat_beq_iff, leb, inc, length, lookup, list_beq, arith,
  inl, inr, done, Result, ok, err, Result-cases, Option-cases, Bool-cases,
}
use stepan.Evidence.{RunId, EvidenceRef}
use stepan.Run.{Run, is_some}
use stepan.Run.Validate.{Event, validate, apply}
use stepan.Run.Validate.Events.{clone_run-stable}
use stepan.Store.Answer.{StoreError, value, Io, Database, Answer-cases, ◌>>=◌}
use stepan.Store.Codec.{Bytes, Codec, Faithful, json_copy, line, event_of}
use stepan.Store.References.{verify_state_references}
use stepan.Store.Journal.History.{sequence_of, newest_event, IsGood, event_from_data-line, replay}
use stepan.Store.Projection.{
  Projection, empty_projection, last_applied, is_unreachable, commit, apply_event, apply_canonical,
  replay_event,
}

-- The projection of a history.
abbrev pub rows : Codec → List Run → List (ℕ × Bytes)
rows c [] = []
rows c (r ∷ h) = (sequence_of (r ∷ h), line c (newest_event r h)) ∷ rows c h

abbrev pub current_row : Codec → List Run → Option (ℕ × Bytes)
current_row c [] = none
current_row c (r ∷ h) = some (sequence_of (r ∷ h), c.encode_run r)

abbrev pub projected : Codec → List Run → Projection
projected c h = record { applied = rows c h; current = current_row c h }

sequence-lt : (h : List Run) → sequence_of h < 18446744073709551616
sequence-lt [] = omega arith
sequence-lt (r ∷ h) = omega arith

-- The next number is larger, as long as it has not wrapped.
pub sequence-suc :
    (r : Run) (h : List Run) → sequence_of (r ∷ h) ≢ 0 → sequence_of (r ∷ h) ≡ suc (sequence_of h)
sequence-suc r h positive = omega (arith, sequence-lt h)

pub last_applied-projected :
    (c : Codec) (h : List Run) → last_applied (projected c h) ≡ sequence_of h
unfolding last_applied
last_applied-projected c [] = refl
last_applied-projected c (r ∷ h) = refl

lookup-above :
    (c : Codec) (h : List Run) (n : ℕ) → IsGood c h → sequence_of h < n → lookup n (rows c h) ≡ none
lookup-above c [] n good above = refl
lookup-above c (r ∷ h) n good above =
    ground (arith, lookup-above c h n good.3, sequence-suc r h good.2)

pub list_beq_self : (d : Bytes) → list_beq d d ≡ true
list_beq_self [] = refl
list_beq_self (b ∷ d) = ground (arith, list_beq_self d)

pub list_beq-eq : (d e : Bytes) → list_beq d e ≡ true → d ≡ e
list_beq-eq [] [] h = refl
list_beq-eq [] (y ∷ ys) h = cc
list_beq-eq (x ∷ xs) [] h = cc
list_beq-eq (x ∷ xs) (y ∷ ys) h = ground (arith, list_beq-eq xs ys)

apply-event_of :
    (c : Codec) (n : ℕ) (r current : Run)
    → Faithful c r
    → n ≢ 0
    → validate r ≡ done
    → apply (json_copy c) (event_of n r) current ≡ ok r
unfolding apply stepan.Run.Validate.event_valid stepan.Base.◌>>=◌
apply-event_of c n r current faithful positive valid =
    rw valid (ground (arith, clone_run-stable (json_copy c) r faithful.decodes_run valid))

-- What a transaction over two projections may leave.
pub record Applies {A : Type 0} (old new : A) (x : Option StoreError × A) : Type 0 where
  pub leaves : (x.1 ≡ old) ⊎ (x.1 ≡ new)
  pub applied : x.0 ≡ none → x.1 ≡ new

commit-Applies : (io : Database) (old new : Projection) → Applies old new (commit io old new)
commit-Applies Database.committed old new = record { leaves = inr refl; applied = λ h. refl }
commit-Applies Database.unacknowledged old new = record { leaves = inr refl; applied = λ h. cc }
commit-Applies Database.rolled_back old new = record { leaves = inl refl; applied = λ h. cc }
commit-Applies Database.unreachable old new = record { leaves = inl refl; applied = λ h. cc }

fails-Applies : (x : StoreError) (old new : Projection) → Applies old new (some x, old)
fails-Applies x old new = record { leaves = inl refl; applied = λ h. cc }

module _ (c : Codec) (id : RunId) (io : Io) (r : Run) (h : List Run) (good : IsGood c (r ∷ h)) where
  abbrev newest_line : Bytes
  newest_line = line c (newest_event r h)

  not_applied_yet : leb (sequence_of (r ∷ h)) (last_applied (projected c h)) ≡ false
  not_applied_yet = ground (arith, last_applied-projected c h, sequence-suc r h good.2)

  is_next : (sequence_of (r ∷ h) != last_applied (projected c h) + 1) ≡ false
  is_next = ground (arith, last_applied-projected c h, sequence-suc r h good.2)

  no_row : lookup (sequence_of (r ∷ h)) (rows c h) ≡ none
  no_row = lookup-above c h _ good.3 (omega (arith, sequence-suc r h good.2))

  apply_event-next :
      Applies
        (projected c h)
        (projected c (r ∷ h))
        (apply_event c io newest_line (newest_event r h) r (projected c h))
  unfolding apply_event
  apply_event-next = elim (Bool-cases (is_unreachable io.database)) [
    | inl down ↦ rw (down, apply_event) (fails-Applies _ _ _)
    | inr up ↦
        rw (up, apply_event)
          (rw not_applied_yet (rw is_next (rw no_row (commit-Applies io.database _ _))))
  ]

  -- The record that the projection has applied last is not applied again.
  apply_event-again :
      Applies
        (projected c (r ∷ h))
        (projected c (r ∷ h))
        (apply_event c io newest_line (newest_event r h) r (projected c (r ∷ h)))
  unfolding apply_event last_applied
  apply_event-again = elim (Bool-cases (is_unreachable io.database)) [
    | inl down ↦ rw (down, apply_event) (fails-Applies _ _ _)
    | inr up ↦
        rw (up, apply_event)
          (ground (
            arith,
            list_beq_self newest_line,
            commit-Applies io.database (projected c (r ∷ h)) (projected c (r ∷ h)),
          ))
  ]

  module _ (p : Projection) (new : Projection)
      (applies : Applies p new (apply_event c io newest_line (newest_event r h) r p)) where
    apply_canonical-Applies : Applies p new (apply_canonical c id io newest_line p)
    unfolding apply_canonical
    apply_canonical-Applies =
        let n = sequence_of (r ∷ h) in
        elim (Answer-cases (verify_state_references id io (some r))) [
          | inl (x, fails) ↦
              rw (event_from_data-line c r n good.0 good.2 good.1, apply_canonical)
                (rw fails (fails-Applies x p new))
          | inr (seen, verified) ↦
              rw (event_from_data-line c r n good.0 good.2 good.1, apply_canonical)
                (rw verified (rw (apply-event_of c n r r good.0 good.2 good.1) applies))
        ]

  -- Applying the next record to the projection of a history either fails or gives the projection of
  -- the longer history.
  pub apply_canonical-next :
      Applies
        (projected c h)
        (projected c (r ∷ h))
        (apply_canonical c id io newest_line (projected c h))
  apply_canonical-next =
      apply_canonical-Applies (projected c h) (projected c (r ∷ h)) apply_event-next

  pub apply_canonical-again :
      Applies
        (projected c (r ∷ h))
        (projected c (r ∷ h))
        (apply_canonical c id io newest_line (projected c (r ∷ h)))
  apply_canonical-again =
      apply_canonical-Applies (projected c (r ∷ h)) (projected c (r ∷ h)) apply_event-again

  -- With a database that commits, and the references published, the record is applied, or it is found
  -- applied already.
  module _ (commits : io.database ≡ Database.committed) where
    apply_event-committed :
        (p : List Run)
        → (p ≡ h) ⊎ (p ≡ r ∷ h)
        → apply_event c io newest_line (newest_event r h) r (projected c p)
          ≡ (none, projected c (r ∷ h))
    unfolding apply_event last_applied
    apply_event-committed p (inl same) =
        rw (same, apply_event, commits) (rw not_applied_yet (rw is_next (rw no_row refl)))
    apply_event-committed p (inr same) =
        rw (same, apply_event, commits) (ground (arith, list_beq_self newest_line))

    pub apply_canonical-committed :
        (p : List Run)
        → (p ≡ h) ⊎ (p ≡ r ∷ h)
        → (seen : List EvidenceRef) → verify_state_references id io (some r) ≡ value seen
        → apply_canonical c id io newest_line (projected c p) ≡ (none, projected c (r ∷ h))
    unfolding apply_canonical
    apply_canonical-committed p close seen verified =
        let n = sequence_of (r ∷ h) in
        rw (event_from_data-line c r n good.0 good.2 good.1, apply_canonical)
          (rw verified
            (rw (apply-event_of c n r r good.0 good.2 good.1) (apply_event-committed p close)))

-- A rebuilt projection is the projection of the whole history.
pub replay-projected :
    (c : Codec) (id : RunId) (io : Io) (h : List Run) (p : Projection)
    → IsGood c h
    → replay c (replay_event c id io) h empty_projection ≡ value p
    → p ≡ projected c h
unfolding ◌>>=◌
replay-projected c id io [] p good h = ground arith
replay-projected c id io (r ∷ h) p good done =
    elim (Answer-cases (replay c (replay_event c id io) h empty_projection)) [
      | inl (x, fails) ↦ absurd (ground arith)
      | inr (q, before) ↦
          let step = apply_canonical-next c id io r h good in
          ground (arith, replay-projected c id io h q good.3 before, step.applied)
    ]
