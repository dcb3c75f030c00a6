-- ===== src/Run/Validate/Events.antt =====
-- internal/flows/impl_loop/state/state.go: the journal records of a run.
use stepan.Base.{
  ℕ, ◌≡◌, ◌≢◌, some, ok, done, Option-cases, Result-cases, inl, inr, arith, refl, ap, ◌∙◌, ◌>>=◌,
  nat_eq,
}
use stepan.Status.{EventKind, event_kind_eq}
use stepan.Run.{Run}
use stepan.Run.Validate.{
  Event, JsonCopy, validate, event_valid, clone_run, new_run_state_event, apply,
}

-- A clone is what JSON made of the run, and it is valid.
pub clone_run-validate :
    (copy : JsonCopy) (r clone : Run)
    → clone_run copy r ≡ ok clone
    → (copy r ≡ some clone) × (validate clone ≡ done)
unfolding clone_run ◌>>=◌
clone_run-validate copy r clone made = elim (Option-cases (copy r)) [
  | inl lost ↦ absurd (ground arith)
  | inr (s, found) ↦ elim (Result-cases (validate s)) [
    | inl (f, fails) ↦ absurd (ground arith)
    | inr (tt, valid) ↦ (ground arith, ground arith)
  ]
]

pub clone_run-stable :
    (copy : JsonCopy) (r : Run) → copy r ≡ some r → validate r ≡ done → clone_run copy r ≡ ok r
unfolding clone_run ◌>>=◌
clone_run-stable copy r same valid = rw (same, clone_run) (rw valid refl)

made_of :
    (copy : JsonCopy) (n : ℕ) (r : Run) (e : Event)
    → new_run_state_event copy n r ≡ ok e
    → (n ≢ 0)
      × ((clone : Run) × (clone_run copy r ≡ ok clone)
          × (e ≡ record { sequence = n; kind = EventKind.run_state_recorded; state = some clone }))
unfolding new_run_state_event ◌>>=◌
made_of copy n r e made = elim (Result-cases (validate r)) [
  | inl (f, fails) ↦ absurd (ground arith)
  | inr (tt, valid) ↦ elim (Result-cases (clone_run copy r)) [
    | inl (f, fails) ↦ absurd (ground arith)
    | inr (clone, cloned) ↦ (ground arith, (clone, cloned, ground arith))
  ]
]

-- Every record that `NewRunStateEvent` makes has its sequence number, and can be replayed, if a run
-- that JSON has encoded and decoded once is encoded and decoded to itself: the replay returns the
-- state in the record, which is what JSON made of the run, and the current run does not matter.
pub apply-new_run_state_event :
    (copy : JsonCopy) (n : ℕ) (r current : Run) (e : Event)
    → ((s : Run) → copy r ≡ some s → copy s ≡ some s)
    → new_run_state_event copy n r ≡ ok e
    → (e.sequence ≡ n)
      × ((s : Run) × (copy r ≡ some s) × (e.state ≡ some s) × (apply copy e current ≡ ok s))
unfolding apply event_valid ◌>>=◌
apply-new_run_state_event copy n r current e stable made =
    let (positive, (s, cloned, same)) = made_of copy n r e made in
    let (decoded, valid) = clone_run-validate copy r s cloned in
    let again = clone_run-stable copy s (stable s decoded) valid in
    let replayed : apply copy
          (record { sequence = n; kind = EventKind.run_state_recorded; state = some s }) current
        ≡ ok s =
      rw valid (ground (arith, again)) in
    (
      ap (λ (x : Event). x.sequence) same,
      (
        s,
        decoded,
        ap (λ (x : Event). x.state) same,
        ap (λ (x : Event). apply copy x current) same ∙ replayed,
      ),
    )
