-- ===== src/Store/Answer.antt =====
-- internal/flows/impl_loop/store/state.go: the errors of the store, and what the file system and the
-- database answer to a call.
use stepan.Base.{ℕ, ◌≡◌, refl, Bool, ◌⊎◌, inl, inr, Failure, Result, ok, err}
use stepan.Evidence.{EvidenceRef}

-- The sentinel that an error wraps; `io` is an error of the file system or of the database, and
-- `malformed` one of the JSON decoder.
pub data StoreError : Type 0 where
  state_unavailable journal_sequence pending_event run_identity state_reference : StoreError
  malformed io : StoreError
  run_state : Failure → StoreError

pub data Answer {ℓ} (A : Type ℓ) : Type ℓ where
  value : A → Answer A
  error : StoreError → Answer A

infixl 5 ◌>>=◌ ◌>>◌
unfoldable pub ◌>>=◌ {ℓ κ} : {A : Type ℓ} {B : Type κ} → Answer A → (A → Answer B) → Answer B
value a >>= f = f a
error e >>= f = error e

abbrev pub ◌>>◌ {ℓ} : {B : Type ℓ} → Answer (Unit {0}) → Answer B → Answer B
m >> k = m >>= λ _. k

-- An error of the run's own methods, passed on.
abbrev pub of_run {ℓ} : {A : Type ℓ} → Result A → Answer A
of_run (ok a) = value a
of_run (err f) = error (StoreError.run_state f)

pub Answer-cases {ℓ} :
    {A : Type ℓ} (m : Answer A) → ((e : StoreError) × (m ≡ error e)) ⊎ ((a : A) × (m ≡ value a))
Answer-cases (error e) = inl (e, refl)
Answer-cases (value a) = inr (a, refl)

-- `appendJournalResult`: it may fail before it writes, after a part of the line or before the sync
-- of the whole line, or after the sync.
pub data Appending : Type 0 where
  refused : Appending
  torn : ℕ → Appending
  unclosed : Appending
  appended : Appending

-- `discardJournalTail`.
pub data Truncation : Type 0 where
  refused unsynced truncated : Truncation

-- `publishProjectionGroup`: it fails before the main file is replaced, after that, or not at all.
pub data Publishing : Type 0 where
  kept unsynced published : Publishing

-- A transaction of the projection: the database cannot be reached, the transaction is rolled back,
-- or it is committed; the commit may be reported as an error.
pub data Database : Type 0 where
  unreachable rolled_back unacknowledged committed : Database

-- What the environment of one call does.
pub record Io : Type 0 where
  pub published : EvidenceRef → Bool
  pub readable : Bool
  pub truncation : Truncation
  pub appending : Appending
  pub database : Database
