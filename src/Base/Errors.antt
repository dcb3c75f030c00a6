-- ===== src/Base/Errors.antt =====
-- Errors as values. A method that mutates its receiver and may fail returns its result beside the
-- state it leaves behind, since a failing method may have written too.
use mathlib.Core.Path.{◌≡◌, refl}
use mathlib.Core.Logic.{◌⊎◌, inl, inr}

-- The sentinel that an error wraps, which is what `errors.Is` tells apart; `panic` is a nil
-- dereference.
pub data Failure : Type 0 where
  invalid_state invalid_transition limit_exceeded panic : Failure

pub data Result {ℓ} (A : Type ℓ) : Type ℓ where
  ok : A → Result A
  err : Failure → Result A

abbrev pub Done : Type 0
Done = Result (Unit {0})

abbrev pub done : Done
done = ok tt

pub Result-cases {ℓ} :
    {A : Type ℓ} (m : Result A) → ((e : Failure) × (m ≡ err e)) ⊎ ((a : A) × (m ≡ ok a))
Result-cases (err e) = inl (e, refl)
Result-cases (ok a) = inr (a, refl)

infixl 5 ◌>>=◌ ◌>>◌
unfoldable pub ◌>>=◌ {ℓ κ} : {A : Type ℓ} {B : Type κ} → Result A → (A → Result B) → Result B
ok a >>= f = f a
err e >>= f = err e

abbrev pub ◌>>◌ {ℓ} : {B : Type ℓ} → Done → Result B → Result B
m >> k = m >>= λ _. k
