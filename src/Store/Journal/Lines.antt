-- ===== src/Store/Journal/Lines.antt =====
-- internal/flows/impl_loop/store/state.go: reading back the lines that were written.
use stepan.Base.{
  ℕ, zero, suc, ◌⊎◌, ◌+◌, ◌≡◌, refl, false, List, [], ◌∷◌, ◌++◌, contains, nat_eq, length, take, ap,
  inl, inr, arith,
}
use stepan.Store.Codec.{Bytes, newline}
use stepan.Store.Journal.{records}

-- A fragment without a newline is no record.
pub records-fragment : (t : Bytes) → contains t newline ≡ false → records t ≡ ([], t)
unfolding records
records-fragment [] h = refl
records-fragment (b ∷ t) h = ground (arith, records-fragment t)

-- A line without a newline inside is the next record.
pub records-line :
    (d rest : Bytes)
    → contains d newline ≡ false
    → records (d ++ newline ∷ rest) ≡ (d ∷ (records rest).0, (records rest).1)
unfolding records
records-line [] rest h = ground arith
records-line (b ∷ d) rest h = ground (arith, records-line d rest)

pub take-length-append {ℓ} : {A : Type ℓ} (xs ys : List A) → take (length xs) (xs ++ ys) ≡ xs
take-length-append [] ys = refl
take-length-append (x ∷ xs) ys = ap (λ zs. x ∷ zs) (take-length-append xs ys)

pub length-append {ℓ} : {A : Type ℓ} (xs ys : List A) → length (xs ++ ys) ≡ length xs + length ys
length-append [] ys = omega arith
length-append (x ∷ xs) ys = omega (arith, length-append xs ys)

-- A part of a line is a fragment, or the whole line.
pub take-line :
    (n : ℕ) (d : Bytes)
    → contains d newline ≡ false
    → (contains (take n (d ++ newline ∷ [])) newline ≡ false)
      ⊎ (take n (d ++ newline ∷ []) ≡ d ++ newline ∷ [])
take-line zero d h = inl refl
take-line (suc zero) [] h = inr refl
take-line (suc (suc n)) [] h = inr refl
take-line (suc n) (b ∷ d) h = elim (take-line n d (ground arith)) [
  | inl part ↦ inl (ground arith)
  | inr whole ↦ inr (ap (λ t. b ∷ t) whole)
]
