-- ===== src/Store/References/Published.antt =====
-- internal/flows/impl_loop/store/state.go: verifying with a memory is verifying every reference.
use stepan.Base.{
  ◌≡◌, refl, Bool, true, false, some, List, [], ◌∷◌, contains, all, string_eq, eq_iff, arith, inl,
  inr, Bool-cases, if◌then◌else◌,
}
use stepan.Evidence.{RunId, EvidenceRef, evidence_eq, evidence_beq_iff}
use stepan.Run.{Run}
use stepan.Store.Answer.{StoreError, Answer, value, error, Io, ◌>>=◌}
use stepan.Store.References.{state_evidence_refs, verify_refs, verify_state_references_seen}

module _ (published : EvidenceRef → Bool) where
  published_of_seen :
      (x : EvidenceRef) (seen : List EvidenceRef)
      → all published seen ≡ true
      → contains seen x ≡ true
      → published x ≡ true
  published_of_seen x [] h found = cc
  published_of_seen x (y ∷ ys) h found =
      ground (arith, published_of_seen x ys, evidence_beq_iff y x)

  -- What is remembered was published, so remembering it changes nothing: the loop succeeds exactly
  -- when every reference is published.
  pub verify_refs-all :
      (xs seen : List EvidenceRef)
      → all published seen ≡ true
      → all published xs ≡ true
      → (seen' : List EvidenceRef) × (verify_refs published xs seen ≡ value seen')
        × (all published seen' ≡ true)
  unfolding verify_refs
  verify_refs-all [] seen h ok = (seen, refl, h)
  verify_refs-all (x ∷ xs) seen h ok =
      let rest =
        verify_refs-all xs (if contains seen x then seen else x ∷ seen) (ground arith)
          (ground arith) in
      (rest.0, ground (arith, rest.1), rest.2)

  pub verify_refs-missing :
      (xs seen : List EvidenceRef)
      → all published seen ≡ true
      → all published xs ≡ false
      → verify_refs published xs seen ≡ error StoreError.state_reference
  unfolding verify_refs
  verify_refs-missing [] seen h missing = cc
  verify_refs-missing (x ∷ xs) seen h missing = ground (
    arith,
    published_of_seen x seen,
    verify_refs-missing xs (if contains seen x then seen else x ∷ seen),
  )

-- The answer without the references that are verified.
abbrev pub verdict : Answer (List EvidenceRef) → Answer (Unit {0})
verdict m = m >>= λ _. value tt

-- The loop that verifies only what it has not seen decides whether all the references are published:
-- it ends with a value if they are, and with the error of the reference if one is not.
pub verify_refs-decides :
    (published : EvidenceRef → Bool) (xs : List EvidenceRef)
    → verdict (verify_refs published xs [])
      ≡ (if all published xs then value tt else error StoreError.state_reference)
unfolding ◌>>=◌
verify_refs-decides published xs = elim (Bool-cases (all published xs)) [
  | inl ok ↦
      (let (seen, verified, rest) = verify_refs-all published xs [] refl ok in
        rw ok (rw verified refl))
  | inr missing ↦ rw missing (rw (verify_refs-missing published xs [] refl missing) refl)
]

-- The states belong to the run, and all their references are published.
abbrev pub IsPublished : RunId → Io → List Run → Type 0
IsPublished id io [] = Unit
IsPublished id io (r ∷ h) =
    (r.identity.id ≡ id) × (all io.published (state_evidence_refs r) ≡ true) × IsPublished id io h

pub verified_lem :
    (id : RunId) (io : Io) (r : Run) (seen : List EvidenceRef)
    → r.identity.id ≡ id
    → all io.published (state_evidence_refs r) ≡ true
    → all io.published seen ≡ true
    → (seen' : List EvidenceRef) × (verify_state_references_seen id io (some r) seen ≡ value seen')
      × (all io.published seen' ≡ true)
unfolding verify_state_references_seen
verified_lem id io r seen same ok h =
    let rest = verify_refs-all io.published (state_evidence_refs r) seen h ok in
    (rest.0, ground (arith, rest.1, eq_iff r.identity.id id), rest.2)
