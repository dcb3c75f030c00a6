-- ===== src/Store/References.antt =====
-- internal/flows/impl_loop/store/state.go: the evidence that a state names must be published.
pub mod Published
use stepan.Base.{
  String, Bool, true, false, ◌||◌, Option, none, some, List, [], ◌∷◌, ◌++◌, ◌==◌, ◌!=◌, string_eq,
  contains, if◌then◌else◌,
}
use stepan.Evidence.{RunId, EvidenceRef, AcceptanceBasis, BriefVersion, evidence_eq}
use stepan.Operation.{Operation, OperationResult}
use stepan.Assignment.{Assignment, AcceptanceEvidence}
use stepan.Run.{Run, FinalAcceptanceEvidence}
use stepan.Store.Answer.{StoreError, Answer, value, error, Io}

abbrev pub basis_refs : AcceptanceBasis → List EvidenceRef
basis_refs b = b.specification ∷ b.configuration ∷ []

-- The loops of `stateEvidenceRefs`, which append what `f` names in each element.
abbrev pub refs_of : {A : Type 0} → (A → List EvidenceRef) → List A → List EvidenceRef
refs_of f [] = []
refs_of f (x ∷ xs) = f x ++ refs_of f xs

abbrev pub result_refs : OperationResult → List EvidenceRef
result_refs x = x.state ∷ basis_refs x.basis ++ x.evidence

abbrev pub acceptance_refs : AcceptanceEvidence → List EvidenceRef
acceptance_refs e = e.state ∷ basis_refs e.basis

abbrev pub assignment_refs : Assignment → List EvidenceRef
assignment_refs a =
    refs_of (λ b. b.document ∷ []) a.briefs
    ++ (refs_of (λ o. basis_refs o.basis) a.operations
        ++ (refs_of result_refs a.results
            ++ ((elim a.acceptance [ none ↦ [] | some e ↦ acceptance_refs e ])
                ++ (refs_of acceptance_refs a.acceptance_history
                    ++ (elim a.commit [ none ↦ [] | some k ↦ k.state ∷ basis_refs k.basis ])))))

abbrev pub final_refs : FinalAcceptanceEvidence → List EvidenceRef
final_refs e = if e.state.id == "" then [] else e.state ∷ basis_refs e.basis

unfoldable pub state_evidence_refs : Run → List EvidenceRef
state_evidence_refs r =
    (r.identity.baseline_state ∷ r.identity.specification ∷ r.identity.task_list
      ∷ r.identity.configuration ∷ r.current_state ∷ [])
    ++ (refs_of assignment_refs r.assignments
        ++ (refs_of (λ o. basis_refs o.basis) r.run_operations
            ++ (refs_of result_refs r.run_results
                ++ ((elim r.final_acceptance [ none ↦ [] | some e ↦ final_refs e ])
                    ++ refs_of final_refs r.final_acceptance_history))))

-- The loop that verifies what it has not seen yet.
unfoldable pub verify_refs :
    (EvidenceRef → Bool) → List EvidenceRef → List EvidenceRef → Answer (List EvidenceRef)
verify_refs published [] seen = value seen
verify_refs published (x ∷ xs) seen = elim (contains seen x || published x) [
  | true ↦ verify_refs published xs (if contains seen x then seen else x ∷ seen)
  | false ↦ error StoreError.state_reference
]

unfoldable pub verify_state_references_seen :
    RunId → Io → Option Run → List EvidenceRef → Answer (List EvidenceRef)
verify_state_references_seen id io none seen = error StoreError.run_identity
verify_state_references_seen id io (some r) seen =
    if r.identity.id != id
    then error StoreError.run_identity
    else verify_refs io.published (state_evidence_refs r) seen

unfoldable pub verify_state_references : RunId → Io → Option Run → Answer (List EvidenceRef)
verify_state_references id io state = verify_state_references_seen id io state []
