-- ===== src/Verification/Fusion/Samples.antt =====
-- Tests and examples of the fusion: a claim with a record on each side, and one with none.
use smorx.Prelude.{ℕ, ◌≡◌, refl, String, List, [], ◌∷◌, map}
use smorx.Verification.Contracts.{exited, EvidenceRecord, conflicting, insufficient}
use smorx.Verification.Fusion.{fuse_claim_evidence}
use smorx.Verification.Fusion.Contradictions.{
  conflicting_claims, fuse_claim_evidence-conflicting_claims,
}

abbrev evidence : String → String → ℕ → EvidenceRecord
evidence id claim_id code = record {
  evidence_id = id;
  evidence_type = "MUTATION_TEST";
  claim_id = claim_id;
  source = "mutation";
  provenance = "run";
  artifact = "";
  exit_code = exited code;
  severity = "INFO";
  module_status = "";
}

abbrev records : List EvidenceRecord
records = evidence "e1" "c1" 0 ∷ evidence "e2" "c1" 1 ∷ []

verdicts_of_records :
    (fuse_claim_evidence records ("c2" ∷ [])).verdicts
    ≡ ("c2", insufficient) ∷ ("c1", conflicting) ∷ []
unfolding fuse_claim_evidence
verdicts_of_records = refl

fuse_claim_evidence-conflicting_claims_example :
    map (λ k. k.claim_id) (fuse_claim_evidence records ("c2" ∷ [])).contradictions
    ≡ conflicting_claims (fuse_claim_evidence records ("c2" ∷ [])).verdicts
fuse_claim_evidence-conflicting_claims_example =
    fuse_claim_evidence-conflicting_claims records ("c2" ∷ [])
