-- ===== src/Delta/Unopposed.antt =====
-- The fused verdicts as the claims of the decision.
use smorx.Prelude.{
  ℕ, ◌≡◌, String, true, false, ◌||◌, some, List, [], ◌∷◌, arith, inl, inr, Bool-cases, anyb, ◌==◌,
  string_eq, contains, lookup,
}
use smorx.Verification.Contracts.{
  EvidenceRecord, ClaimAssessment, classify_claim, VerificationResult,
}
use smorx.Verification.Fusion.{fuse_claim_evidence}
use smorx.Verification.Fusion.Verdicts.{supporters, opponents, about, lookup-verdicts}
use smorx.Delta.Deltas.{BehavioralDeltaRecord}
use smorx.Delta.Intent.{IntentAlignmentRecord}
use smorx.Delta.Decision.{is_high, decide_certification}
use smorx.Delta.Decision.Clearance.{allow_merge-IsClear}

lookup-is_high :
    (claims : List (String × ClaimAssessment)) (c : String) (a : ClaimAssessment)
    → anyb (λ x. is_high x.1) claims ≡ false
    → lookup c claims ≡ some a
    → is_high a ≡ false
unfolding lookup
lookup-is_high [] c a calm e = cc
lookup-is_high ((k, b) ∷ claims) c a calm e = elim (Bool-cases (k == c)) [
  | inl here ↦ let same : b ≡ a = cc (rw here at e) in rw (← same) (ground arith)
  | inr past ↦ lookup-is_high claims c a (ground arith) (rw past at e)
]

opposed_is_high : (s o : ℕ) → is_high (classify_claim s o 0) ≡ false → o ≡ 0
unfolding classify_claim
opposed_is_high s o h = ground arith

-- If the claims are the fused verdicts of the records, then `decide_certification` allows a merge
-- only if no record speaks against a claim that was asked for or that a record names.
pub allow_merge-opponents :
    (records : List EvidenceRecord) (claim_ids : List String) (result : VerificationResult)
    (deltas : List BehavioralDeltaRecord) (alignments : List IntentAlignmentRecord) (c : String)
    → result.claims ≡ (fuse_claim_evidence records claim_ids).verdicts
    → (contains claim_ids c || anyb (about c) records) ≡ true
    → (decide_certification result deltas alignments).allow_merge ≡ true
    → opponents c records ≡ 0
allow_merge-opponents records claim_ids result deltas alignments c claims_are named h =
    opposed_is_high (supporters c records) (opponents c records) (
      lookup-is_high (fuse_claim_evidence records claim_ids).verdicts c
        (classify_claim (supporters c records) (opponents c records) 0)
        (rw claims_are at ((allow_merge-IsClear result deltas alignments).0 h).no_high_claim)
        (rw named at (lookup-verdicts records claim_ids c)))
