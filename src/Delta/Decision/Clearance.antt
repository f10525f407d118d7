-- ===== src/Delta/Decision/Clearance.antt =====
-- A merge is allowed exactly when every test is passed.
use smorx.Prelude.{
  ◌≡◌, refl, String, ◌↔◌, true, false, List, [], ◌∷◌, arith, is_empty, allb, anyb, string_eq,
  eq_of_beq,
}
use smorx.Verification.Contracts.{ClaimAssessment, ModuleOutcome, VerificationResult}
use smorx.Delta.Deltas.{BehavioralDeltaRecord}
use smorx.Delta.Intent.{IntentAlignmentRecord}
use smorx.Delta.Decision.{
  is_high, is_clean, claim_findings, module_findings, delta_findings_one, delta_findings,
  is_cleared, findings_of, decide_certification,
}

claim_findings_none :
    (claims : List (String × ClaimAssessment))
    → anyb (λ c. is_high c.1) claims ≡ false
    → claim_findings claims ≡ []
unfolding claim_findings
claim_findings_none [] h = refl
claim_findings_none ((k, a) ∷ claims) h = ground (arith, claim_findings_none claims)

module_findings_none :
    (ms : List ModuleOutcome) → allb (λ m. is_clean m.status) ms ≡ true → module_findings ms ≡ []
unfolding module_findings
module_findings_none [] h = refl
module_findings_none (m ∷ ms) h = ground (arith, module_findings_none ms)

delta_findings_one_none :
    (as_ : List IntentAlignmentRecord) (d : BehavioralDeltaRecord)
    → is_cleared as_ d ≡ true
    → delta_findings_one as_ d ≡ []
unfolding delta_findings_one is_cleared
delta_findings_one_none as_ d h = ground arith

delta_findings_none :
    (as_ : List IntentAlignmentRecord) (ds : List BehavioralDeltaRecord)
    → allb (is_cleared as_) ds ≡ true
    → delta_findings as_ ds ≡ []
unfolding delta_findings
delta_findings_none as_ [] h = refl
delta_findings_none as_ (d ∷ ds) h =
    rw (delta_findings_one_none as_ d (ground arith)) (delta_findings_none as_ ds (ground arith))

-- The tests that a mergeable candidate passes.
pub record IsClear (result : VerificationResult) (deltas : List BehavioralDeltaRecord)
    (alignments : List IntentAlignmentRecord) : Type 0 where
  pub completed : result.state ≡ "COMPLETED"
  pub evidenced : is_empty result.evidence ≡ false
  pub no_high_claim : anyb (λ c. is_high c.1) result.claims ≡ false
  pub modules_clean : allb (λ m. is_clean m.status) result.modules ≡ true
  pub deltas_cleared : allb (is_cleared alignments) deltas ≡ true

findings_of_none :
    (result : VerificationResult) (deltas : List BehavioralDeltaRecord)
    (alignments : List IntentAlignmentRecord)
    → IsClear result deltas alignments
    → findings_of result deltas alignments ≡ []
unfolding findings_of
findings_of_none result deltas alignments h =
    rw (claim_findings_none result.claims h.no_high_claim) (
      rw (module_findings_none result.modules h.modules_clean)
        (delta_findings_none alignments deltas h.deltas_cleared))

IsClear-allow_merge :
    (result : VerificationResult) (deltas : List BehavioralDeltaRecord)
    (alignments : List IntentAlignmentRecord)
    → IsClear result deltas alignments
    → (decide_certification result deltas alignments).allow_merge ≡ true
unfolding decide_certification
IsClear-allow_merge result deltas alignments h = rw (findings_of_none result deltas alignments h) (
    rw h.completed
      (rw h.evidenced (rw h.modules_clean (rw h.no_high_claim (rw h.deltas_cleared refl)))))

allowed-IsClear :
    (result : VerificationResult) (deltas : List BehavioralDeltaRecord)
    (alignments : List IntentAlignmentRecord)
    → (decide_certification result deltas alignments).allow_merge ≡ true
    → IsClear result deltas alignments
unfolding decide_certification
allowed-IsClear result deltas alignments h = record {
  completed = eq_of_beq result.state "COMPLETED" (ground arith);
  evidenced = ground arith;
  no_high_claim = ground arith;
  modules_clean = ground arith;
  deltas_cleared = ground arith;
}

-- `allow_merge` is set exactly when the wave is COMPLETED with evidence, no claim is contradicting
-- or conflicting, every module passed or was skipped, and no delta is unexplained or changed
-- without an alignment that authorizes it.
pub allow_merge-IsClear :
    (result : VerificationResult) (deltas : List BehavioralDeltaRecord)
    (alignments : List IntentAlignmentRecord)
    → ((decide_certification result deltas alignments).allow_merge ≡ true)
      ↔ IsClear result deltas alignments
allow_merge-IsClear result deltas alignments =
    (allowed-IsClear result deltas alignments, IsClear-allow_merge result deltas alignments)
