-- ===== src/Delta/RepairLoop/Affected.antt =====
-- Which claim the loop repairs, on the deltas that `compute_behavioral_deltas` returns.
use smorx.Prelude.{
  ◌≡◌, refl, ◌∙◌, String, Option, none, some, List, [], ◌∷◌, map, arith, string_eq, ==-refl, sort,
}
use smorx.Verification.Contracts.{ClaimAssessment, VerificationResult}
use smorx.Delta.Deltas.{
  Classification, AlignmentStatus, BehavioralDeltaRecord, delta_record, compute_behavioral_deltas,
}
use smorx.Delta.Intent.{IntentAlignmentRecord}
use smorx.Delta.RepairLoop.{find_affected_claim}

abbrev pub first : List String → Option String
first [] = none
first (c ∷ cs) = some c

-- A first delta that is pending is the affected one.
find_affected_claim_pending :
    (d : BehavioralDeltaRecord) (ds : List BehavioralDeltaRecord)
    (alignments : List IntentAlignmentRecord) (claims : List (String × ClaimAssessment))
    → d.intent_alignment ≡ AlignmentStatus.pending
    → find_affected_claim (d ∷ ds) alignments claims ≡ some d.claim_id
unfolding find_affected_claim
find_affected_claim_pending d ds alignments claims h = rw (==-refl d.claim_id, h) (ground arith)

module _ (upper : String → String)
    (record_id : String → String → String → Classification → String) where
  -- On the deltas of `compute_behavioral_deltas`, which are all PENDING, the affected claim is the
  -- first claim in sorted order, whatever its classification, its alignment and its verdict are.
  pub find_affected_claim-compute_behavioral_deltas :
      (at change_id candidate_patch_id : String) (claim_ids : List String)
      (result : VerificationResult) (baseline candidates : List String) (c : String)
      (alignments : List IntentAlignmentRecord)
      → first (sort claim_ids) ≡ some c
      → find_affected_claim
          (compute_behavioral_deltas upper record_id at change_id candidate_patch_id claim_ids
            result baseline candidates)
          alignments
          result.claims
        ≡ some c
  unfolding compute_behavioral_deltas delta_record
  find_affected_claim-compute_behavioral_deltas at change_id candidate_patch_id claim_ids result
        baseline candidates c alignments h =
      of_sorted (sort claim_ids) h
    where
      delta_of : String → BehavioralDeltaRecord
      delta_of =
          delta_record upper record_id at change_id candidate_patch_id result baseline candidates

      of_sorted :
          (cs : List String)
          → first cs ≡ some c
          → find_affected_claim (map delta_of cs) alignments result.claims ≡ some c
      of_sorted [] e = cc
      of_sorted (x ∷ cs) e =
          find_affected_claim_pending (delta_of x) (map delta_of cs) alignments result.claims refl
          ∙ e
