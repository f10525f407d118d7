-- ===== src/Delta/Deltas.antt =====
-- packages/delta/src/smorx_delta/deltas.py. `str.upper` and `uuid.uuid5` are parameters, and the
-- clock's reading an argument. A classification that is none of the five is `other`.
use smorx.Prelude.{
  String, Bool, true, false, not, ◌&&◌, ◌||◌, Option, none, some, List, [], ◌∷◌, map, if◌then◌else◌,
  is_empty, anyb, ◌==◌, string_eq, contains, lookup, insert, sort,
}
use smorx.Verification.Contracts.{
  EvidenceRecord, ClaimAssessment, contradicting, conflicting, ModuleOutcome, VerificationResult,
  is_failure,
}

pub data Classification : Type 0 where
  unexplained altered added removed unchanged : Classification
  other : String → Classification

pub data AlignmentStatus : Type 0 where
  pending aligned misaligned : AlignmentStatus

pub record BehavioralDeltaRecord : Type 0 where
  pub id : String
  pub change_id : String
  pub candidate_patch_id : String
  pub classification : Classification
  pub claim_id : String
  pub intent_alignment : AlignmentStatus
  pub authorized : Option Bool
  pub observed_at : String
  pub evidence_ids : List String

abbrev pub Records : Type 0
Records = List (String × EvidenceRecord)

-- The records about a claim, added to those that are there under their evidence ids.
unfoldable pub collect : String → List EvidenceRecord → Records → Records
unfolding insert
collect claim_id [] records = records
collect claim_id (r ∷ rs) records =
    collect claim_id rs (if r.claim_id == claim_id then insert r.evidence_id r records else records)

unfoldable pub collect_modules : String → List ModuleOutcome → Records → Records
unfolding collect
collect_modules claim_id [] records = records
collect_modules claim_id (m ∷ ms) records =
    collect_modules claim_id ms (collect claim_id m.evidence records)

unfoldable pub claim_evidence : VerificationResult → String → List EvidenceRecord
unfolding collect_modules
claim_evidence result claim_id =
    map (λ entry. entry.1)
      (collect_modules claim_id result.modules (collect claim_id result.evidence []))

unfoldable pub evidence_ids : List EvidenceRecord → List String
unfolding sort
evidence_ids evidence = sort (map (λ r. r.evidence_id) evidence)

-- The claims' keys are texts, so the second look, for a key whose text is the id, finds what the
-- first one does.
unfoldable pub claim_assessment : VerificationResult → String → Option ClaimAssessment
unfolding lookup
claim_assessment result claim_id = lookup claim_id result.claims

-- in _CONTRADICTING_ASSESSMENTS
abbrev pub is_contradicting_assessment : Option ClaimAssessment → Bool
is_contradicting_assessment (some contradicting) = true
is_contradicting_assessment (some conflicting) = true
is_contradicting_assessment _ = false

module _ (upper : String → String) where
  unfoldable pub is_critical : EvidenceRecord → Bool
  is_critical r =
      upper r.severity == "HIGH" || upper r.severity == "CRITICAL" || is_failure r.exit_code

  unfoldable pub is_contradicting : VerificationResult → String → List EvidenceRecord → Bool
  unfolding is_critical claim_assessment
  is_contradicting result claim_id evidence =
      anyb is_critical evidence || is_contradicting_assessment (claim_assessment result claim_id)

  unfoldable pub classify_delta :
      String → VerificationResult → List String → List String → Classification × List String
  unfolding claim_evidence is_contradicting evidence_ids contains
  classify_delta claim_id result baseline candidates =
      let evidence = claim_evidence result claim_id in
      if is_empty evidence
      then (unexplained, [])
      else if is_contradicting result claim_id evidence
      then (altered, evidence_ids evidence)
      else if contains candidates claim_id && not (contains baseline claim_id)
      then (added, evidence_ids evidence)
      else if contains baseline claim_id && not (contains candidates claim_id)
      then (removed, evidence_ids evidence)
      else (unchanged, evidence_ids evidence)

  module _ (record_id : String → String → String → Classification → String) where
    unfoldable pub delta_record :
        String
        → String
        → String
        → VerificationResult
        → List String
        → List String
        → String
        → BehavioralDeltaRecord
    unfolding classify_delta
    delta_record observed_at change_id candidate_patch_id result baseline candidates claim_id =
        let (classification, ids) = classify_delta claim_id result baseline candidates in
        record {
          id = record_id change_id candidate_patch_id claim_id classification;
          change_id = change_id;
          candidate_patch_id = candidate_patch_id;
          classification = classification;
          claim_id = claim_id;
          intent_alignment = pending;
          authorized = none;
          observed_at = observed_at;
          evidence_ids = ids;
        }

    unfoldable pub compute_behavioral_deltas :
        String
        → String
        → String
        → List String
        → VerificationResult
        → List String
        → List String
        → List BehavioralDeltaRecord
    unfolding delta_record sort
    compute_behavioral_deltas observed_at change_id candidate_patch_id claim_ids result baseline
          candidates =
        map (delta_record observed_at change_id candidate_patch_id result baseline candidates)
          (sort claim_ids)
