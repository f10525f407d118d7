-- ===== src/Delta/Samples.antt =====
-- Tests and examples of the decision: a claim that one record supports and no baseline holds.
use smorx.Prelude.{
  ◌≡◌, refl, ◌↔◌, String, true, false, none, some, List, [], ◌∷◌, contains, string_eq, lookup, ◌||◌,
  if◌then◌else◌, anyb,
}
use smorx.Verification.Contracts.{
  exited, EvidenceRecord, supporting, classify_claim, static_analysis, passed, VerificationResult,
}
use smorx.Verification.Fusion.{fuse_claim_evidence}
use smorx.Verification.Fusion.Verdicts.{supporters, opponents, about, lookup-verdicts}
use smorx.Delta.Deltas.{Classification, BehavioralDeltaRecord, compute_behavioral_deltas}
use smorx.Delta.Intent.{
  absent, single, requirement, IntentItem, Verdict, IntentAlignmentRecord,
  evaluate_intent_alignment,
}
use smorx.Delta.Decision.{decide_certification}
use smorx.Delta.Decision.Clearance.{IsClear, allow_merge-IsClear}
use smorx.Delta.Pipeline.{IsAccounted, allow_merge-IsAccounted}
use smorx.Delta.Unopposed.{allow_merge-opponents}

abbrev support : EvidenceRecord
support = record {
  evidence_id = "e1";
  evidence_type = "STATIC_ANALYSIS";
  claim_id = "c1";
  source = "static";
  provenance = "run";
  artifact = "";
  exit_code = exited 0;
  severity = "INFO";
  module_status = "ELIGIBLE";
}

abbrev result : VerificationResult
result = record {
  candidate_id = "p1";
  run_id = "r1";
  change_id = "k1";
  modules = record { module_type = static_analysis; status = passed; evidence = support ∷ [] } ∷ [];
  evidence = support ∷ [];
  claims = ("c1", supporting) ∷ [];
  contradictions = [];
  state = "COMPLETED";
}

abbrev item : IntentItem
item = record {
  id = "i1";
  kind = requirement;
  statement = single "the change adds c1";
  behaviors = absent;
  targets = absent;
  behavior = absent;
  target = absent;
}

-- The conversions of case leave the texts alone, and an id is the claim's.
abbrev same : String → String
same s = s

abbrev delta_id : String → String → String → Classification → String
delta_id change_id candidate_patch_id claim_id classification = claim_id

abbrev alignment_id : String → String → Verdict → String
alignment_id claim_id intent_item_id verdict = claim_id

abbrev deltas : List BehavioralDeltaRecord
deltas = compute_behavioral_deltas same delta_id "now" "k1" "p1" ("c1" ∷ []) result [] ("c1" ∷ [])

abbrev alignments : List IntentAlignmentRecord
alignments = evaluate_intent_alignment same alignment_id deltas (item ∷ [])

allowed : (decide_certification result deltas alignments).allow_merge ≡ true
unfolding compute_behavioral_deltas evaluate_intent_alignment decide_certification
allowed = refl

not_covered :
    (decide_certification result deltas
      (evaluate_intent_alignment same alignment_id deltas [])).allow_merge
    ≡ false
unfolding compute_behavioral_deltas evaluate_intent_alignment decide_certification
not_covered = refl

allow_merge-IsClear_example :
    ((decide_certification result deltas alignments).allow_merge ≡ true)
    ↔ IsClear result deltas alignments
allow_merge-IsClear_example = allow_merge-IsClear result deltas alignments

allow_merge-IsAccounted_example :
    IsAccounted same same delta_id alignment_id "now" "k1" "p1" result []
      ("c1" ∷ [])
      (item ∷ [])
      "c1"
unfolding contains
allow_merge-IsAccounted_example =
    allow_merge-IsAccounted same same delta_id alignment_id "now" "k1" "p1" result [] ("c1" ∷ [])
      (item ∷ []) ("c1" ∷ []) "c1" refl allowed

fused_is : result.claims ≡ (fuse_claim_evidence (support ∷ []) ("c1" ∷ [])).verdicts
unfolding fuse_claim_evidence
fused_is = refl

allow_merge-opponents_example : opponents "c1" (support ∷ []) ≡ 0
unfolding contains
allow_merge-opponents_example =
    allow_merge-opponents (support ∷ []) ("c1" ∷ []) result deltas alignments "c1" fused_is refl
      allowed

lookup-verdicts_example : lookup "c1" (fuse_claim_evidence (support ∷ []) ("c1" ∷ [])).verdicts ≡ (
    if contains {A = String} ("c1" ∷ []) "c1" || anyb (about "c1") (support ∷ [])
    then some (classify_claim (supporters "c1" (support ∷ [])) (opponents "c1" (support ∷ [])) 0)
    else none)
lookup-verdicts_example = lookup-verdicts (support ∷ []) ("c1" ∷ []) "c1"
