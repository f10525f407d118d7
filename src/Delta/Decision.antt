-- ===== src/Delta/Decision.antt =====
-- packages/delta/src/smorx_delta/decision.py. A gate's label and a failure's reason, texts in the
-- source, are values that hold what the text is made of; the summary, a fixed text for each code
-- but for the number of reasons, is left out.
pub mod Clearance
use smorx.Prelude.{
  ℕ, String, Bool, true, false, not, ◌&&◌, ◌||◌, Option, none, some, List, [], ◌∷◌, ◌++◌,
  if◌then◌else◌, length, is_empty, allb, anyb, ◌==◌, string_eq,
}
use smorx.Verification.Contracts.{
  ClaimAssessment, contradicting, conflicting, ModuleType, ModuleStatus, failed, passed, skipped,
  ModuleOutcome, VerificationResult,
}
use smorx.Delta.Deltas.{Classification, BehavioralDeltaRecord}
use smorx.Delta.Intent.{Verdict, IntentAlignmentRecord}

pub data DecisionCode : Type 0 where
  eligible_to_continue repair_required blocked insufficient_evidence : DecisionCode

pub data Gate : Type 0 where
  phase9_state : String → Gate
  no_evidence unresolved : Gate
  evidence_count : ℕ → Gate
  claim : String → ClaimAssessment → Gate
  module_failed : ModuleType → Gate
  delta_unexplained intent_unverified intent_unauthorized : String → Gate

pub data ReasonFailure : Type 0 where
  not_completed no_records unresolved_gates : ReasonFailure
  claim_has : String → ClaimAssessment → ReasonFailure
  module_has_failed : ModuleType → ReasonFailure
  unexplained_delta not_yet_authorized unauthorized_change : String → ReasonFailure

pub record CertificationDecision : Type 0 where
  pub code : DecisionCode
  pub candidate_id : String
  pub change_id : String
  pub run_id : String
  pub gates : List Gate
  pub allow_merge : Bool
  pub reason_failures : List ReasonFailure

-- assessment in _HIGH_ASSESSMENTS
abbrev pub is_high : ClaimAssessment → Bool
is_high contradicting = true
is_high conflicting = true
is_high _ = false

abbrev pub is_clean : ModuleStatus → Bool
is_clean passed = true
is_clean skipped = true
is_clean _ = false

abbrev pub has_failed : ModuleStatus → Bool
has_failed failed = true
has_failed _ = false

-- classification in _CHANGED_CLASSIFICATIONS
abbrev pub is_changed : Classification → Bool
is_changed Classification.altered = true
is_changed Classification.added = true
is_changed Classification.removed = true
is_changed _ = false

abbrev pub is_unexplained : Classification → Bool
is_unexplained Classification.unexplained = true
is_unexplained _ = false

-- {alignment.claim_id: alignment for ...}.get(claim_id): the last one counts.
unfoldable pub alignment_for : String → List IntentAlignmentRecord → Option IntentAlignmentRecord
alignment_for claim_id [] = none
alignment_for claim_id (a ∷ as_) =
    let later = alignment_for claim_id as_ in
    elim later [ some b ↦ some b | none ↦ if a.claim_id == claim_id then some a else none ]

-- What one test adds to the gates and to the reasons.
abbrev pub Findings : Type 0
Findings = List (Gate × ReasonFailure)

unfoldable pub claim_findings : List (String × ClaimAssessment) → Findings
claim_findings [] = []
claim_findings ((key, assessment) ∷ claims) =
    let rest = claim_findings claims in
    if is_high assessment then (claim key assessment, claim_has key assessment) ∷ rest else rest

unfoldable pub module_findings : List ModuleOutcome → Findings
module_findings [] = []
module_findings (m ∷ ms) =
    let rest = module_findings ms in
    if has_failed m.status
    then (module_failed m.module_type, module_has_failed m.module_type) ∷ rest
    else rest

-- A changed delta by the verdict of its alignment.
abbrev pub verdict_findings : String → Verdict → Findings
verdict_findings claim_id Verdict.pending =
    (intent_unverified claim_id, not_yet_authorized claim_id) ∷ []
verdict_findings claim_id Verdict.unexplained =
    (intent_unverified claim_id, not_yet_authorized claim_id) ∷ []
verdict_findings claim_id Verdict.unauthorized =
    (intent_unauthorized claim_id, unauthorized_change claim_id) ∷ []
verdict_findings claim_id _ = []

abbrev pub alignment_findings : String → Option IntentAlignmentRecord → Findings
alignment_findings claim_id none = (intent_unverified claim_id, not_yet_authorized claim_id) ∷ []
alignment_findings claim_id (some a) = verdict_findings claim_id a.verdict

unfoldable pub delta_findings_one : List IntentAlignmentRecord → BehavioralDeltaRecord → Findings
unfolding alignment_for
delta_findings_one alignments delta =
    if is_unexplained delta.classification
    then (delta_unexplained delta.claim_id, unexplained_delta delta.claim_id) ∷ []
    else if is_changed delta.classification
    then alignment_findings delta.claim_id (alignment_for delta.claim_id alignments)
    else []

unfoldable pub delta_findings : List IntentAlignmentRecord → List BehavioralDeltaRecord → Findings
unfolding delta_findings_one
delta_findings alignments [] = []
delta_findings alignments (delta ∷ deltas) =
    delta_findings_one alignments delta ++ delta_findings alignments deltas

abbrev pub gates_of : Findings → List Gate
gates_of [] = []
gates_of ((g, r) ∷ fs) = g ∷ gates_of fs

abbrev pub reasons_of : Findings → List ReasonFailure
reasons_of [] = []
reasons_of ((g, r) ∷ fs) = r ∷ reasons_of fs

abbrev pub is_authorized : Option IntentAlignmentRecord → Bool
is_authorized none = false
is_authorized (some a) = elim a.verdict [ Verdict.authorized ↦ true | _ ↦ false ]

unfoldable pub is_cleared : List IntentAlignmentRecord → BehavioralDeltaRecord → Bool
unfolding alignment_for
is_cleared alignments delta =
    if is_unexplained delta.classification
    then false
    else if is_changed delta.classification
    then is_authorized (alignment_for delta.claim_id alignments)
    else true

abbrev pub decision :
    VerificationResult
    → DecisionCode
    → List Gate
    → Bool
    → List ReasonFailure
    → CertificationDecision
decision result code gates allow_merge reasons = record {
  code = code;
  candidate_id = result.candidate_id;
  change_id = result.change_id;
  run_id = result.run_id;
  gates = gates;
  allow_merge = allow_merge;
  reason_failures = reasons;
}

unfoldable pub findings_of :
    VerificationResult → List BehavioralDeltaRecord → List IntentAlignmentRecord → Findings
unfolding claim_findings module_findings delta_findings
findings_of result deltas alignments =
    claim_findings result.claims
    ++ (module_findings result.modules ++ delta_findings alignments deltas)

unfoldable pub decide_certification :
    VerificationResult
    → List BehavioralDeltaRecord
    → List IntentAlignmentRecord
    → CertificationDecision
unfolding findings_of is_cleared
decide_certification result deltas alignments =
    let found = findings_of result deltas alignments in
    let gates =
      phase9_state "COMPLETED" ∷ evidence_count (length result.evidence) ∷ gates_of found in
    let reasons = reasons_of found in
    let clean = allb (λ m. is_clean m.status) result.modules in
    let contradiction_free = not (anyb (λ c. is_high c.1) result.claims) in
    let all_authorized = allb (is_cleared alignments) deltas in
    if not (result.state == "COMPLETED")
    then decision result blocked (phase9_state result.state ∷ []) false (not_completed ∷ [])
    else if is_empty result.evidence
    then decision result insufficient_evidence (phase9_state "COMPLETED" ∷ no_evidence ∷ []) false
        (no_records ∷ [])
    else if not (is_empty gates) && not (is_empty reasons)
    then decision result repair_required gates false reasons
    else if clean && contradiction_free && all_authorized
    then decision result eligible_to_continue gates true []
    else decision result blocked (gates ++ unresolved ∷ []) false
        (if is_empty reasons then unresolved_gates ∷ [] else reasons)
