-- ===== src/Delta/RepairLoop/Samples.antt =====
-- Tests and examples of the repair loop: two claims, of which the second one is contradicted.
use smorx.Prelude.{ℕ, ◌≡◌, refl, String, false, some, List, [], ◌∷◌, sort, Result, ok, err, map}
use smorx.Verification.Contracts.{
  exited, EvidenceRecord, supporting, contradicting, VerificationResult,
}
use smorx.Develop.Bounds.{default_bounds, check}
use smorx.Delta.Deltas.{Classification, BehavioralDeltaRecord, compute_behavioral_deltas}
use smorx.Delta.Decision.{repair_required, CertificationDecision}
use smorx.Delta.Repair.{RepairPlanError}
use smorx.Delta.RepairLoop.{
  RepairLoopResult, Moment, find_affected_claim, repair_claim, run_repair_loop,
}
use smorx.Delta.RepairLoop.Affected.{find_affected_claim-compute_behavioral_deltas}
use smorx.Delta.RepairLoop.Bounded.{Finished, run_repair_loop-Finished}

abbrev evidence : String → String → ℕ → EvidenceRecord
evidence id claim_id code = record {
  evidence_id = id;
  evidence_type = "STATIC_ANALYSIS";
  claim_id = claim_id;
  source = "static";
  provenance = "run";
  artifact = "";
  exit_code = exited code;
  severity = "INFO";
  module_status = "ELIGIBLE";
}

abbrev result : VerificationResult
result = record {
  candidate_id = "p1";
  run_id = "r1";
  change_id = "k1";
  modules = [];
  evidence = evidence "e1" "c1" 0 ∷ evidence "e2" "c2" 1 ∷ [];
  claims = ("c1", supporting) ∷ ("c2", contradicting) ∷ [];
  contradictions = [];
  state = "COMPLETED";
}

abbrev same : String → String
same s = s

abbrev delta_id : String → String → String → Classification → String
delta_id change_id candidate_patch_id claim_id classification = claim_id

abbrev claim_ids : List String
claim_ids = "c2" ∷ "c1" ∷ []

abbrev deltas : List BehavioralDeltaRecord
deltas =
    compute_behavioral_deltas same delta_id "now" "k1" "p1" claim_ids result claim_ids claim_ids

abbrev decision : CertificationDecision
decision = record {
  code = repair_required;
  candidate_id = "p1";
  change_id = "k1";
  run_id = "r1";
  gates = [];
  allow_merge = false;
  reason_failures = [];
}

abbrev moments : ℕ → Moment
moments i = record { now = i; id = "u"; started = "s"; created = "c"; finished = "f" }

abbrev outcomes : Result RepairPlanError RepairLoopResult → List String
outcomes (ok r) = map (λ i. i.outcome) r.iterations
outcomes (err e) = []

-- The signature is the same in both passes.
stops_at_threshold :
    outcomes (run_repair_loop result deltas [] 0 moments default_bounds "p1" decision)
    ≡ "PROCEED" ∷ "NO_PROGRESS" ∷ []
unfolding run_repair_loop compute_behavioral_deltas check find_affected_claim repair_claim
stops_at_threshold = refl

run_repair_loop-Finished_example :
    Finished result deltas [] default_bounds 0 moments
      (run_repair_loop result deltas [] 0 moments default_bounds "p1" decision)
run_repair_loop-Finished_example =
    run_repair_loop-Finished result deltas [] default_bounds 0 moments "p1" decision

-- The claim that is repaired is the one that is supported and unchanged.
find_affected_claim-compute_behavioral_deltas_example :
    find_affected_claim deltas [] result.claims ≡ some "c1"
unfolding sort
find_affected_claim-compute_behavioral_deltas_example =
    find_affected_claim-compute_behavioral_deltas same delta_id "now" "k1" "p1" claim_ids result
      claim_ids claim_ids "c1" [] refl
