-- ===== src/Delta/Repair.antt =====
-- packages/delta/src/smorx_delta/repair.py. The fresh id and the time of creation are arguments.
use smorx.Prelude.{String, List, [], is_empty, if◌then◌else◌, ◌==◌, string_eq, Result, ok, err}

pub data RepairPlanError : Type 0 where
  no_evidence_ids no_required_outcome no_affected_claim_id : RepairPlanError

pub record RepairPackageRecord : Type 0 where
  pub id : String
  pub failure_id : String
  pub expected_behavior : String
  pub observed_behavior : String
  pub affected_claim_id : String
  pub required_outcome : String
  pub created_at : String
  pub version : String
  pub evidence_ids : List String
  pub suspected_path : String
  pub acceptance_criteria : List String
  pub constraints : List String

-- The three last arguments, which no caller gives, have their defaults.
unfoldable pub build_repair_package :
    String
    → String
    → String
    → String
    → String
    → String
    → List String
    → String
    → Result RepairPlanError RepairPackageRecord
build_repair_package id now failure_id affected_claim_id expected_behavior observed_behavior
      evidence_ids required_outcome =
    if is_empty evidence_ids
    then err no_evidence_ids
    else if required_outcome == ""
    then err no_required_outcome
    else if affected_claim_id == ""
    then err no_affected_claim_id
    else ok (record {
      id = id;
      failure_id = failure_id;
      expected_behavior = expected_behavior;
      observed_behavior = observed_behavior;
      affected_claim_id = affected_claim_id;
      required_outcome = required_outcome;
      created_at = now;
      version = "1.0.0";
      evidence_ids = evidence_ids;
      suspected_path = "";
      acceptance_criteria = [];
      constraints = [];
    })
