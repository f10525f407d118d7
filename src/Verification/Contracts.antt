-- ===== src/Verification/Contracts.antt =====
-- packages/verification/src/smorx_verification/contracts.py. A UUID stands as its text. The fields
-- that no later stage reads are left out: a record's raw machine result and timestamp, an
-- outcome's summary, findings, duration and error.
use smorx.Prelude.{ℕ, zero, suc, String, Bool, true, false, not, ◌&&◌, List, nat_beq, if◌then◌else◌}

pub data ModuleType : Type 0 where
  static_analysis differential_execution historical_ghost_replay metamorphic_check : ModuleType
  adversarial_scenario mutation_test : ModuleType

pub data ModuleStatus : Type 0 where
  pending running passed failed blocked skipped : ModuleStatus

pub data ClaimAssessment : Type 0 where
  supporting contradicting insufficient conflicting : ClaimAssessment

-- A process's exit code; a signal shows as a negative one.
pub data ExitCode : Type 0 where
  exited : ℕ → ExitCode
  signalled : ℕ → ExitCode

-- exit_code != 0
abbrev pub is_failure : ExitCode → Bool
is_failure (exited zero) = false
is_failure (exited (suc n)) = true
is_failure (signalled n) = true

pub record EvidenceRecord : Type 0 where
  pub evidence_id : String
  pub evidence_type : String
  pub claim_id : String
  pub source : String
  pub provenance : String
  pub artifact : String
  pub exit_code : ExitCode
  pub severity : String
  pub module_status : String

pub record ModuleOutcome : Type 0 where
  pub module_type : ModuleType
  pub status : ModuleStatus
  pub evidence : List EvidenceRecord

pub record Contradiction : Type 0 where
  pub claim_id : String
  pub supporting : List String
  pub contradicting : List String
  pub detail : String

unfoldable pub classify_claim : ℕ → ℕ → ℕ → ClaimAssessment
classify_claim supports contradicts warnings =
    if not (nat_beq contradicts 0) && not (nat_beq supports 0)
    then conflicting
    else if not (nat_beq contradicts 0)
    then contradicting
    else if nat_beq supports 0 && nat_beq warnings 0
    then insufficient
    else supporting

pub record VerificationResult : Type 0 where
  pub candidate_id : String
  pub run_id : String
  pub change_id : String
  pub modules : List ModuleOutcome
  pub evidence : List EvidenceRecord
  pub claims : List (String × ClaimAssessment)
  pub contradictions : List Contradiction
  pub state : String
