-- ===== src/Tools/Audit.antt =====
-- packages/tools/src/smorx_tools/audit.py. The counts of `summary` are left out.
use smorx.Prelude.{
  ℕ, String, Bool, ◌&&◌, Option, List, [], ◌∷◌, ◌++◌, filterb, anyb, ◌==◌, string_eq,
}
use smorx.Verification.Contracts.{ExitCode}

pub data AuditDecision : Type 0 where
  allowed denied review blocked executed failed timeout cancelled : AuditDecision

pub record AuditRecord : Type 0 where
  pub audit_id : String
  pub recorded_at : ℕ
  pub invocation_id : String
  pub request_id : String
  pub action_id : String
  pub agent_id : String
  pub task_id : String
  pub tool_name : String
  pub decision : AuditDecision
  pub reasons : List String
  pub risk_level : String
  pub resource_kind : String
  pub resource_ref : String
  pub exit_code : Option ExitCode
  pub outcome_classification : String
  pub status : String
  pub result_summary : String

abbrev pub AuditTrail : Type 0
AuditTrail = List AuditRecord

abbrev pub record_in : AuditRecord → AuditTrail → AuditTrail
record_in r trail = trail ++ r ∷ []

unfoldable pub has_invocation : String → AuditTrail → Bool
has_invocation invocation_id trail = anyb (λ r. r.invocation_id == invocation_id) trail

abbrev pub is_about : String → String → AuditRecord → Bool
is_about action_id tool_name r = r.action_id == action_id && r.tool_name == tool_name

unfoldable pub has_action : String → String → AuditTrail → Bool
has_action action_id tool_name trail = anyb (is_about action_id tool_name) trail

unfoldable pub by_tool : String → AuditTrail → List AuditRecord
by_tool tool_name trail = filterb (λ r. r.tool_name == tool_name) trail

unfoldable pub by_agent : String → AuditTrail → List AuditRecord
by_agent agent_id trail = filterb (λ r. r.agent_id == agent_id) trail
