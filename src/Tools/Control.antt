-- ===== src/Tools/Control.antt =====
-- packages/tools/src/smorx_tools/control.py, with the types of
-- packages/agent-runtime/src/smorx_runtime/toolgate.py that it returns. The fresh ids and the clock's
-- reading of a record are its `Stamp`. A method returns its result, or the exception that it raises,
-- and the plane as it is then. The human gate is the HumanControlPlane of human.py.
pub mod Authorization
pub mod Outcomes
pub mod Execution
pub mod Permission
pub mod Trail
mod Samples
use smorx.Prelude.{
  ℕ, ◌-◌, String, Bool, true, false, not, ◌&&◌, ◌||◌, Option, none, some, List, [], ◌∷◌, ◌++◌,
  if◌then◌else◌, is_empty, contains, ◌==◌, string_eq, lookup, Result, ok, err, joined, ◌<>◌,
  first_chars,
}
use smorx.Runtime.Agents.{allows_tool}
use smorx.Verification.Contracts.{ExitCode, exited}
use smorx.Tools.Tool.{
  Value, plain, number, exit, texts, Mapping, ToolKind, ToolResultStatus, ToolRequest,
  ToolExecutionResult, HandlerRun, returned, timed_out, raised, ToolSpec, ToolRegistry, get,
}
use smorx.Tools.Policies.{
  RiskLevel, PolicyDecision, ResourceKind, PolicyContext, PolicyEngine, evaluate,
}
use smorx.Tools.Human.{
  ApprovalRequest, HumanControlPlane, is_paused, can_execute, approval_for, is_approved_status,
}
use smorx.Tools.Audit.{AuditDecision, AuditRecord, AuditTrail, record_in, is_about}

pub data ToolDecision : Type 0 where
  allow deny require_review block : ToolDecision

pub record ToolAuthorization : Type 0 where
  pub decision : ToolDecision
  pub reasons : List String
  pub risk_level : String

pub record ToolOutcome : Type 0 where
  pub invocation_id : String
  pub allowed : Bool
  pub decision : ToolDecision
  pub tool_name : String
  pub result : Mapping
  pub classification : String
  pub reviewed : Bool
  pub audit_ref : String
  pub executed : Bool

-- The ValueError of `RiskLevel(...)`, and the ToolExecutionError with the tool and the exception.
pub data ControlError : Type 0 where
  bad_risk : String → ControlError
  tool_execution : String → String → ControlError

-- _AuthView
pub record AuthView : Type 0 where
  pub request_id : String
  pub action_id : String
  pub agent_id : String
  pub task_id : String
  pub tool_name : String
  pub arguments : Mapping
  pub capabilities : List String
  pub allowed_tools : List String
  pub environment : String

pub record ControlPlane : Type 0 where
  pub registry : ToolRegistry
  pub engine : PolicyEngine
  pub audit : AuditTrail
  pub human : Option HumanControlPlane
  pub environment : String

pub record Stamp : Type 0 where
  pub audit_id : String
  pub invocation_id : String
  pub at : ℕ

unfoldable pub resource_for_kind : ToolKind → ResourceKind
resource_for_kind ToolKind.file = ResourceKind.path
resource_for_kind ToolKind.repository = ResourceKind.file
resource_for_kind ToolKind.command = ResourceKind.command
resource_for_kind ToolKind.sandbox = ResourceKind.sandbox
resource_for_kind _ = ResourceKind.tool

-- The `.value` of the member.
abbrev pub resource_value : ResourceKind → String
resource_value ResourceKind.tool = "TOOL"
resource_value ResourceKind.path = "PATH"
resource_value ResourceKind.file = "FILE"
resource_value ResourceKind.command = "COMMAND"
resource_value ResourceKind.database = "DATABASE"
resource_value ResourceKind.network = "NETWORK"
resource_value ResourceKind.environment = "ENVIRONMENT"
resource_value ResourceKind.sandbox = "SANDBOX"
resource_value ResourceKind.secret = "SECRET"

abbrev pub status_value : ToolResultStatus → String
status_value ToolResultStatus.succeeded = "SUCCEEDED"
status_value ToolResultStatus.failed = "FAILED"
status_value ToolResultStatus.timeout = "TIMEOUT"
status_value ToolResultStatus.error = "ERROR"
status_value ToolResultStatus.denied = "DENIED"
status_value ToolResultStatus.blocked = "BLOCKED"
status_value ToolResultStatus.pending_review = "PENDING_REVIEW"
status_value ToolResultStatus.unavailable = "UNAVAILABLE"

-- isinstance(value, str)
abbrev pub text_of : Option Value → String
text_of (some (plain s)) = s
text_of _ = ""

abbrev pub first_text : List String → Mapping → String
first_text [] arguments = ""
first_text (key ∷ keys) arguments =
    let rest = first_text keys arguments in
    let value = text_of (lookup key arguments) in if value == "" then rest else value

unfoldable pub resource_ref : Mapping → String
resource_ref arguments = first_text ("resource_ref" ∷ "path" ∷ "target" ∷ "command" ∷ []) arguments

-- RiskLevel(value)
unfoldable pub risk_of : String → Option RiskLevel
risk_of value =
    if value == "low"
    then some RiskLevel.low
    else if value == "medium"
    then some RiskLevel.medium
    else if value == "high"
    then some RiskLevel.high
    else if value == "critical"
    then some RiskLevel.critical
    else none

unfoldable pub policy_context : ToolSpec → AuthView → RiskLevel → PolicyContext
unfolding resource_for_kind resource_ref
policy_context spec view risk = record {
  environment = view.environment;
  agent_id = view.agent_id;
  task_id = view.task_id;
  tool_name = view.tool_name;
  risk = risk;
  resource = resource_for_kind spec.kind;
  resource_ref = resource_ref view.arguments;
  extra = [];
}

-- The loop over the reversed records: the last one about the action and the tool.
unfoldable pub latest_for : String → String → AuditTrail → Option AuditRecord
latest_for action_id tool_name [] = none
latest_for action_id tool_name (r ∷ rs) = elim (latest_for action_id tool_name rs) [
  | some later ↦ some later
  | none ↦ if is_about action_id tool_name r then some r else none
]

abbrev pub is_executed : AuditDecision → Bool
is_executed AuditDecision.executed = true
is_executed _ = false

unfoldable pub is_duplicate : String → String → AuditTrail → Bool
unfolding latest_for
is_duplicate action_id tool_name trail = elim (latest_for action_id tool_name trail) [
  | none ↦ false
  | some r ↦ is_executed r.decision
]

-- `_record`
unfoldable pub audit_record :
    Stamp → AuthView → AuditDecision → String → String → String → String → AuditRecord
audit_record stamp view decision reason risk_level resource_kind ref = record {
  audit_id = stamp.audit_id;
  recorded_at = stamp.at;
  invocation_id = stamp.invocation_id;
  request_id = view.request_id;
  action_id = view.action_id;
  agent_id = view.agent_id;
  task_id = view.task_id;
  tool_name = view.tool_name;
  decision = decision;
  reasons = reason ∷ [];
  risk_level = risk_level;
  resource_kind = resource_kind;
  resource_ref = ref;
  exit_code = none;
  outcome_classification = "";
  status = "";
  result_summary = "";
}
