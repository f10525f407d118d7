-- ===== src/Tools/Control/Execution.antt =====
-- packages/tools/src/smorx_tools/control.py: the run of an authorized call. A timeout is printed as
-- `:g` prints it below a million seconds.
use smorx.Prelude.{
  ℕ, ◌-◌, String, not, ◌&&◌, Option, none, some, [], ◌∷◌, if◌then◌else◌, ◌==◌, string_eq, lookup,
  Result, ok, err, ◌<>◌, str, first_chars,
}
use smorx.Runtime.Graph.{SpecialistCapability}
use smorx.Runtime.Agents.{AgentAssignment}
use smorx.Tools.Tool.{
  Mapping, ToolResultStatus, ToolRequest, ToolExecutionResult, HandlerRun, returned, timed_out,
  raised, ToolSpec, get,
}
use smorx.Tools.Audit.{AuditDecision, AuditRecord, record_in}
use smorx.Tools.Control.{
  ToolOutcome, ControlError, tool_execution, AuthView, ControlPlane, Stamp, resource_for_kind,
  resource_value, status_value, text_of, resource_ref,
}
use smorx.Tools.Control.Authorization.{authorize_view}
use smorx.Tools.Control.Outcomes.{is_allow, denied_outcome, denied_result, outcome_from_result}

-- The fresh values of one call: the request's id, the stamp of the decision, of the result and of
-- its record, and the clock's reading when the result is made.
pub record Fresh : Type 0 where
  pub request_id : String
  pub deciding : Stamp
  pub running : Stamp
  pub finished_at : ℕ
  pub recording : Stamp

-- The `.value` of the member.
abbrev pub capability_value : SpecialistCapability → String
capability_value SpecialistCapability.archaeology = "ARCHAEOLOGY"
capability_value SpecialistCapability.knowledge = "KNOWLEDGE"
capability_value SpecialistCapability.intent = "INTENT"
capability_value SpecialistCapability.impact = "IMPACT"
capability_value SpecialistCapability.coding = "CODING"
capability_value SpecialistCapability.verification = "VERIFICATION"
capability_value SpecialistCapability.evidence = "EVIDENCE"
capability_value SpecialistCapability.repair = "REPAIR"
capability_value SpecialistCapability.certification = "CERTIFICATION"

unfoldable pub view_from_assignment :
    String → AgentAssignment → String → Mapping → String → String → AuthView
view_from_assignment request_id assignment tool_name arguments action_id environment = record {
  request_id = request_id;
  action_id = action_id;
  agent_id = assignment.agent_id;
  task_id = assignment.task_id;
  tool_name = tool_name;
  arguments = arguments;
  capabilities = capability_value assignment.capability ∷ [];
  allowed_tools = assignment.allowed_tools;
  environment = environment;
}

unfoldable pub view_from_request : ToolRequest → AuthView
view_from_request request = record {
  request_id = request.request_id;
  action_id = request.action_id;
  agent_id = request.agent_id;
  task_id = request.task_id;
  tool_name = request.tool_name;
  arguments = request.arguments;
  capabilities = request.assignment_capabilities;
  allowed_tools = request.allowed_tools;
  environment = request.environment;
}

unfoldable pub build_request : AgentAssignment → AuthView → ℕ → String → ToolRequest
build_request assignment view timeout_seconds environment = record {
  request_id = view.request_id;
  action_id = view.action_id;
  agent_id = view.agent_id;
  task_id = view.task_id;
  tool_name = view.tool_name;
  arguments = view.arguments;
  assignment_capabilities = view.capabilities;
  allowed_tools = view.allowed_tools;
  phase = assignment.context.phase;
  environment = environment;
  timeout_seconds = timeout_seconds;
  sandbox_id = text_of (lookup "sandbox_id" view.arguments);
}

unfoldable pub raw_result :
    Fresh → ToolRequest → ToolResultStatus → String → String → ToolExecutionResult
raw_result fresh request status error_classification message = record {
  invocation_id = fresh.running.invocation_id;
  tool_name = request.tool_name;
  request_id = request.request_id;
  status = status;
  started_at = fresh.running.at;
  finished_at = fresh.finished_at;
  duration_seconds = fresh.finished_at - fresh.running.at;
  exit_code = none;
  stdout = "";
  stderr = "";
  artifacts = [];
  error_classification = error_classification;
  timeout_seconds = request.timeout_seconds;
  sandbox_id = request.sandbox_id;
  message = message;
}

unfoldable pub audit_decision_for : ToolResultStatus → AuditDecision
audit_decision_for ToolResultStatus.succeeded = AuditDecision.executed
audit_decision_for ToolResultStatus.failed = AuditDecision.failed
audit_decision_for ToolResultStatus.timeout = AuditDecision.timeout
audit_decision_for ToolResultStatus.error = AuditDecision.failed
audit_decision_for ToolResultStatus.denied = AuditDecision.denied
audit_decision_for ToolResultStatus.blocked = AuditDecision.blocked
audit_decision_for ToolResultStatus.unavailable = AuditDecision.cancelled
audit_decision_for ToolResultStatus.pending_review = AuditDecision.review

unfoldable pub execution_record : Stamp → ToolRequest → ToolSpec → ToolExecutionResult → AuditRecord
unfolding audit_decision_for resource_for_kind resource_ref first_chars
execution_record stamp request spec result = record {
  audit_id = stamp.audit_id;
  recorded_at = stamp.at;
  invocation_id = result.invocation_id;
  request_id = request.request_id;
  action_id = request.action_id;
  agent_id = request.agent_id;
  task_id = request.task_id;
  tool_name = result.tool_name;
  decision = audit_decision_for result.status;
  reasons = ("status " <> status_value result.status) ∷ [];
  risk_level = spec.risk;
  resource_kind = resource_value (resource_for_kind spec.kind);
  resource_ref = resource_ref request.arguments;
  exit_code = result.exit_code;
  outcome_classification = result.error_classification;
  status = status_value result.status;
  result_summary = first_chars 200 (if result.message == "" then result.stdout else result.message);
}

abbrev pub Ran : Type 0
Ran = Result ControlError (ToolExecutionResult × AuditRecord) × ControlPlane

-- `_record_execution`, and what the method returns.
unfoldable pub record_execution :
    Fresh → ToolRequest → ToolSpec → ToolExecutionResult → ControlPlane → Ran
unfolding execution_record
record_execution fresh request spec result plane =
    let r = execution_record fresh.recording request spec result in
    (ok (result, r), record plane { audit = record_in r plane.audit })

unfoldable pub run_handler : Fresh → ToolRequest → ToolSpec → HandlerRun → ControlPlane → Ran
unfolding raw_result record_execution execution_record
run_handler fresh request spec (returned result) plane =
    record_execution fresh request spec result plane
run_handler fresh request spec timed_out plane =
    record_execution fresh request spec
      (raw_result fresh request ToolResultStatus.timeout "timeout"
        ("tool timed out after " <> str request.timeout_seconds <> "s"))
      plane
run_handler fresh request spec (raised message) plane =
    let failure = raw_result fresh request ToolResultStatus.error "tool failure" message in
    (
      err (tool_execution request.tool_name message),
      (record_execution fresh request spec failure plane).1,
    )

unfoldable pub execute_authorized : Fresh → ToolRequest → ToolSpec → ControlPlane → Ran
unfolding raw_result record_execution run_handler
execute_authorized fresh request spec plane =
    if spec.requires_sandbox && request.sandbox_id == ""
    then record_execution fresh request spec
        (raw_result fresh request ToolResultStatus.unavailable "environment/dependency failure"
          "requires a sandbox but no sandbox_id was provided")
        plane
    else elim spec.handler [
      | none ↦
          record_execution fresh request spec
            (raw_result fresh request ToolResultStatus.error "tool failure" "no handler registered")
            plane
      | some handler ↦ run_handler fresh request spec (handler request) plane
    ]

abbrev pub timeout_or : ℕ → Option ℕ → ℕ
timeout_or given none = given
timeout_or given (some t) = t

-- The second half of `execute`, with the tool that is allowed.
unfoldable pub execute_allowed :
    Fresh
    → AgentAssignment
    → AuthView
    → Option ℕ
    → ToolSpec
    → ControlPlane
    → Result ControlError ToolOutcome × ControlPlane
unfolding build_request execute_authorized outcome_from_result
execute_allowed fresh assignment view timeout_seconds spec plane =
    let timeout = timeout_or spec.timeout_seconds timeout_seconds in
    let request = build_request assignment view timeout plane.environment in
    let (ran, plane') = execute_authorized fresh request spec plane in
    elim ran [
      | err e ↦ (err e, plane')
      | ok (result, r) ↦
          (ok (record (outcome_from_result result) { audit_ref = r.audit_id }), plane')
    ]

unfoldable pub execute :
    Fresh
    → AgentAssignment
    → String
    → Mapping
    → String
    → Option ℕ
    → ControlPlane
    → Result ControlError ToolOutcome × ControlPlane
unfolding view_from_assignment get authorize_view denied_outcome execute_allowed
execute fresh assignment tool_name arguments action_id timeout_seconds plane =
    let view =
      view_from_assignment fresh.request_id assignment tool_name arguments action_id
        plane.environment in
    let spec = get plane.registry tool_name in
    let (decided, plane') = authorize_view fresh.deciding spec view plane in
    elim decided [
      | err e ↦ (err e, plane')
      | ok (authorization, r) ↦
          if not (is_allow authorization.decision)
          then (ok (denied_outcome authorization r tool_name), plane')
          else elim spec [
            | none ↦ (ok (denied_outcome authorization r tool_name), plane')
            | some spec ↦ execute_allowed fresh assignment view timeout_seconds spec plane'
          ]
    ]

unfoldable pub execute_request :
    Fresh → ToolRequest → ControlPlane → Result ControlError ToolExecutionResult × ControlPlane
unfolding get view_from_request authorize_view denied_result execute_authorized
execute_request fresh request plane =
    let spec = get plane.registry request.tool_name in
    let (decided, plane') = authorize_view fresh.deciding spec (view_from_request request) plane in
    elim decided [
      | err e ↦ (err e, plane')
      | ok (authorization, r) ↦
          if not (is_allow authorization.decision)
          then (ok (denied_result fresh.finished_at request authorization r), plane')
          else elim spec [
            | none ↦ (ok (denied_result fresh.finished_at request authorization r), plane')
            | some spec ↦
                let (ran, plane'') = execute_authorized fresh request spec plane' in
                (elim ran [ err e ↦ err e | ok (result, _) ↦ ok result ], plane'')
          ]
    ]
