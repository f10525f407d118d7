-- ===== src/Tools/Control/Outcomes.antt =====
-- packages/tools/src/smorx_tools/control.py: what a call is answered, from its authorization or from
-- the result of its run.
use smorx.Prelude.{
  ℕ, String, Bool, true, false, none, some, [], ◌∷◌, if◌then◌else◌, is_empty, ◌==◌, string_eq,
  joined,
}
use smorx.Verification.Contracts.{exited}
use smorx.Tools.Tool.{
  plain, number, exit, texts, Mapping, ToolResultStatus, ToolRequest, ToolExecutionResult,
}
use smorx.Tools.Audit.{AuditRecord}
use smorx.Tools.Control.{ToolDecision, ToolAuthorization, ToolOutcome, status_value}

abbrev pub denial_classification : ToolDecision → String
denial_classification ToolDecision.block = "safety/policy block"
denial_classification ToolDecision.deny = "permission failure"
denial_classification _ = ""

abbrev pub is_review : ToolDecision → Bool
is_review ToolDecision.require_review = true
is_review _ = false

abbrev pub is_allow : ToolDecision → Bool
is_allow ToolDecision.allow = true
is_allow _ = false

unfoldable pub denied_outcome : ToolAuthorization → AuditRecord → String → ToolOutcome
unfolding joined
denied_outcome authorization r tool_name =
    let reason = joined " " authorization.reasons in
    record {
      invocation_id = r.invocation_id;
      allowed = false;
      decision = authorization.decision;
      tool_name = tool_name;
      result =
          ("reason", plain (if reason == "" then "denied by policy" else reason))
          ∷ ("errors", texts [])
          ∷ [];
      classification = denial_classification authorization.decision;
      reviewed = is_review authorization.decision;
      audit_ref = r.audit_id;
      executed = false;
    }

abbrev pub denial_status : ToolDecision → ToolResultStatus
denial_status ToolDecision.block = ToolResultStatus.blocked
denial_status ToolDecision.deny = ToolResultStatus.denied
denial_status _ = ToolResultStatus.pending_review

unfoldable pub denied_result :
    ℕ → ToolRequest → ToolAuthorization → AuditRecord → ToolExecutionResult
unfolding joined
denied_result now request authorization r = record {
  invocation_id = r.invocation_id;
  tool_name = request.tool_name;
  request_id = request.request_id;
  status = denial_status authorization.decision;
  started_at = now;
  finished_at = now;
  duration_seconds = 0;
  exit_code = none;
  stdout = "";
  stderr = "";
  artifacts = [];
  error_classification = denial_classification authorization.decision;
  timeout_seconds = request.timeout_seconds;
  sandbox_id = request.sandbox_id;
  message = joined " " authorization.reasons;
}

abbrev pub or_failure : String → String
or_failure classification = if classification == "" then "tool failure" else classification

abbrev pub outcome_payload : ToolExecutionResult → Mapping
outcome_payload r = elim r.status [
  | ToolResultStatus.succeeded ↦
      if is_empty r.artifacts
      then ("stdout", plain r.stdout)
        ∷ ("stderr", plain r.stderr)
        ∷ ("exit_code", exit (elim r.exit_code [ none ↦ exited 0 | some code ↦ code ]))
        ∷ []
      else r.artifacts
  | ToolResultStatus.failed ↦
      ("status", plain "FAILED")
      ∷ ("message", plain r.message)
      ∷ ("stdout", plain r.stdout)
      ∷ ("stderr", plain r.stderr)
      ∷ []
  | ToolResultStatus.timeout ↦
      ("status", plain "TIMEOUT")
      ∷ ("timeout_seconds", number r.timeout_seconds)
      ∷ ("message", plain r.message)
      ∷ []
  | status ↦ ("status", plain (status_value status)) ∷ ("message", plain r.message) ∷ []
]

abbrev pub outcome_classification : ToolExecutionResult → String
outcome_classification r = elim r.status [
  | ToolResultStatus.failed ↦ or_failure r.error_classification
  | ToolResultStatus.timeout ↦ "timeout"
  | ToolResultStatus.unavailable ↦ "environment/dependency failure"
  | ToolResultStatus.error ↦ or_failure r.error_classification
  | _ ↦ ""
]

-- The decision that a status stands for.
abbrev pub outcome_decision : ToolResultStatus → ToolDecision
outcome_decision ToolResultStatus.denied = ToolDecision.deny
outcome_decision ToolResultStatus.blocked = ToolDecision.block
outcome_decision ToolResultStatus.pending_review = ToolDecision.require_review
outcome_decision _ = ToolDecision.allow

unfoldable pub outcome_from_result : ToolExecutionResult → ToolOutcome
outcome_from_result r = record {
  invocation_id = r.invocation_id;
  allowed = is_allow (outcome_decision r.status);
  decision = outcome_decision r.status;
  tool_name = r.tool_name;
  result = outcome_payload r;
  classification = outcome_classification r;
  reviewed = is_review (outcome_decision r.status);
  audit_ref = "";
  executed = is_allow (outcome_decision r.status);
}
