-- ===== src/Tools/Control/Authorization.antt =====
-- packages/tools/src/smorx_tools/control.py: `_authorize`, with the review and the denial that it ends
-- in.
use smorx.Prelude.{
  String, Bool, false, not, ◌&&◌, ◌||◌, Option, none, some, [], ◌∷◌, if◌then◌else◌, contains, ◌==◌,
  string_eq, Result, ok, err,
}
use smorx.Runtime.Agents.{allows_tool}
use smorx.Tools.Tool.{ToolSpec}
use smorx.Tools.Policies.{PolicyDecision, ResourceKind, evaluate}
use smorx.Tools.Human.{ApprovalRequest, is_paused, can_execute, approval_for, is_approved_status}
use smorx.Tools.Audit.{AuditDecision, AuditRecord, record_in}
use smorx.Tools.Control.{
  ToolDecision, ToolAuthorization, ControlError, AuthView, ControlPlane, Stamp, resource_for_kind,
  resource_value, resource_ref, risk_of, policy_context, is_duplicate, audit_record, allow, deny,
  require_review, block, bad_risk,
}

abbrev pub Answer : Type 0
Answer = (ToolAuthorization × AuditRecord) × ControlPlane

abbrev pub answer : ToolDecision → String → String → AuditRecord → ControlPlane → Answer
answer decision reason risk_level r plane = (
  (record { decision = decision; reasons = reason ∷ []; risk_level = risk_level }, r),
  record plane { audit = record_in r plane.audit },
)

unfoldable pub denied : Stamp → String → AuthView → Option ToolSpec → ControlPlane → Answer
unfolding audit_record resource_for_kind resource_ref
denied stamp reason view none plane =
    answer deny reason "low"
      (audit_record stamp view AuditDecision.denied reason "low" (resource_value ResourceKind.tool)
        "")
      plane
denied stamp reason view (some spec) plane =
    answer deny reason spec.risk
      (audit_record stamp view AuditDecision.denied reason spec.risk
        (resource_value (resource_for_kind spec.kind)) (resource_ref view.arguments))
      plane

unfoldable pub authorized :
    Stamp → ToolSpec → AuthView → ToolDecision → String → AuditDecision → ControlPlane → Answer
unfolding audit_record resource_for_kind resource_ref
authorized stamp spec view decision reason audit_decision plane =
    answer decision reason spec.risk
      (audit_record stamp view audit_decision reason spec.risk
        (resource_value (resource_for_kind spec.kind)) (resource_ref view.arguments))
      plane

abbrev pub is_approved : Option ApprovalRequest → Bool
is_approved none = false
is_approved (some r) = is_approved_status r.status

unfoldable pub resolve_review : Stamp → ToolSpec → AuthView → ControlPlane → Answer
unfolding authorized is_paused can_execute approval_for
resolve_review stamp spec view plane =
    let review =
      authorized stamp spec view require_review "policy requires review" AuditDecision.review in
    elim plane.human [
      | none ↦ review plane
      | some human ↦
          if is_paused human || not (can_execute human)
          then review plane
          else let asked = approval_for stamp.at view.action_id view.tool_name human in
            let plane' = record plane { human = some asked.0 } in
            if is_approved asked.1
            then authorized stamp spec view allow "human approved" AuditDecision.allowed plane'
            else review plane'
    ]

abbrev pub by_policy : Stamp → ToolSpec → AuthView → PolicyDecision → ControlPlane → Answer
by_policy stamp spec view PolicyDecision.block plane =
    authorized stamp spec view block "blocked by policy" AuditDecision.blocked plane
by_policy stamp spec view PolicyDecision.deny plane =
    authorized stamp spec view deny "denied by policy" AuditDecision.denied plane
by_policy stamp spec view PolicyDecision.require_review plane = resolve_review stamp spec view plane
by_policy stamp spec view PolicyDecision.allow plane =
    authorized stamp spec view allow "policy allows" AuditDecision.allowed plane

abbrev pub finish : Answer → Result ControlError (ToolAuthorization × AuditRecord) × ControlPlane
finish (found, plane) = (ok found, plane)

-- `_authorize`: an assignment's tools and a request's are read by the same loop, so the view's do for
-- both.
unfoldable pub authorize_view :
    Stamp
    → Option ToolSpec
    → AuthView
    → ControlPlane
    → Result ControlError (ToolAuthorization × AuditRecord) × ControlPlane
unfolding is_duplicate denied risk_of policy_context resolve_review authorized
authorize_view stamp none view plane = finish (denied stamp "unknown tool" view none plane)
authorize_view stamp (some spec) view plane =
    if is_duplicate view.action_id view.tool_name plane.audit
    then finish (denied stamp "duplicate invocation" view (some spec) plane)
    else if not (spec.capability == "*") && not (contains view.capabilities spec.capability)
    then finish (denied stamp "capability mismatch" view (some spec) plane)
    else if not (allows_tool view.allowed_tools view.tool_name)
    then finish (denied stamp "not allowed for assignment" view (some spec) plane)
    else elim (risk_of spec.risk) [
      | none ↦ (err (bad_risk spec.risk), plane)
      | some risk ↦
          finish (
            by_policy stamp spec view (evaluate plane.engine (policy_context spec view risk)) plane)
    ]
