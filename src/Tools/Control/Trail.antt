-- ===== src/Tools/Control/Trail.antt =====
-- What the calls write to the audit trail, and what the guard against a second execution reads
-- there.
use smorx.Prelude.{
  ◌≡◌, refl, ◌∙◌, String, true, false, some, [], ◌∷◌, ◌++◌, arith, if◌then◌else◌, string_eq,
  ==-refl, ok,
}
use smorx.Tools.Tool.{ToolSpec, ToolResultStatus, ToolRequest, ToolExecutionResult}
use smorx.Tools.Audit.{AuditDecision, AuditRecord, AuditTrail, is_about}
use smorx.Tools.Control.{
  ToolAuthorization, ToolDecision, AuthView, ControlPlane, Stamp, is_duplicate, latest_for,
  is_executed, audit_record, resource_value, resource_for_kind, resource_ref,
}
use smorx.Tools.Control.Authorization.{denied, authorize_view}
use smorx.Tools.Control.Execution.{Fresh, execution_record, record_execution, view_from_request}

latest_for-snoc :
    (a t : String) (trail : AuditTrail) (r : AuditRecord)
    → latest_for a t (trail ++ r ∷ []) ≡ (if is_about a t r then some r else latest_for a t trail)
unfolding latest_for
latest_for-snoc a t [] r = refl
latest_for-snoc a t (q ∷ trail) r = rw (latest_for-snoc a t trail r) (ground arith)

is_duplicate-snoc :
    (a t : String) (trail : AuditTrail) (r : AuditRecord)
    → is_about a t r ≡ true
    → is_duplicate a t (trail ++ r ∷ []) ≡ is_executed r.decision
unfolding is_duplicate
is_duplicate-snoc a t trail r h = rw (latest_for-snoc a t trail r, h, is_duplicate)

record_execution-is_duplicate :
    (fresh : Fresh) (request : ToolRequest) (spec : ToolSpec) (result : ToolExecutionResult)
    (plane : ControlPlane)
    → result.status ≡ ToolResultStatus.succeeded
    → result.tool_name ≡ request.tool_name
    → is_duplicate request.action_id request.tool_name
        (record_execution fresh request spec result plane).1.audit
      ≡ true
unfolding record_execution execution_record
record_execution-is_duplicate fresh request spec result plane done same =
    is_duplicate-snoc request.action_id request.tool_name plane.audit
      (execution_record fresh.recording request spec result)
      (rw (same, ==-refl request.action_id) (==-refl request.tool_name))
    ∙ rw done

abbrev pub duplicate_denial : ToolSpec → ToolAuthorization
duplicate_denial spec = record {
  decision = ToolDecision.deny;
  reasons = "duplicate invocation" ∷ [];
  risk_level = spec.risk;
}

-- The record of a denial as a duplicate.
abbrev pub duplicate_record : Stamp → ToolSpec → AuthView → AuditRecord
duplicate_record stamp spec view =
    audit_record stamp view AuditDecision.denied "duplicate invocation" spec.risk
      (resource_value (resource_for_kind spec.kind)) (resource_ref view.arguments)

-- What a call is answered that the guard finds executed, and what the guard finds after it.
abbrev pub IsRefusedOnce : Stamp → ToolSpec → AuthView → ControlPlane → Type 0
unfolding authorize_view
IsRefusedOnce stamp spec view plane =
    let answered = authorize_view stamp (some spec) view plane in
    (answered.0 ≡ ok (duplicate_denial spec, duplicate_record stamp spec view))
    × (is_duplicate view.action_id view.tool_name answered.1.audit ≡ false)

authorize_view-is_duplicate :
    (stamp : Stamp) (spec : ToolSpec) (view : AuthView) (plane : ControlPlane)
    → is_duplicate view.action_id view.tool_name plane.audit ≡ true
    → IsRefusedOnce stamp spec view plane
unfolding authorize_view denied audit_record IsRefusedOnce
authorize_view-is_duplicate stamp spec view plane again = (
  rw (again, authorize_view) refl,
  rw (again, authorize_view)
      (is_duplicate-snoc view.action_id view.tool_name plane.audit
        (duplicate_record stamp spec view) (rw (==-refl view.action_id) (==-refl view.tool_name))),
)

-- After a result that SUCCEEDED, of the tool that was asked for, the same request is denied as a
-- duplicate; the record of that denial is then the last one about the action and the tool, and the
-- guard no longer finds it executed.
pub record_execution-IsRefusedOnce :
    (fresh : Fresh) (request : ToolRequest) (spec : ToolSpec) (result : ToolExecutionResult)
    (plane : ControlPlane) (stamp : Stamp)
    → result.status ≡ ToolResultStatus.succeeded
    → result.tool_name ≡ request.tool_name
    → IsRefusedOnce stamp spec
        (view_from_request request)
        (record_execution fresh request spec result plane).1
unfolding view_from_request
record_execution-IsRefusedOnce fresh request spec result plane stamp done same =
    authorize_view-is_duplicate stamp spec (view_from_request request)
      (record_execution fresh request spec result plane).1
      (record_execution-is_duplicate fresh request spec result plane done same)
