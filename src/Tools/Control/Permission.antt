-- ===== src/Tools/Control/Permission.antt =====
-- What an authorization means.
use smorx.Prelude.{
  ◌≡◌, refl, sym, ◌∙◌, subst, String, ◌⊎◌, inl, inr, true, false, not, ◌&&◌, ◌||◌, Option, none,
  some, arith, ℕ, Bool-cases, Option-cases, contains, ◌==◌, string_eq, Result, Result-cases, ok,
  err,
}
use smorx.Runtime.Agents.{AgentAssignment, allows_tool}
use smorx.Tools.Tool.{Mapping, ToolSpec, get}
use smorx.Tools.Policies.{RiskLevel, PolicyDecision, evaluate}
use smorx.Tools.Human.{
  ApprovalRequest, HumanControlPlane, is_paused, can_execute, approval_for, is_approved_for,
  is_approved_status, is_for, is_past,
}
use smorx.Tools.Human.Lifecycle.{IsLast, is_approved_for-IsLast}
use smorx.Tools.Audit.{AuditRecord}
use smorx.Tools.Control.{
  ToolDecision, ToolAuthorization, ToolOutcome, ControlError, AuthView, ControlPlane, Stamp,
  risk_of, policy_context, is_duplicate,
}
use smorx.Tools.Control.Authorization.{
  denied, authorized, resolve_review, is_approved, by_policy, Answer, authorize_view,
}
use smorx.Tools.Control.Outcomes.{is_allow, denied_outcome}
use smorx.Tools.Control.Execution.{Fresh, view_from_assignment, execute}

-- The human gate runs, and the last request for the action and the tool is approved and alive.
pub record IsApproved (stamp : Stamp) (view : AuthView) (human : HumanControlPlane) : Type 0 where
  pub executable : can_execute human ≡ true
  pub request : ApprovalRequest
  pub latest : IsLast (is_for view.action_id view.tool_name) human.requests request
  pub is_approved : is_approved_status request.status ≡ true
  pub alive : is_past stamp.at request.expires_at ≡ false

-- What the policy says of a tool at its risk.
abbrev pub Decision : ToolSpec → AuthView → ControlPlane → RiskLevel → PolicyDecision → Type 0
Decision spec view plane risk d = evaluate plane.engine (policy_context spec view risk) ≡ d

-- Everything that an allowed call has passed.
pub record IsPermitted (stamp : Stamp) (found : Option ToolSpec) (view : AuthView)
    (plane : ControlPlane) : Type 0 where
  pub spec : ToolSpec
  pub registered : found ≡ some spec
  pub not_duplicate : is_duplicate view.action_id view.tool_name plane.audit ≡ false
  pub capable : (spec.capability == "*" || contains view.capabilities spec.capability) ≡ true
  pub in_tools : allows_tool view.allowed_tools view.tool_name ≡ true
  pub risk : RiskLevel
  pub known_risk : risk_of spec.risk ≡ some risk
  pub admitted :
      Decision spec view plane risk PolicyDecision.allow
      ⊎ Decision spec view plane risk PolicyDecision.require_review
        × ((human : HumanControlPlane) × (plane.human ≡ some human) × IsApproved stamp view human)

abbrev Allows : Answer → Type 0
Allows a = a.0.0.decision ≡ ToolDecision.allow

is_approved-approval_for :
    (stamp : Stamp) (view : AuthView) (human : HumanControlPlane)
    → is_approved (approval_for stamp.at view.action_id view.tool_name human).1
      ≡ (is_approved_for stamp.at view.action_id view.tool_name human).1
unfolding is_approved_for
is_approved-approval_for stamp view human = ground arith

IsApproved-of_asked :
    (stamp : Stamp) (view : AuthView) (human : HumanControlPlane)
    → can_execute human ≡ true
    → is_approved (approval_for stamp.at view.action_id view.tool_name human).1 ≡ true
    → IsApproved stamp view human
IsApproved-of_asked stamp view human runs asked =
    let (r, latest, approved, alive) =
      is_approved_for-IsLast stamp.at view.action_id view.tool_name human
        (sym (is_approved-approval_for stamp view human) ∙ asked) in
    record {
      executable = runs;
      request = r;
      latest = latest;
      is_approved = approved;
      alive = alive;
    }

review-stays :
    (stamp : Stamp) (spec : ToolSpec) (view : AuthView) (plane : ControlPlane)
    (human : HumanControlPlane)
    → plane.human ≡ some human
    → Allows (resolve_review stamp spec view plane)
    → (can_execute human ≡ true)
      × (is_approved (approval_for stamp.at view.action_id view.tool_name human).1 ≡ true)
unfolding resolve_review authorized
review-stays stamp spec view plane human present h =
    elim (Bool-cases (is_paused human || not (can_execute human))) [
      | inl stopped ↦ cc (rw (present, stopped) at h)
      | inr runs ↦
          elim (Bool-cases
            (is_approved (approval_for stamp.at view.action_id view.tool_name human).1)) [
              | inl asked ↦ (ground (arith, runs), asked)
              | inr refused ↦ cc (rw (present, runs, refused) at h)
            ]
    ]

resolve_review-IsApproved :
    (stamp : Stamp) (spec : ToolSpec) (view : AuthView) (plane : ControlPlane)
    → Allows (resolve_review stamp spec view plane)
    → (human : HumanControlPlane) × (plane.human ≡ some human) × IsApproved stamp view human
unfolding resolve_review authorized
resolve_review-IsApproved stamp spec view plane h = elim (Option-cases plane.human) [
  | inl absent ↦ cc (rw absent at h)
  | inr (human, present) ↦
      let (runs, asked) = review-stays stamp spec view plane human present h in
      (human, present, IsApproved-of_asked stamp view human runs asked)
]

by_policy-admitted :
    (stamp : Stamp) (spec : ToolSpec) (view : AuthView) (plane : ControlPlane) (risk : RiskLevel)
    (d : PolicyDecision)
    → Decision spec view plane risk d
    → Allows (by_policy stamp spec view d plane)
    → Decision spec view plane risk PolicyDecision.allow
      ⊎ Decision spec view plane risk PolicyDecision.require_review
        × ((human : HumanControlPlane) × (plane.human ≡ some human) × IsApproved stamp view human)
unfolding authorized
by_policy-admitted stamp spec view plane risk PolicyDecision.allow e h = inl e
by_policy-admitted stamp spec view plane risk PolicyDecision.deny e h = cc
by_policy-admitted stamp spec view plane risk PolicyDecision.block e h = cc
by_policy-admitted stamp spec view plane risk PolicyDecision.require_review e h =
    inr (e, resolve_review-IsApproved stamp spec view plane h)

abbrev Permits :
    Stamp
    → Option ToolSpec
    → AuthView
    → ControlPlane
    → Result ControlError (ToolAuthorization × AuditRecord)
    → Type 0
Permits stamp found view plane (err e) = Unit
Permits stamp found view plane (ok a) =
    a.0.decision ≡ ToolDecision.allow → IsPermitted stamp found view plane

authorize_view-Permits :
    (stamp : Stamp) (found : Option ToolSpec) (view : AuthView) (plane : ControlPlane)
    → Permits stamp found view plane (authorize_view stamp found view plane).0
unfolding authorize_view denied
authorize_view-Permits stamp none view plane = λ h. cc
authorize_view-Permits stamp (some spec) view plane =
    elim (Bool-cases (is_duplicate view.action_id view.tool_name plane.audit)) [
      | inl again ↦ rw again (λ h. cc)
      | inr once ↦
          elim (Bool-cases
            (not (spec.capability == "*") && not (contains view.capabilities spec.capability))) [
              | inl unable ↦ rw (once, unable) (λ h. cc)
              | inr able ↦ elim (Bool-cases (allows_tool view.allowed_tools view.tool_name)) [
                | inr outside ↦ rw (once, able, outside) (λ h. cc)
                | inl inside ↦ elim (Option-cases (risk_of spec.risk)) [
                  | inl unknown ↦ rw (once, able, inside, unknown) tt
                  | inr (risk, known) ↦
                      rw (once, able, inside, known)
                        (λ h. record {
                          spec = spec;
                          registered = refl;
                          not_duplicate = once;
                          capable = ground (arith, able);
                          in_tools = inside;
                          risk = risk;
                          known_risk = known;
                          admitted =
                              by_policy-admitted stamp spec view plane risk
                                (evaluate plane.engine (policy_context spec view risk)) refl h;
                        })
                ]
              ]
            ]
    ]

-- An authorization that is ALLOW is of a registered tool, that the trail's last record about the
-- action and the tool does not show as executed, within the capabilities and the allowed tools, at a
-- known risk, and the policy allows it, or asks for a review that a human has approved in time.
pub authorize_view-IsPermitted :
    (stamp : Stamp) (found : Option ToolSpec) (view : AuthView) (plane : ControlPlane)
    (authorization : ToolAuthorization) (r : AuditRecord)
    → (authorize_view stamp found view plane).0 ≡ ok (authorization, r)
    → authorization.decision ≡ ToolDecision.allow
    → IsPermitted stamp found view plane
authorize_view-IsPermitted stamp found view plane authorization r e h =
    subst (Permits stamp found view plane) e (authorize_view-Permits stamp found view plane) h

-- `execute` reports a tool as executed only if its authorization was permitted.
pub execute-IsPermitted :
    (fresh : Fresh) (assignment : AgentAssignment) (tool_name : String) (arguments : Mapping)
    (action_id : String) (timeout_seconds : Option ℕ) (plane : ControlPlane) (outcome : ToolOutcome)
    → (execute fresh assignment tool_name arguments action_id timeout_seconds plane).0 ≡ ok outcome
    → outcome.executed ≡ true
    → IsPermitted fresh.deciding
        (get plane.registry tool_name)
        (view_from_assignment fresh.request_id assignment tool_name arguments action_id
          plane.environment)
        plane
unfolding execute denied_outcome
execute-IsPermitted fresh assignment tool_name arguments action_id timeout_seconds plane outcome e
      h =
    let view =
      view_from_assignment fresh.request_id assignment tool_name arguments action_id
        plane.environment in
    let found = get plane.registry tool_name in
    elim (Result-cases (authorize_view fresh.deciding found view plane).0) [
      | inr (x, raised) ↦ cc (rw (raised, execute) at e)
      | inl ((authorization, r), decided) ↦ elim (Bool-cases (is_allow authorization.decision)) [
        | inl allows ↦
            authorize_view-IsPermitted fresh.deciding found view plane authorization r decided
              (ground (arith, allows))
        | inr refused ↦
            let same : denied_outcome authorization r tool_name ≡ outcome =
              cc (rw (decided, refused, execute) at e) in
            cc (rw (sym same, denied_outcome) at h)
      ]
    ]
