-- ===== src/Tools/Policies.antt =====
-- packages/tools/src/smorx_tools/policies.py. A rule's predicate is a function of the context.
pub mod FirstMatch
mod Samples
use smorx.Prelude.{
  ℕ, String, Bool, true, false, not, ◌&&◌, ◌||◌, Option, none, some, List, [], ◌∷◌, if◌then◌else◌,
  nat_beq, ◌==◌, string_eq,
}
use smorx.Tools.Tool.{Mapping}

pub data RiskLevel : Type 0 where
  low medium high critical : RiskLevel

pub data PolicyDecision : Type 0 where
  allow deny require_review block : PolicyDecision

pub data ResourceKind : Type 0 where
  tool path file command database network environment sandbox secret : ResourceKind

-- The positions in the enums: the identity that `is` and a dict's keys compare.
abbrev pub risk_ordinal : RiskLevel → ℕ
risk_ordinal low = 0
risk_ordinal medium = 1
risk_ordinal high = 2
risk_ordinal critical = 3

abbrev pub resource_ordinal : ResourceKind → ℕ
resource_ordinal tool = 0
resource_ordinal path = 1
resource_ordinal file = 2
resource_ordinal command = 3
resource_ordinal database = 4
resource_ordinal network = 5
resource_ordinal environment = 6
resource_ordinal sandbox = 7
resource_ordinal secret = 8

-- DEFAULT_RISK_POLICY
abbrev pub default_policy : RiskLevel → PolicyDecision
default_policy low = allow
default_policy medium = allow
default_policy high = require_review
default_policy critical = block

pub record PolicyContext : Type 0 where
  pub environment : String
  pub agent_id : String
  pub task_id : String
  pub tool_name : String
  pub risk : RiskLevel
  pub resource : ResourceKind
  pub resource_ref : String
  pub extra : Mapping

pub record PolicyRule : Type 0 where
  pub id : String
  pub decision : PolicyDecision
  pub resource : ResourceKind
  pub tool_name : String
  pub environment : String
  pub reason : String
  pub predicate : PolicyContext → Bool

pub record PolicyEngine : Type 0 where
  pub rules : List PolicyRule
  pub risk_policy : List (RiskLevel × PolicyDecision)
  pub production_requires_approval : Bool

-- PolicyEngine(...): no mapping means the default one.
abbrev pub new_engine :
    List PolicyRule → Option (List (RiskLevel × PolicyDecision)) → Bool → PolicyEngine
new_engine rules given approval = record {
  rules = rules;
  risk_policy = elim given [
    | some policy ↦ policy
    | none ↦ (low, allow) ∷ (medium, allow) ∷ (high, require_review) ∷ (critical, block) ∷ []
  ];
  production_requires_approval = approval;
}

unfoldable pub policy_of : RiskLevel → List (RiskLevel × PolicyDecision) → Option PolicyDecision
policy_of risk [] = none
policy_of risk ((r, decision) ∷ policy) =
    if nat_beq (risk_ordinal r) (risk_ordinal risk) then some decision else policy_of risk policy

unfoldable pub default_decision : PolicyEngine → PolicyContext → PolicyDecision
unfolding policy_of
default_decision engine ctx = elim (policy_of ctx.risk engine.risk_policy) [
  | some decision ↦ decision
  | none ↦ default_policy ctx.risk
]

unfoldable pub matches : PolicyRule → PolicyContext → Bool
matches rule ctx =
    if not (rule.environment == "") && not (rule.environment == ctx.environment)
    then false
    else if not (rule.tool_name == "")
    then if not (rule.tool_name == ctx.tool_name) then false else rule.predicate ctx
    else if not (nat_beq (resource_ordinal rule.resource) (resource_ordinal ctx.resource))
    then false
    else rule.predicate ctx

abbrev pub is_allow : PolicyDecision → Bool
is_allow allow = true
is_allow _ = false

-- ctx.risk in (RiskLevel.MEDIUM, RiskLevel.HIGH)
abbrev pub is_promoted : RiskLevel → Bool
is_promoted medium = true
is_promoted high = true
is_promoted _ = false

-- What is left when no rule matches.
unfoldable pub without_rule : PolicyEngine → PolicyContext → PolicyDecision
unfolding default_decision
without_rule engine ctx =
    let decision = default_decision engine ctx in
    if engine.production_requires_approval
      && ctx.environment == "production"
      && is_allow decision
      && is_promoted ctx.risk
    then require_review
    else decision

unfoldable pub evaluate_with_rules : PolicyEngine → PolicyContext → List PolicyRule → PolicyDecision
unfolding matches without_rule
evaluate_with_rules engine ctx [] = without_rule engine ctx
evaluate_with_rules engine ctx (rule ∷ rules) =
    if matches rule ctx then rule.decision else evaluate_with_rules engine ctx rules

unfoldable pub evaluate : PolicyEngine → PolicyContext → PolicyDecision
unfolding evaluate_with_rules
evaluate engine ctx = evaluate_with_rules engine ctx engine.rules
