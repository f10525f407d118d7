-- ===== src/Tools/Policies/Samples.antt =====
-- A rule that allows one tool in production, and the witnesses of the policy engine.
use smorx.Prelude.{◌≡◌, refl, String, true, none, [], ◌∷◌}
use smorx.Tools.Policies.{
  RiskLevel, PolicyDecision, ResourceKind, PolicyContext, PolicyRule, PolicyEngine, new_engine,
  evaluate,
}
use smorx.Tools.Policies.FirstMatch.{AllowedByRule, evaluate-production}

abbrev rule_for : String → PolicyDecision → PolicyRule
rule_for tool decision = record {
  id = "r";
  decision = decision;
  resource = ResourceKind.tool;
  tool_name = tool;
  environment = "production";
  reason = "";
  predicate = λ ctx. true;
}

abbrev engine : PolicyEngine
engine =
    new_engine
      (rule_for "repo.write" PolicyDecision.deny ∷ rule_for "repo.read" PolicyDecision.allow ∷ [])
      none true

abbrev context : String → PolicyContext
context tool = record {
  environment = "production";
  agent_id = "agent";
  task_id = "task";
  tool_name = tool;
  risk = RiskLevel.medium;
  resource = ResourceKind.file;
  resource_ref = "";
  extra = [];
}

evaluate_tests :
    (evaluate engine (context "repo.read") ≡ PolicyDecision.allow)
    × (evaluate engine (context "repo.write") ≡ PolicyDecision.deny)
    × (evaluate engine (context "repo.list") ≡ PolicyDecision.require_review)
unfolding evaluate
evaluate_tests = (refl, refl, refl)

evaluate-production_example : AllowedByRule (context "repo.read") engine.rules
evaluate-production_example =
    evaluate-production engine (context "repo.read") refl refl refl evaluate_tests.0
