-- ===== src/Tools/Policies/FirstMatch.antt =====
-- The first matching rule decides.
use smorx.Prelude.{
  ◌≡◌, refl, ap, inl, inr, true, false, List, [], ◌∷◌, ◌++◌, arith, Bool-cases, All, ◌==◌,
  string_eq,
}
use smorx.Tools.Policies.{
  PolicyDecision, allow, is_allow, PolicyContext, PolicyRule, PolicyEngine, default_decision,
  matches, is_promoted, without_rule, evaluate_with_rules, evaluate,
}

-- How a decision comes about.
pub data Decides (engine : PolicyEngine) (ctx : PolicyContext) (rules : List PolicyRule)
    : PolicyDecision → Type 0 where
  by_rule :
      (before : List PolicyRule) (rule : PolicyRule) (after : List PolicyRule)
      → rules ≡ before ++ rule ∷ after
      → All (λ r. matches r ctx ≡ false) before
      → matches rule ctx ≡ true
      → Decides engine ctx rules rule.decision
  by_default :
      All (λ r. matches r ctx ≡ false) rules → Decides engine ctx rules (without_rule engine ctx)

Decides-cons :
    (engine : PolicyEngine) (ctx : PolicyContext) (r : PolicyRule) (rules : List PolicyRule)
    (d : PolicyDecision)
    → matches r ctx ≡ false
    → Decides engine ctx rules d
    → Decides engine ctx (r ∷ rules) d
Decides-cons engine ctx r rules _ miss (by_rule before rule after e skipped hit) =
    by_rule (r ∷ before) rule after (ap (λ rs. r ∷ rs) e) (miss, skipped) hit
Decides-cons engine ctx r rules _ miss (by_default skipped) = by_default (miss, skipped)

evaluate_with_rules-Decides :
    (engine : PolicyEngine) (ctx : PolicyContext) (rules : List PolicyRule)
    → Decides engine ctx rules (evaluate_with_rules engine ctx rules)
unfolding evaluate_with_rules
evaluate_with_rules-Decides engine ctx [] = by_default tt
evaluate_with_rules-Decides engine ctx (r ∷ rules) = elim (Bool-cases (matches r ctx)) [
  | inl hit ↦ rw hit (by_rule [] r rules refl tt hit)
  | inr miss ↦
      rw miss
        (Decides-cons engine ctx r rules _ miss (evaluate_with_rules-Decides engine ctx rules))
]

-- `evaluate` takes the decision of the first rule that matches, and if none does, what the risk
-- says.
pub evaluate-Decides :
    (engine : PolicyEngine) (ctx : PolicyContext)
    → Decides engine ctx engine.rules (evaluate engine ctx)
unfolding evaluate
evaluate-Decides engine ctx = evaluate_with_rules-Decides engine ctx engine.rules

-- A rule of the list that matches and allows.
abbrev pub AllowedByRule : PolicyContext → List PolicyRule → Type 0
AllowedByRule ctx rules =
    (before : List PolicyRule) × (rule : PolicyRule) × (after : List PolicyRule) × (rules
      ≡ before ++ rule ∷ after)
    × (matches rule ctx ≡ true)
    × (rule.decision ≡ allow)

Decides-AllowedByRule :
    (engine : PolicyEngine) (ctx : PolicyContext) (rules : List PolicyRule) (d : PolicyDecision)
    → ¬ (without_rule engine ctx ≡ allow)
    → Decides engine ctx rules d
    → d ≡ allow
    → AllowedByRule ctx rules
Decides-AllowedByRule engine ctx rules _ never (by_rule before rule after e skipped hit) h =
    (before, rule, after, e, hit, h)
Decides-AllowedByRule engine ctx rules _ never (by_default skipped) h = absurd (never h)

without_rule-production :
    (engine : PolicyEngine) (ctx : PolicyContext)
    → engine.production_requires_approval ≡ true
    → (ctx.environment == "production") ≡ true
    → is_promoted ctx.risk ≡ true
    → ¬ (without_rule engine ctx ≡ allow)
unfolding without_rule
without_rule-production engine ctx approval production risky h =
    elim (Bool-cases (is_allow (default_decision engine ctx))) [
      | inl allows ↦ cc (rw (approval, production, risky, allows) at h)
      | inr other ↦ ground (arith, other, h)
    ]

-- In production, with approval required, a MEDIUM or HIGH risk is allowed only by an explicit rule.
pub evaluate-production :
    (engine : PolicyEngine) (ctx : PolicyContext)
    → engine.production_requires_approval ≡ true
    → ctx.environment ≡ "production"
    → is_promoted ctx.risk ≡ true
    → evaluate engine ctx ≡ allow
    → AllowedByRule ctx engine.rules
evaluate-production engine ctx approval production risky h =
    Decides-AllowedByRule engine ctx engine.rules (evaluate engine ctx)
      (without_rule-production engine ctx approval (rw production refl) risky)
      (evaluate-Decides engine ctx) h
