-- ===== src/Runtime/Agents/Discipline.antt =====
-- What a result without issues has.
use smorx.Prelude.{◌≤◌, ◌≡◌, ◌↔◌, true, false, ◌&&◌, arith, is_empty}
use smorx.Runtime.Agents.{AgentResult, ResultStatus, succeeded, failed, blocked, validate_result}

-- "No evidence, no success", and what else the discipline asks of a status.
abbrev pub Supported : ResultStatus → AgentResult → Type 0
Supported succeeded r =
    ((is_empty r.evidence && is_empty r.execution_references) ≡ false)
    × (is_empty r.failures ≡ true)
Supported failed r = is_empty r.failures ≡ false
Supported blocked r = Unit

pub record IsDisciplined (r : AgentResult) : Type 0 where
  pub supported : Supported r.status r
  pub confidence_le : r.confidence ≤ 1000
  pub in_order : r.started_at ≤ r.finished_at

-- `validate_result` finds no issue exactly in the results that keep the discipline: success with
-- evidence or a reference and without failures, failure with a failure record, a confidence within
-- the unit, and an end that is not before the start.
pub validate_result-IsDisciplined :
    (r : AgentResult) → (is_empty (validate_result r) ≡ true) ↔ IsDisciplined r
unfolding validate_result
validate_result-IsDisciplined r = (λ h. ground arith, λ h. ground arith)
