-- ===== src/Runtime/Agents.antt =====
-- packages/agent-runtime/src/smorx_runtime/agents.py: the assignment and what it allows, and the
-- discipline of a result. Confidences are thousandths; one below zero, which the constructor
-- rejects, has no value here. Of a result, the fields that neither `validate_result` nor the
-- orchestrator's collection reads are left out, and of a context those that no other part reads.
pub mod Discipline
mod Samples
use smorx.Prelude.{
  ℕ, String, Bool, true, false, not, ◌&&◌, ◌||◌, Option, List, [], ◌∷◌, ◌++◌, if◌then◌else◌,
  is_empty, leb, ltb, ◌==◌, string_eq, has_prefix, has_suffix, Result, ok, err,
}
use smorx.Runtime.Graph.{SpecialistCapability}

pub record AgentContext : Type 0 where
  pub run_id : String
  pub phase : String
  pub task_id : String
  pub correlation_id : String

pub record AgentAssignment : Type 0 where
  pub id : String
  pub task_id : String
  pub wave_id : String
  pub agent_id : String
  pub objective : String
  pub capability : SpecialistCapability
  pub context : AgentContext
  pub constraints : List String
  pub allowed_tools : List String
  pub expected_artifact : String
  pub timeout_seconds : ℕ
  pub created_at : ℕ

pub record AgentEvidence : Type 0 where
  pub evidence_id : String
  pub source : String
  pub timestamp : ℕ

pub record AgentFailure : Type 0 where
  pub failure_id : String
  pub classification : String
  pub summary : String
  pub observed_at : ℕ

pub data ResultStatus : Type 0 where
  succeeded failed blocked : ResultStatus

pub record AgentResult : Type 0 where
  pub assignment_id : String
  pub task_id : String
  pub status : ResultStatus
  pub started_at : ℕ
  pub finished_at : ℕ
  pub evidence : List AgentEvidence
  pub failures : List AgentFailure
  pub execution_references : List String
  pub confidence : ℕ
  pub summary : String

-- 0.0 <= confidence <= 1.0
abbrev pub in_unit : ℕ → Bool
in_unit confidence = leb confidence 1000

-- AgentResult(...): `__post_init__` raises the ValueError.
unfoldable pub new_result : AgentResult → Result String AgentResult
new_result r = if in_unit r.confidence then ok r else err "confidence must be within [0, 1]"

pub data Issue : Type 0 where
  succeeded_without_evidence succeeded_with_failures failed_without_failure : Issue
  confidence_out_of_range finished_before_started : Issue

abbrev pub issue_text : Issue → String
issue_text succeeded_without_evidence = "SUCCEEDED without evidence"
issue_text succeeded_with_failures = "SUCCEEDED with failures"
issue_text failed_without_failure = "FAILED without failure record"
issue_text confidence_out_of_range = "confidence out of range"
issue_text finished_before_started = "finished_at before started_at"

abbrev pub issue_if : Bool → Issue → List Issue
issue_if true i = i ∷ []
issue_if false i = []

abbrev pub status_issues : AgentResult → List Issue
status_issues r = elim r.status [
  | succeeded ↦
      issue_if (is_empty r.evidence && is_empty r.execution_references) succeeded_without_evidence
      ++ issue_if (not (is_empty r.failures)) succeeded_with_failures
  | failed ↦ issue_if (is_empty r.failures) failed_without_failure
  | blocked ↦ []
]

unfoldable pub validate_result : AgentResult → List Issue
validate_result r =
    status_issues r
    ++ (issue_if (not (in_unit r.confidence)) confidence_out_of_range
        ++ issue_if (ltb r.finished_at r.started_at) finished_before_started)

-- The loop over the entries; `_allowed_by` of the control plane is the same loop.
unfoldable pub allows_tool : List String → String → Bool
allows_tool [] tool_name = false
allows_tool (entry ∷ entries) tool_name =
    if tool_name == entry
    then true
    else if has_suffix entry "." && has_prefix tool_name entry
    then true
    else allows_tool entries tool_name

unfoldable pub assignment_allows_tool : AgentAssignment → String → Bool
unfolding allows_tool
assignment_allows_tool assignment tool_name = allows_tool assignment.allowed_tools tool_name
