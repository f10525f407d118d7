-- ===== src/Runtime/Agents/Samples.antt =====
-- A result with a reference as its only support.
use smorx.Prelude.{◌≡◌, refl, true, false, String, List, [], ◌∷◌}
use smorx.Runtime.Agents.{
  AgentResult, ResultStatus, succeeded_without_evidence, validate_result, allows_tool,
}

abbrev finished : List String → AgentResult
finished references = record {
  assignment_id = "assignment";
  task_id = "task";
  status = ResultStatus.succeeded;
  started_at = 3;
  finished_at = 5;
  evidence = [];
  failures = [];
  execution_references = references;
  confidence = 1000;
  summary = "";
}

validate_result_tests :
    (validate_result (finished ("log" ∷ [])) ≡ [])
    × (validate_result (finished []) ≡ succeeded_without_evidence ∷ [])
unfolding validate_result
validate_result_tests = (refl, refl)

allows_tool_tests :
    (allows_tool ("repo." ∷ []) "repo.read" ≡ true)
    × (allows_tool ("repo" ∷ []) "repo.read" ≡ false)
unfolding allows_tool
allows_tool_tests = (refl, refl)
