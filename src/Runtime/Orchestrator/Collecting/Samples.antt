-- ===== src/Runtime/Orchestrator/Collecting/Samples.antt =====
-- The collection of a wave of three tasks, and the witness of the rule.
use smorx.Prelude.{◌≡◌, refl, ◌⊎◌, String, false, some, List, [], ◌∷◌, lookup, insert, string_eq}
use smorx.Runtime.Graph.{SpecialistCapability}
use smorx.Runtime.Agents.{AgentAssignment, AgentResult, ResultStatus, validate_result}
use smorx.Runtime.WaveEngine.{WaveResult, WaveStatus}
use smorx.Runtime.Orchestrator.Collecting.{
  running, succeeded, failed, cancelled, Ledger, collected_of, collect_wave,
}
use smorx.Runtime.Orchestrator.Collecting.Earned.{IsEarned, collect_wave-IsEarned}

abbrev assignment : String → AgentAssignment
assignment id = record {
  id = id;
  task_id = "a";
  wave_id = "wave";
  agent_id = "agent";
  objective = "";
  capability = SpecialistCapability.coding;
  context = record { run_id = ""; phase = ""; task_id = ""; correlation_id = "" };
  constraints = [];
  allowed_tools = [];
  expected_artifact = "";
  timeout_seconds = 60;
  created_at = 0;
}

abbrev result_of : String → String → List String → AgentResult
result_of task assigned references = record {
  assignment_id = assigned;
  task_id = task;
  status = ResultStatus.succeeded;
  started_at = 0;
  finished_at = 1;
  evidence = [];
  failures = [];
  execution_references = references;
  confidence = 900;
  summary = "";
}

-- "b" has no evidence, and "c" answers for another assignment.
abbrev output : WaveResult
output = record {
  wave_id = "wave";
  status = WaveStatus.completed;
  task_results =
      ("a", result_of "a" "x" ("log" ∷ []))
      ∷ ("b", result_of "b" "y" [])
      ∷ ("c", result_of "c" "old" ("log" ∷ []))
      ∷ [];
  task_failures = [];
  timings = [];
  started_at = 0;
  finished_at = 1;
  wall = 1;
  incomplete_agents = [];
}

abbrev issued : List (String × AgentAssignment)
issued = ("a", assignment "x") ∷ ("b", assignment "y") ∷ ("c", assignment "z") ∷ []

abbrev ledger : Ledger
ledger = record {
  pending_tasks = "a" ∷ "b" ∷ "c" ∷ [];
  completed_tasks = [];
  task_statuses = ("a", running) ∷ ("b", running) ∷ ("c", running) ∷ [];
  completed_agents = [];
  agent_results = [];
  evidence = [];
  failures = [];
  conflicts = [];
}

abbrev fresh : String → String
fresh id = id

abbrev collected : Ledger
unfolding collect_wave
collected = (collect_wave fresh 3 (some output) false issued ("a" ∷ "b" ∷ "c" ∷ []) ledger).0

collected_tests :
    (collected.task_statuses ≡ ("a", succeeded) ∷ ("b", failed) ∷ ("c", cancelled) ∷ [])
    × (collected.pending_tasks ≡ [])
    × (collected.completed_tasks ≡ "a" ∷ [])
unfolding collected collect_wave lookup insert validate_result
collected_tests = (refl, refl, refl)

succeeds : lookup "a" collected.task_statuses ≡ some succeeded
unfolding collected collect_wave lookup insert validate_result
succeeds = refl

collect_wave-IsEarned_example :
    (lookup "a" ledger.task_statuses ≡ some succeeded)
    ⊎ IsEarned (collected_of (some output) false issued) "a"
unfolding collected
collect_wave-IsEarned_example =
    collect_wave-IsEarned fresh 3 (some output) false issued ("a" ∷ "b" ∷ "c" ∷ []) ledger "a"
      succeeds
