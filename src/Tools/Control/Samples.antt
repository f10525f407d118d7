-- ===== src/Tools/Control/Samples.antt =====
-- A plane with one tool, and the witnesses of the control plane.
use smorx.Prelude.{◌≡◌, refl, String, Bool, true, false, Option, none, some, [], ◌∷◌, ok}
use smorx.Runtime.Graph.{SpecialistCapability}
use smorx.Runtime.Agents.{AgentAssignment, allows_tool}
use smorx.Tools.Tool.{
  ToolKind, ToolResultStatus, ToolRequest, ToolExecutionResult, returned, ToolSpec, ToolRegistry,
  get,
}
use smorx.Tools.Policies.{new_engine, evaluate}
use smorx.Tools.Human.{new_plane}
use smorx.Tools.Control.{ToolOutcome, ControlPlane, Stamp}
use smorx.Tools.Control.Outcomes.{outcome_from_result}
use smorx.Tools.Control.Execution.{
  Fresh, view_from_assignment, view_from_request, build_request, record_execution, execute,
  raw_result,
}
use smorx.Tools.Control.Permission.{IsPermitted, execute-IsPermitted}
use smorx.Tools.Control.Trail.{IsRefusedOnce, record_execution-IsRefusedOnce}

abbrev stamp : String → Stamp
stamp id = record { audit_id = id; invocation_id = id; at = 7 }

abbrev fresh : Fresh
fresh = record {
  request_id = "request";
  deciding = stamp "decision";
  running = stamp "running";
  finished_at = 9;
  recording = stamp "recording";
}

abbrev result_of : ToolRequest → ToolExecutionResult
unfolding raw_result
result_of request = raw_result fresh request ToolResultStatus.succeeded "" "done"

abbrev reader : ToolSpec
reader = record {
  name = "repo.read";
  kind = ToolKind.repository;
  description = "";
  capability = "*";
  risk = "low";
  timeout_seconds = 30;
  requires_sandbox = false;
  mutates = false;
  requires_approval = false;
  handler = some (λ request. returned (result_of request));
}

abbrev registry : ToolRegistry
registry = record { specs = reader ∷ []; by_name = ("repo.read", reader) ∷ [] }

abbrev plane : ControlPlane
plane = record {
  registry = registry;
  engine = new_engine [] none true;
  audit = [];
  human = some (new_plane 900);
  environment = "development";
}

abbrev assignment : AgentAssignment
assignment = record {
  id = "assignment";
  task_id = "task";
  wave_id = "wave";
  agent_id = "agent";
  objective = "";
  capability = SpecialistCapability.coding;
  context = record { run_id = ""; phase = ""; task_id = "task"; correlation_id = "" };
  constraints = [];
  allowed_tools = "repo." ∷ [];
  expected_artifact = "";
  timeout_seconds = 60;
  created_at = 0;
}

abbrev call : ControlPlane → ControlPlane
unfolding execute
call p = (execute fresh assignment "repo.read" [] "action" none p).1

abbrev answered : ControlPlane → Option Bool
unfolding execute
answered p = elim (execute fresh assignment "repo.read" [] "action" none p).0 [
  | ok outcome ↦ some outcome.executed
  | _ ↦ none
]

-- The second call is denied as a duplicate, and the third executes the tool again.
call_tests :
    (answered plane ≡ some true)
    × (answered (call plane) ≡ some false)
    × (answered (call (call plane)) ≡ some true)
unfolding answered call allows_tool evaluate
call_tests = (refl, refl, refl)

abbrev request : ToolRequest
unfolding build_request view_from_assignment
request =
    build_request assignment
      (view_from_assignment "request" assignment "repo.read" [] "action" "development") 30
      "development"

abbrev outcome : ToolOutcome
unfolding outcome_from_result result_of request
outcome = record (outcome_from_result (result_of request)) { audit_ref = "recording" }

executes : (execute fresh assignment "repo.read" [] "action" none plane).0 ≡ ok outcome
unfolding execute outcome allows_tool evaluate
executes = refl

execute-IsPermitted_example :
    IsPermitted fresh.deciding
      (get plane.registry "repo.read")
      (view_from_assignment "request" assignment "repo.read" [] "action" "development")
      plane
unfolding outcome
execute-IsPermitted_example =
    execute-IsPermitted fresh assignment "repo.read" [] "action" none plane outcome executes refl

record_execution-IsRefusedOnce_example :
    IsRefusedOnce
      (stamp "again")
      reader
      (view_from_request request)
      (record_execution fresh request reader (result_of request) plane).1
unfolding result_of request
record_execution-IsRefusedOnce_example =
    record_execution-IsRefusedOnce fresh request reader (result_of request) plane (stamp "again")
      refl refl
