-- ===== src/Runtime/WaveEngine/Samples.antt =====
-- A wave of two tasks, and the witnesses of the engine and its telemetry.
use smorx.Prelude.{
  ℕ, ◌≡◌, refl, String, true, false, Option, none, some, List, [], ◌∷◌, contains, All, ok, err,
  string_eq, map, lookup, insert,
}
use smorx.Runtime.Graph.{SpecialistCapability, TaskKind, TaskSpec}
use smorx.Runtime.Agents.{AgentAssignment, AgentResult, ResultStatus}
use smorx.Runtime.Telemetry.{TimingStatus, TaskTiming, WaveTelemetry, overlap_seconds}
use smorx.Runtime.WaveSummary.{summarize_timings}
use smorx.Runtime.WaveEngine.{
  WaveStatus, completed, partial, Ending, WaveResult, WaveRunRequest, Cancellation, never, at_start,
  after, Completion, run_wave,
}
use smorx.Runtime.WaveEngine.Ended.{HasResult, run_wave-HasResult}

abbrev task : String → TaskSpec
task id = record {
  id = id;
  capability = SpecialistCapability.coding;
  kind = TaskKind.independent;
  description = "";
  depends_on = [];
}

abbrev assignment : AgentAssignment
assignment = record {
  id = "assignment";
  task_id = "task";
  wave_id = "wave";
  agent_id = "agent";
  objective = "";
  capability = SpecialistCapability.coding;
  context = record { run_id = ""; phase = ""; task_id = ""; correlation_id = "" };
  constraints = [];
  allowed_tools = [];
  expected_artifact = "";
  timeout_seconds = 60;
  created_at = 0;
}

abbrev agent_result : AgentResult
agent_result = record {
  assignment_id = "assignment";
  task_id = "task";
  status = ResultStatus.succeeded;
  started_at = 0;
  finished_at = 1;
  evidence = [];
  failures = [];
  execution_references = [];
  confidence = 1000;
  summary = "";
}

abbrev request_with : Ending → WaveRunRequest
request_with ending = record {
  wave_id = "wave";
  tasks = task "a" ∷ task "b" ∷ [];
  assignments = ("a", assignment) ∷ ("b", assignment) ∷ [];
  executors =
      ("a", λ given seconds. Ending.returned agent_result) ∷ ("b", λ given seconds. ending) ∷ [];
}

abbrev completion : String → ℕ → ℕ → Completion
completion id start finish = record {
  task_id = id;
  started_at = start;
  finished_at = finish;
  interrupted = false;
}

abbrev completions : List Completion
completions = completion "b" 1 4 ∷ completion "a" 0 6 ∷ []

abbrev status_of : Ending → Cancellation → Option WaveStatus
unfolding run_wave
status_of ending cancel = elim (run_wave none (request_with ending) cancel completions 0 7) [
  | ok (result, telemetry) ↦ some result.status
  | err e ↦ none
]

status_tests :
    (status_of (Ending.returned agent_result) never ≡ some completed)
    × (status_of Ending.timed_out never ≡ some partial)
    × (status_of (Ending.raised "E: e") at_start ≡ some WaveStatus.cancelled)
    × (status_of Ending.timed_out (after 1) ≡ some partial)
unfolding status_of lookup insert
status_tests = (refl, refl, refl, refl)

abbrev timing : String → ℕ → ℕ → TaskTiming
timing id start finish = record {
  task_id = id;
  agent_id = "agent";
  started_at = start;
  finished_at = finish;
  duration = 3;
  status = TimingStatus.succeeded;
  timed_out = false;
}

abbrev telemetry : WaveTelemetry
telemetry = record {
  wave_id = "wave";
  timings = timing "b" 1 4 ∷ timing "a" 0 6 ∷ [];
  started_at = 0;
  finished_at = 6;
  wall = 6;
  parallelism_high_water = 2;
  max_cross_task_overlap = 3;
}

summarize_timings_tests :
    ((summarize_timings (timing "b" 1 4 ∷ timing "a" 0 6 ∷ []) 0 9).high_water ≡ 2)
    × ((summarize_timings (timing "b" 1 4 ∷ timing "a" 0 6 ∷ []) 0 9).max_overlap ≡ 3)
    × ((summarize_timings (timing "b" 1 4 ∷ timing "a" 4 6 ∷ []) 0 9).high_water ≡ 1)
unfolding summarize_timings overlap_seconds
summarize_timings_tests = (refl, refl, refl)

abbrev result : WaveResult
result = record {
  wave_id = "wave";
  status = completed;
  task_results = ("b", agent_result) ∷ ("a", agent_result) ∷ [];
  task_failures = [];
  timings = timing "b" 1 4 ∷ record (timing "a" 0 6) { duration = 6 } ∷ [];
  started_at = 0;
  finished_at = 7;
  wall = 6;
  incomplete_agents = [];
}

runs :
    run_wave none (request_with (Ending.returned agent_result)) never completions 0 7
    ≡ ok (result, record telemetry { timings = result.timings })
unfolding run_wave lookup insert overlap_seconds
runs = refl

all_complete :
    (contains (map (λ c. c.task_id) completions) "a" ≡ true)
    × ((contains (map (λ c. c.task_id) completions) "b" ≡ true) × Unit {0})
unfolding contains
all_complete = (refl, (refl, tt))

run_wave-HasResult_example :
    All (λ t. HasResult result.task_results t.id) (task "a" ∷ task "b" ∷ [])
run_wave-HasResult_example =
    run_wave-HasResult none (request_with (Ending.returned agent_result)) never completions 0 7
      result (record telemetry { timings = result.timings }) all_complete runs refl
