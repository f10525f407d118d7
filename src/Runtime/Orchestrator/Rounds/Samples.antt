-- ===== src/Runtime/Orchestrator/Rounds/Samples.antt =====
-- Runs of two linked tasks: one that succeeds after a retry, one that is blocked, and one whose
-- results are stale.
use smorx.Prelude.{
  ℕ, ◌≡◌, refl, ◌⊎◌, String, true, false, arith, Option, none, some, List, [], ◌∷◌, map,
  if◌then◌else◌, ◌==◌, string_eq, contains, lookup, insert, Result, ok, err, ◌<>◌,
}
use smorx.Runtime.Graph.{TaskSpec, TaskGraph, none_ready, coding, independent}
use smorx.Runtime.Graph.Waves.Unique.{IsUnique}
use smorx.Runtime.Graph.Waves.Answers.{IsStuck}
use smorx.Runtime.Graph.Waves.{ids}
use smorx.Runtime.Agents.{AgentAssignment, AgentResult, ResultStatus}
use smorx.Runtime.WaveEngine.{Completion, Ending}
use smorx.Runtime.Orchestrator.{WorkflowPhase}
use smorx.Runtime.Orchestrator.Run.{OrchestratorConfig, Surroundings}
use smorx.Runtime.Orchestrator.Rounds.{ReportStatus, Report, RunError, not_planned, run}
use smorx.Runtime.Orchestrator.Rounds.Concluding.{Verdict}
use smorx.Runtime.Orchestrator.Rounds.Finished.{run-Verdict}

abbrev config : OrchestratorConfig
config = record {
  max_parallelism = 2;
  per_agent_timeout = 30000000;
  retry = record { max_retries_per_task = 1; allow_replacement = true; no_progress_threshold = 3 };
  failure_signature = λ f. f.classification <> "|" <> f.summary;
}

abbrev completion : String → Completion
completion id = record { task_id = id; started_at = 0; finished_at = 1; interrupted = false }

abbrev result : String → AgentAssignment → AgentResult
result assignment_id a = record {
  assignment_id = assignment_id;
  task_id = a.task_id;
  status = ResultStatus.succeeded;
  started_at = 0;
  finished_at = 1;
  evidence = [];
  failures = [];
  execution_references = "log" ∷ [];
  confidence = 900;
  summary = "";
}

-- Its first run raises.
abbrev flaky : AgentAssignment → ℕ → Ending
flaky a timeout =
    if a.id == "run:a:0" then Ending.raised "boom" else Ending.returned (result a.id a)

abbrev broken : AgentAssignment → ℕ → Ending
broken a timeout = Ending.raised a.id

abbrev late : AgentAssignment → ℕ → Ending
late a timeout = Ending.returned (result "old" a)

abbrev env : (AgentAssignment → ℕ → Ending) → Surroundings
env executor = record {
  create = λ spec tools. executor;
  decorate = none;
  schedule = λ n. record {
    completions = completion "a" ∷ completion "b" ∷ [];
    started_at = 0;
    finished_at = 1;
  };
  now = λ n. n;
  fresh_id = λ n id. id;
  run_id = "run";
  run_context = record { run_id = "run"; phase = ""; task_id = ""; correlation_id = "" };
}

abbrev task : String → List String → TaskSpec
task id deps = record {
  id = id;
  capability = coding;
  kind = independent;
  description = "";
  depends_on = deps;
}

abbrev graph : TaskGraph
graph = task "b" ("a" ∷ []) ∷ task "a" [] ∷ []

-- The status of the report, the next transition, the waves that ran and the phase of the run.
abbrev outcome :
    Option (Result RunError Report)
    → Option (ReportStatus × String × List (List String) × WorkflowPhase)
outcome (some (ok report)) = some (
  report.status,
  report.state.next_transition,
  map (λ s. s.tasks) report.state.wave_summaries,
  report.state.phases.phase,
)
outcome _ = none

retried :
    outcome (run config (env flaky) graph none)
    ≡ some (
      ReportStatus.completed,
      "COMPLETED",
      ("a" ∷ []) ∷ ("a" ∷ []) ∷ ("b" ∷ []) ∷ [],
      WorkflowPhase.completed,
    )
unfolding run lookup insert contains
retried = refl

-- A first run, a retry and a replacement.
given_up :
    outcome (run config (env broken) graph none)
    ≡ some (
      ReportStatus.blocked,
      "BLOCKED",
      ("a" ∷ []) ∷ ("a" ∷ []) ∷ ("a" ∷ []) ∷ [],
      WorkflowPhase.blocked,
    )
unfolding run lookup insert contains
given_up = refl

-- Stale results cancel their tasks, and the run is COMPLETED.
all_stale :
    outcome (run config (env late) graph none)
    ≡ some
        (ReportStatus.completed, "COMPLETED", ("a" ∷ []) ∷ ("b" ∷ []) ∷ [], WorkflowPhase.completed)
unfolding run lookup insert contains
all_stale = refl

-- With nothing to do the run is COMPLETED in the phase DISPATCHING.
nothing_to_do :
    outcome (run config (env late) [] none)
    ≡ some (ReportStatus.completed, "", [], WorkflowPhase.dispatching)
unfolding run
nothing_to_do = refl

graph-IsUnique : IsUnique graph
unfolding contains
graph-IsUnique = (refl, (refl, tt))

run-Verdict_example :
    ((report : Report) × (run config (env flaky) graph none ≡ some (ok report))
      × Verdict (ids graph) report)
    ⊎ (run config (env flaky) graph none ≡ some (err (not_planned none_ready))) × IsStuck [] graph
run-Verdict_example = run-Verdict config (env flaky) graph none (omega arith) graph-IsUnique
