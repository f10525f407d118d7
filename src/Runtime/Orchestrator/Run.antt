-- ===== src/Runtime/Orchestrator/Run.antt =====
-- packages/agent-runtime/src/smorx_runtime/orchestrator.py: `run`, with `_execute_wave`. The executor
-- factory and the assignment decorator are arguments, and so are the schedule of each wave, the
-- clock's reading and the fresh ids. The decisions, which no later step reads, are left out, as are
-- the ids of a task's dependencies that the state keeps beside the graph.
use smorx.Prelude.{
  ℕ, ◌+◌, ◌-◌, ◌*◌, max, String, Bool, true, false, not, ◌||◌, Option, none, some, List, [], ◌∷◌,
  ◌++◌, map, if◌then◌else◌, length, ltb, nat_beq, is_empty, anyb, filterb, contains, ◌==◌,
  string_eq, lookup, insert, Result, ok, err, ◌>>=◌, ◌<>◌, str,
}
use smorx.Runtime.Graph.{TaskSpec, SpecialistCapability}
use smorx.Runtime.Graph.Waves.{ids, waves}
use smorx.Runtime.Capabilities.{capability_for}
use smorx.Runtime.LoopControls.{LoopControls}
use smorx.Runtime.Agents.{AgentAssignment, AgentContext, AgentFailure}
use smorx.Runtime.Telemetry.{WaveTelemetry, record_wave}
use smorx.Runtime.WaveEngine.{
  never, Ending, WaveResult, WaveRunRequest, Completion, WaveError, run_wave,
}
use smorx.Runtime.Orchestrator.{
  executing, collecting, Phases, PhaseError, transition, ensure_dispatch_ready, RetryPolicy,
  TaskRuns, Failure, runs_of, start_run,
}
use smorx.Runtime.Orchestrator.Collecting.{TaskStatus, running, cancelled, Ledger, collect_wave}

pub record OrchestratorConfig : Type 0 where
  pub max_parallelism : ℕ
  pub per_agent_timeout : ℕ
  pub retry : RetryPolicy
  pub failure_signature : AgentFailure → String

-- Orchestrator(...): what the loop controls give.
unfoldable pub new_config : OrchestratorConfig → Option LoopControls → OrchestratorConfig
new_config config none = config
new_config config (some controls) = record config {
  per_agent_timeout =
      if nat_beq config.per_agent_timeout 0
      then controls.per_agent_timeout
      else config.per_agent_timeout;
  retry = record config.retry { no_progress_threshold = controls.no_progress_threshold };
}

pub record AgentSpec : Type 0 where
  pub agent_id : String
  pub capability : SpecialistCapability
  pub replacement_weight : ℕ

-- When the tasks of a wave finish.
pub record Schedule : Type 0 where
  pub completions : List Completion
  pub started_at : ℕ
  pub finished_at : ℕ

-- What surrounds the run; the numbers are those of the waves.
pub record Surroundings : Type 0 where
  pub create : AgentSpec → List String → AgentAssignment → ℕ → Ending
  pub decorate : Option (AgentAssignment → AgentAssignment)
  pub schedule : ℕ → Schedule
  pub now : ℕ → ℕ
  pub fresh_id : ℕ → String → String
  pub run_id : String
  pub run_context : AgentContext

pub record WaveSummary : Type 0 where
  pub wave_id : String
  pub has_failed : Bool
  pub tasks : List String
  pub failures : List String

pub record RunState : Type 0 where
  pub phases : Phases
  pub ledger : Ledger
  pub tasks : List (String × TaskRuns)
  pub wave_seq : ℕ
  pub active_wave_id : String
  pub active_agents : List (String × String)
  pub issued_assignments : List (String × AgentAssignment)
  -- engine.last_wave_telemetry
  pub last_wave : Option WaveTelemetry
  pub telemetry : List WaveTelemetry
  pub wave_summaries : List WaveSummary
  -- plan[wave_index:]
  pub plan : List (List TaskSpec)
  pub follow_ups : List TaskSpec
  pub next_transition : String

abbrev pub agent_id_of : String → TaskRuns → String
agent_id_of id t = if t.replaced then id <> "-replacement1" else id <> "-agent"

abbrev pub weight_of : TaskRuns → ℕ
weight_of t = if t.replaced then 2 else 1

abbrev pub decorated :
    Option (AgentAssignment → AgentAssignment) → AgentAssignment → AgentAssignment
decorated none assignment = assignment
decorated (some decorate) assignment = decorate assignment

-- asyncio.wait_for(run_wave(request), timeout=budget): the result, if any, whether the time was
-- over, and the telemetry that the engine then holds.
unfoldable pub await_wave :
    OrchestratorConfig
    → List TaskSpec
    → Schedule
    → Option WaveTelemetry
    → Result WaveError (WaveResult × WaveTelemetry)
    → Option WaveResult × Bool × Option WaveTelemetry
await_wave config wave schedule last (err e) = (none, false, last)
await_wave config wave schedule last (ok (result, telemetry)) =
    let budget = config.per_agent_timeout * max 1 (length wave) + 2000000 in
    if ltb budget (schedule.finished_at - schedule.started_at)
    then (none, true, last)
    else (some result, false, some telemetry)

abbrev pub recorded : Option WaveTelemetry → List WaveTelemetry → List WaveTelemetry
unfolding record_wave
recorded none waves = waves
recorded (some wave) waves = record_wave wave waves

abbrev pub is_cancelled : Option TaskStatus → Bool
is_cancelled (some cancelled) = true
is_cancelled _ = false

unfoldable pub summarize : List TaskSpec → List (String × AgentFailure) → RunState → WaveSummary
unfolding lookup contains
summarize wave failures s = record {
  wave_id = s.active_wave_id;
  has_failed =
      not (is_empty (filterb (λ t. contains (map (λ f. f.0) failures) t.id) wave))
      || anyb (λ t. is_cancelled (lookup t.id s.ledger.task_statuses)) wave;
  tasks = ids wave;
  failures =
      map (λ f. f.1.classification <> ": " <> f.1.summary)
        (filterb (λ f. contains (ids wave) f.0) failures);
}

unfoldable pub failure_of : OrchestratorConfig → AgentFailure → Failure
failure_of config f = record {
  signature = config.failure_signature f;
  is_mismatch = f.classification == "mismatch";
}

module _ (config : OrchestratorConfig) (env : Surroundings) where
  unfoldable pub assignment_for : String → ℕ → TaskSpec → TaskRuns → AgentAssignment
  unfolding capability_for
  assignment_for wave_id now task t = decorated env.decorate (record {
    id = env.run_id <> ":" <> task.id <> ":" <> str t.runs;
    task_id = task.id;
    wave_id = wave_id;
    agent_id = agent_id_of task.id t;
    objective = task.description;
    capability = task.capability;
    context = env.run_context;
    constraints = task.depends_on;
    allowed_tools = (capability_for task.capability).allowed_tool_prefixes;
    expected_artifact = "";
    timeout_seconds = config.per_agent_timeout;
    created_at = now;
  })

  -- The loop that issues the assignments of a wave, with the executors.
  unfoldable pub issue_all :
      String
      → List TaskSpec
      → RunState × List (String × (AgentAssignment → ℕ → Ending))
      → RunState × List (String × (AgentAssignment → ℕ → Ending))
  unfolding assignment_for start_run
  issue_all wave_id [] s = s
  issue_all wave_id (task ∷ wave) (s, executors) =
      let t = runs_of task.id s.tasks in
      let spec : AgentSpec = record {
        agent_id = agent_id_of task.id t;
        capability = task.capability;
        replacement_weight = weight_of t;
      } in
      issue_all wave_id wave (
        record s {
          issued_assignments =
              insert task.id (assignment_for wave_id (env.now s.wave_seq) task t)
                s.issued_assignments;
          active_agents = insert task.id (agent_id_of task.id t) s.active_agents;
          ledger = record s.ledger {
            task_statuses = insert task.id running s.ledger.task_statuses;
          };
          tasks = insert task.id (start_run t) s.tasks;
        },
        insert task.id (env.create spec (capability_for task.capability).allowed_tool_prefixes)
            executors,
      )

  unfoldable pub execute_wave :
      List TaskSpec → RunState → Result PhaseError (RunState × Option WaveResult × Bool)
  unfolding issue_all transition await_wave run_wave str recorded
  execute_wave wave s =
      let wave_id = env.run_id <> "-w" <> str (s.wave_seq + 1) in
      let begun = record s {
        wave_seq = s.wave_seq + 1;
        active_wave_id = wave_id;
        issued_assignments = [];
      } in
      let (issued, executors) = issue_all wave_id wave (begun, []) in
      let schedule = env.schedule issued.wave_seq in
      let request : WaveRunRequest = record {
        wave_id = wave_id;
        tasks = wave;
        assignments = issued.issued_assignments;
        executors = executors;
      } in
      let (output, timed_out, last) = await_wave config wave schedule issued.last_wave (
        run_wave (some config.per_agent_timeout) request never schedule.completions
          schedule.started_at schedule.finished_at) in
      elim (transition executing issued.phases) [
        | err e ↦ err e
        | ok phases ↦ ok (
          record issued {
            phases = phases;
            last_wave = last;
            telemetry = recorded last issued.telemetry;
          },
          output,
          timed_out,
        )
      ]

  -- `_ensure_dispatch_ready`, `_execute_wave`, the transition and `_collect_wave`: the state and the
  -- failures of the wave.
  unfoldable pub run_and_collect :
      List TaskSpec → RunState → Result PhaseError (RunState × List (String × AgentFailure))
  unfolding ensure_dispatch_ready execute_wave transition collect_wave summarize
  run_and_collect wave s = do
    ready ← ensure_dispatch_ready s.phases
    (executed, output, timed_out) ← execute_wave wave (record s { phases = ready })
    phases ← transition collecting executed.phases
    let (ledger, failures) =
        collect_wave (env.fresh_id executed.wave_seq) (env.now executed.wave_seq) output timed_out
          executed.issued_assignments (ids wave) executed.ledger
    let s' = record executed { phases = phases; ledger = ledger }
    ok (
      record s' { wave_summaries = s'.wave_summaries ++ summarize wave failures s' ∷ [] },
      failures,
    )
