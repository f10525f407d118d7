-- ===== src/Runtime/WaveEngine.antt =====
-- packages/agent-runtime/src/smorx_runtime/waves.py. Times are microseconds, and an infinite timeout
-- has no value here. An executor is how its run ends under `asyncio.wait_for` with a timeout. The
-- event loop decides when the tasks of a wave finish, in which order, and which of them a
-- cancellation interrupts: `run_wave` takes that as a list of completions, one for a task. An executor
-- does not raise CancelledError by itself, as the docstring of `run_wave` says.
pub mod Ended
mod Samples
use smorx.Prelude.{
  ℕ, zero, ◌-◌, min, String, Bool, true, false, not, ◌&&◌, ◌||◌, Option, none, some, List, [], ◌∷◌,
  ◌++◌, map, if◌then◌else◌, ltb, is_empty, filterb, ◌==◌, string_eq, lookup, insert, Result, ok,
  err, ◌<>◌, joined,
}
use smorx.Runtime.Graph.{TaskSpec}
use smorx.Runtime.Agents.{AgentAssignment, AgentFailure, AgentResult}
use smorx.Runtime.Telemetry.{TimingStatus, TaskTiming, WaveTelemetry}
use smorx.Runtime.WaveSummary.{summarize_timings}

pub data WaveStatus : Type 0 where
  planned running completed partial failed cancelled : WaveStatus

pub data Ending : Type 0 where
  returned : AgentResult → Ending
  timed_out : Ending
  raised : String → Ending

pub record WaveResult : Type 0 where
  pub wave_id : String
  pub status : WaveStatus
  pub task_results : List (String × AgentResult)
  pub task_failures : List (String × AgentFailure)
  pub timings : List TaskTiming
  pub started_at : ℕ
  pub finished_at : ℕ
  pub wall : ℕ
  pub incomplete_agents : List String

pub record WaveRunRequest : Type 0 where
  pub wave_id : String
  pub tasks : List TaskSpec
  pub assignments : List (String × AgentAssignment)
  pub executors : List (String × (AgentAssignment → ℕ → Ending))

-- The two ValueErrors: no task, and the tasks without an assignment or an executor.
pub data WaveError : Type 0 where
  no_tasks : WaveError
  missing : List String → WaveError

-- When the event is set: never, or without an event; before the start; or after as many completions.
pub data Cancellation : Type 0 where
  never at_start : Cancellation
  after : ℕ → Cancellation

pub record Completion : Type 0 where
  pub task_id : String
  pub started_at : ℕ
  pub finished_at : ℕ
  pub interrupted : Bool

pub record WaveState : Type 0 where
  pub results : List (String × AgentResult)
  pub failures : List (String × AgentFailure)
  pub timings : List TaskTiming

abbrev pub empty_state : WaveState
empty_state = record { results = []; failures = []; timings = [] }

unfoldable pub derive_status :
    List (String × AgentResult) → List (String × AgentFailure) → Bool → WaveStatus
derive_status results failures is_cancelled =
    if is_cancelled
    then cancelled
    else if is_empty failures
    then completed
    else if not (is_empty results)
    then partial
    else failed

unfoldable pub task_timeout : Option ℕ → AgentAssignment → ℕ
task_timeout none assignment = assignment.timeout_seconds
task_timeout (some wave_timeout) assignment = min assignment.timeout_seconds wave_timeout

unfoldable pub failure : String → String → String → ℕ → AgentFailure
failure task_id classification summary now = record {
  failure_id = task_id <> ":" <> classification;
  classification = classification;
  summary = summary;
  observed_at = now;
}

-- How a task's run ends; `none` is the CancelledError.
unfoldable pub ending_of : Option ℕ → WaveRunRequest → Bool → Completion → Option Ending
unfolding task_timeout
ending_of wave_timeout request is_cancelled c =
    if is_cancelled && c.interrupted then none else elim (lookup c.task_id request.assignments) [
      | none ↦ none
      | some assignment ↦ elim (lookup c.task_id request.executors) [
        | none ↦ none
        | some executor ↦ some (executor assignment (task_timeout wave_timeout assignment))
      ]
    ]

abbrev pub agent_of : WaveRunRequest → String → String
agent_of request task_id = elim (lookup task_id request.assignments) [
  | none ↦ ""
  | some assignment ↦ assignment.agent_id
]

abbrev pub timing_of : WaveRunRequest → Completion → TimingStatus → Bool → TaskTiming
timing_of request c status is_timed_out = record {
  task_id = c.task_id;
  agent_id = agent_of request c.task_id;
  started_at = c.started_at;
  finished_at = c.finished_at;
  duration = c.finished_at - c.started_at;
  status = status;
  timed_out = is_timed_out;
}

-- `run_task` with the way its run ends.
unfoldable pub run_task : WaveRunRequest → WaveState → Completion → Option Ending → WaveState
unfolding failure
run_task request s c (some (returned result)) = record {
  results = insert c.task_id result s.results;
  failures = s.failures;
  timings = s.timings ++ timing_of request c TimingStatus.succeeded false ∷ [];
}
run_task request s c (some timed_out) = record {
  results = s.results;
  failures =
      insert c.task_id
        (failure c.task_id "timeout" ("task " <> c.task_id <> " exceeded its timeout")
          c.finished_at)
        s.failures;
  timings = s.timings ++ timing_of request c TimingStatus.timeout true ∷ [];
}
run_task request s c (some (raised message)) = record {
  results = s.results;
  failures = insert c.task_id (failure c.task_id "tool failure" message c.finished_at) s.failures;
  timings = s.timings ++ timing_of request c TimingStatus.failed false ∷ [];
}
run_task request s c none = record s {
  timings = s.timings ++ timing_of request c TimingStatus.cancelled false ∷ [];
}

unfoldable pub run_tasks :
    Option ℕ → WaveRunRequest → Bool → WaveState → List Completion → WaveState
unfolding ending_of run_task
run_tasks wave_timeout request is_cancelled s [] = s
run_tasks wave_timeout request is_cancelled s (c ∷ cs) =
    run_tasks wave_timeout request is_cancelled
      (run_task request s c (ending_of wave_timeout request is_cancelled c)) cs

abbrev pub is_absent {ℓ} : {A : Type ℓ} → Option A → Bool
is_absent none = true
is_absent (some a) = false

abbrev pub is_missing : WaveRunRequest → TaskSpec → Bool
is_missing request task =
    is_absent (lookup task.id request.assignments) || is_absent (lookup task.id request.executors)

abbrev pub is_incomplete : TaskTiming → Bool
is_incomplete t = elim t.status [
  | TimingStatus.timeout ↦ true
  | TimingStatus.cancelled ↦ true
  | _ ↦ false
]

-- `_compose_result`, with the telemetry that it stores.
unfoldable pub compose_result :
    WaveRunRequest → WaveStatus → WaveState → ℕ → ℕ → WaveResult × WaveTelemetry
unfolding summarize_timings
compose_result request status s started finished =
    let summary = summarize_timings s.timings started finished in
    (
      record {
        wave_id = request.wave_id;
        status = status;
        task_results = s.results;
        task_failures = s.failures;
        timings = s.timings;
        started_at = started;
        finished_at = finished;
        wall = summary.wall;
        incomplete_agents = map (λ t. t.task_id) (filterb is_incomplete s.timings);
      },
      record {
        wave_id = request.wave_id;
        timings = s.timings;
        started_at = summary.window_start;
        finished_at = summary.window_finish;
        wall = summary.wall;
        parallelism_high_water = summary.high_water;
        max_cross_task_overlap = summary.max_overlap;
      },
    )

-- The wait returns at the first completion, and the event is looked at once, then.
abbrev pub interrupts : Cancellation → Bool
interrupts (after zero) = true
interrupts _ = false

abbrev pub is_at_start : Cancellation → Bool
is_at_start at_start = true
is_at_start _ = false

unfoldable pub run_wave :
    Option ℕ
    → WaveRunRequest
    → Cancellation
    → List Completion
    → ℕ
    → ℕ
    → Result WaveError (WaveResult × WaveTelemetry)
unfolding derive_status run_tasks compose_result
run_wave wave_timeout request cancel completions started finished =
    let lacking = map (λ t. t.id) (filterb (is_missing request) request.tasks) in
    if is_empty request.tasks
    then err no_tasks
    else if not (is_empty lacking)
    then err (missing lacking)
    else if is_at_start cancel
    then ok (compose_result request cancelled empty_state started finished)
    else let s = run_tasks wave_timeout request (interrupts cancel) empty_state completions in
      ok (
        compose_result request (derive_status s.results s.failures (interrupts cancel)) s started
          finished)
