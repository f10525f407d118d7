-- ===== src/Runtime/Orchestrator/Rounds.antt =====
-- packages/agent-runtime/src/smorx_runtime/orchestrator.py: the loop of `run`, from the plan to the
-- report. A wave of the plan is run once, and a task that is to run again is a wave of its own.
pub mod Phasing
pub mod Budget
pub mod Reacting
pub mod Settling
pub mod Staging
pub mod Concluding
pub mod Progress
pub mod Finished
mod Samples
use smorx.Prelude.{
  ℕ, zero, suc, ◌+◌, ◌*◌, ◌&&◌, Option, none, some, List, [], ◌∷◌, ◌++◌, map, concat, if◌then◌else◌,
  length, is_empty, string_eq, insert, Result, ok, err, ◌>>=◌,
}
use smorx.Runtime.Graph.{TaskSpec, TaskGraph, TaskGraphError}
use smorx.Runtime.Graph.Waves.{waves}
use smorx.Runtime.Telemetry.{WaveTelemetry}
use smorx.Runtime.Orchestrator.{
  WorkflowPhase, idle, inspecting, planning, dispatching, PhaseError, transition, Reactions,
  react_all, next_after_block,
}
use smorx.Runtime.Orchestrator.Collecting.{queued, Ledger}
use smorx.Runtime.Orchestrator.Run.{
  OrchestratorConfig, Surroundings, RunState, run_and_collect, failure_of,
}

pub data ReportStatus : Type 0 where
  completed blocked : ReportStatus

-- OrchestrationReport, with the state that it is built from.
pub record Report : Type 0 where
  pub status : ReportStatus
  pub state : RunState

-- What a round leaves: another one to come, or the end of the run.
pub data Step : Type 0 where
  again : RunState → Step
  stop : Report → Step

-- What the run raises, apart from OrchestrationBlocked with its report.
pub data RunError : Type 0 where
  not_planned : TaskGraphError → RunError
  bad_phase : PhaseError → RunError

abbrev pub empty_ledger : Ledger
empty_ledger = record {
  pending_tasks = [];
  completed_tasks = [];
  task_statuses = [];
  completed_agents = [];
  agent_results = [];
  evidence = [];
  failures = [];
  conflicts = [];
}

-- The end of a round: the block, the follow-ups, or the end of the plan.
unfoldable pub conclude : RunState → Reactions → Result PhaseError Step
unfolding transition
conclude s r =
    let s' = record s { tasks = r.tasks; follow_ups = s.follow_ups ++ r.staged } in
    elim r.block [
      | some (kind, mismatch) ↦ do
        phases ← transition WorkflowPhase.blocked s.phases
        ok (
            stop (record {
              status = ReportStatus.blocked;
              state = record s {
                tasks = r.tasks;
                phases = phases;
                next_transition = next_after_block mismatch;
              };
            }))
      | none ↦
          if is_empty r.staged && is_empty s.plan && is_empty s.follow_ups
          then (transition WorkflowPhase.completed s.phases >>= λ phases. ok (
              stop (record {
                status = ReportStatus.completed;
                state = record s' { phases = phases; next_transition = "COMPLETED" };
              })))
          else ok (again s')
    ]

-- The wave of the next round: the first follow-up alone, or the next one of the plan.
unfoldable pub next_wave : RunState → Option (List TaskSpec × RunState)
next_wave s = elim s.follow_ups [
  | task ∷ rest ↦ some (task ∷ [], record s { follow_ups = rest })
  | [] ↦ elim s.plan [ wave ∷ rest ↦ some (wave, record s { plan = rest }) | [] ↦ none ]
]

-- The queue of the tasks of the plan, and the three transitions before the loop.
unfoldable pub queue_all : List TaskSpec → Ledger → Ledger
queue_all [] l = l
queue_all (task ∷ tasks) l = queue_all tasks (record l {
  pending_tasks = l.pending_tasks ++ task.id ∷ [];
  task_statuses = insert task.id queued l.task_statuses;
})

unfoldable pub start_state :
    List (List TaskSpec) → Option WaveTelemetry → Result PhaseError RunState
unfolding queue_all transition
start_state plan last = do
  inspected ← transition inspecting (record { phase = idle; phase_history = [] })
  planned ← transition planning inspected
  ready ← transition dispatching planned
  ok (record {
    phases = ready;
    ledger = queue_all (concat plan) empty_ledger;
    tasks = [];
    wave_seq = 0;
    active_wave_id = "";
    active_agents = [];
    issued_assignments = [];
    last_wave = last;
    telemetry = [];
    wave_summaries = [];
    plan = plan;
    follow_ups = [];
    next_transition = "";
  })

-- Each task can run once, again for each retry, and once replaced.
abbrev pub enough_rounds : OrchestratorConfig → List (List TaskSpec) → ℕ
enough_rounds config plan =
    suc (length plan + length (concat plan) * (config.retry.max_retries_per_task + 2))

module _ (config : OrchestratorConfig) (env : Surroundings) where
  unfoldable pub round : List TaskSpec → RunState → Result PhaseError Step
  unfolding run_and_collect react_all conclude failure_of
  round wave s = do
    (collected, failures) ← run_and_collect config env wave s
    conclude collected (
        react_all config.retry (map (λ f. (f.0, failure_of config f.1)) failures) wave
          collected.tasks [])

  -- The `while not blocked` loop; `none` means that the fuel ran out.
  unfoldable pub rounds : ℕ → RunState → Option (Result PhaseError Report)
  unfolding round next_wave
  rounds zero s = none
  rounds (suc fuel) s = elim (next_wave s) [
    | none ↦ some (ok (record { status = ReportStatus.completed; state = s }))
    | some (wave, s') ↦ elim (round wave s') [
      | err e ↦ some (err e)
      | ok (stop report) ↦ some (ok report)
      | ok (again s'') ↦ rounds fuel s''
    ]
  ]

  unfoldable pub run_plan :
      List (List TaskSpec) → Option WaveTelemetry → Option (Result PhaseError Report)
  unfolding start_state rounds
  run_plan plan last = elim (start_state plan last) [
    | err e ↦ some (err e)
    | ok s ↦ rounds (enough_rounds config plan) s
  ]

  -- `none` means that the planner or the loop ran out of fuel.
  unfoldable pub run : TaskGraph → Option WaveTelemetry → Option (Result RunError Report)
  unfolding waves run_plan
  run graph last = elim (waves [] (some config.max_parallelism) graph) [
    | none ↦ none
    | some (err e) ↦ some (err (not_planned e))
    | some (ok plan) ↦ elim (run_plan plan last) [
      | none ↦ none
      | some (err e) ↦ some (err (bad_phase e))
      | some (ok report) ↦ some (ok report)
    ]
  ]
