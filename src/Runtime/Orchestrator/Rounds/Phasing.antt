-- ===== src/Runtime/Orchestrator/Rounds/Phasing.antt =====
-- A round that starts from DISPATCHING or COLLECTING meets no invalid transition, and what of the
-- state it changes.
use smorx.Prelude.{
  ◌≡◌, refl, ◌∙◌, ap, ℕ, String, Bool, ◌⊎◌, inl, inr, Option, List, [], ◌∷◌, ◌++◌, arith, insert,
  ok, Returns, Returns-inv, ◌<>◌, str, ◌+◌,
}
use smorx.Runtime.Graph.{TaskSpec}
use smorx.Runtime.Graph.Waves.{ids}
use smorx.Runtime.Agents.{AgentAssignment, AgentFailure}
use smorx.Runtime.WaveEngine.{Ending, WaveResult}
use smorx.Runtime.Orchestrator.{
  dispatching, executing, collecting, reconciling, Phases, transition, ensure_dispatch_ready,
  TaskRuns, runs_of, start_run,
}
use smorx.Runtime.Orchestrator.Collecting.{
  TaskStatus, running, Ledger, Collected, collected_of, collect_tasks, collect_wave,
}
use smorx.Runtime.Orchestrator.Run.{
  OrchestratorConfig, Surroundings, RunState, issue_all, execute_wave, run_and_collect,
}

-- Where a round starts.
abbrev pub IsLooping : Phases → Type 0
IsLooping p = (p.phase ≡ dispatching) ⊎ (p.phase ≡ collecting)

abbrev pub WaveExecutors : Type 0
WaveExecutors = List (String × (AgentAssignment → ℕ → Ending))

-- The run counts after a wave is issued.
unfoldable pub start_all : List TaskSpec → List (String × TaskRuns) → List (String × TaskRuns)
start_all [] tasks = tasks
start_all (task ∷ wave) tasks =
    start_all wave (insert task.id (start_run (runs_of task.id tasks)) tasks)

-- The statuses after a wave is issued.
unfoldable pub run_all : List TaskSpec → List (String × TaskStatus) → List (String × TaskStatus)
run_all [] statuses = statuses
run_all (task ∷ wave) statuses = run_all wave (insert task.id running statuses)

ensure_dispatch_ready-dispatching :
    (p : Phases)
    → IsLooping p
    → (p' : Phases) × (ensure_dispatch_ready p ≡ ok p') × (p'.phase ≡ dispatching)
unfolding ensure_dispatch_ready transition
ensure_dispatch_ready-dispatching p (inl h) = (p, ground (arith, h), h)
ensure_dispatch_ready-dispatching p (inr h) = (
  record {
    phase = dispatching;
    phase_history = (p.phase_history ++ reconciling ∷ []) ++ dispatching ∷ [];
  },
  ground (arith, h),
  refl,
)

transition-executing :
    (p : Phases)
    → p.phase ≡ dispatching
    → transition executing p
      ≡ ok (record { phase = executing; phase_history = p.phase_history ++ executing ∷ [] })
unfolding transition
transition-executing p h = rw (h, transition) refl

transition-collecting :
    (p : Phases)
    → p.phase ≡ executing
    → transition collecting p
      ≡ ok (record { phase = collecting; phase_history = p.phase_history ++ collecting ∷ [] })
unfolding transition
transition-collecting p h = rw (h, transition) refl

-- What issuing the assignments leaves alone, and what it makes of the counts and the statuses.
pub record IsIssued (wave : List TaskSpec) (s s' : RunState) : Type 0 where
  pub same_phases : s'.phases ≡ s.phases
  pub same_plan : s'.plan ≡ s.plan
  pub same_follow_ups : s'.follow_ups ≡ s.follow_ups
  pub counted : s'.tasks ≡ start_all wave s.tasks
  pub statuses : s'.ledger.task_statuses ≡ run_all wave s.ledger.task_statuses

module _ (config : OrchestratorConfig) (env : Surroundings) where
  issue_all-IsIssued :
      (wave_id : String) (wave : List TaskSpec) (s : RunState) (executors : WaveExecutors)
      → IsIssued wave s (issue_all config env wave_id wave (s, executors)).0
  unfolding issue_all start_all run_all
  issue_all-IsIssued wave_id [] s executors = record {
    same_phases = refl;
    same_plan = refl;
    same_follow_ups = refl;
    counted = refl;
    statuses = refl;
  }
  issue_all-IsIssued wave_id (task ∷ wave) s executors =
      let h = issue_all-IsIssued wave_id wave _ _ in
      record {
        same_phases = h.same_phases;
        same_plan = h.same_plan;
        same_follow_ups = h.same_follow_ups;
        counted = h.counted;
        statuses = h.statuses;
      }

  -- What a round's wave leaves behind: the phase, the rest of the plan, and the collection.
  pub record IsCollected (wave : List TaskSpec) (s s' : RunState)
      (failures : List (String × AgentFailure)) : Type 0 where
    pub collecting_phase : s'.phases.phase ≡ collecting
    pub same_plan : s'.plan ≡ s.plan
    pub same_follow_ups : s'.follow_ups ≡ s.follow_ups
    pub counted : s'.tasks ≡ start_all wave s.tasks
    pub collected : Collected
    pub before : Ledger
    pub number : ℕ
    pub running : before.task_statuses ≡ run_all wave s.ledger.task_statuses
    pub collection :
        collect_tasks (env.fresh_id number) (env.now number) collected (ids wave) (before, [])
        ≡ (s'.ledger, failures)

  abbrev WaveIssued : List TaskSpec → RunState → (RunState × Option WaveResult × Bool) → Type 0
  WaveIssued wave s (s', output, timed_out) =
      (s'.phases.phase ≡ executing)
      × (s'.plan ≡ s.plan)
      × (s'.follow_ups ≡ s.follow_ups)
      × (s'.tasks ≡ start_all wave s.tasks)
      × (s'.ledger.task_statuses ≡ run_all wave s.ledger.task_statuses)

  execute_wave-WaveIssued :
      (wave : List TaskSpec) (s : RunState)
      → s.phases.phase ≡ dispatching
      → Returns (WaveIssued wave s) (execute_wave config env wave s)
  unfolding execute_wave
  execute_wave-WaveIssued wave s h =
      let wave_id = env.run_id <> "-w" <> str (s.wave_seq + 1) in
      let begun = record s {
        wave_seq = s.wave_seq + 1;
        active_wave_id = wave_id;
        issued_assignments = [];
      } in
      let i = issue_all-IsIssued wave_id wave begun [] in
      let e =
        transition-executing (issue_all config env wave_id wave (begun, [])).0.phases
          (ap (λ p. p.phase) i.same_phases ∙ h) in
      rw (e, execute_wave) (refl, i.same_plan, i.same_follow_ups, i.counted, i.statuses)

  abbrev Collects : List TaskSpec → RunState → (RunState × List (String × AgentFailure)) → Type 0
  Collects wave s (s', failures) = IsCollected wave s s' failures

  run_and_collect-Collects :
      (wave : List TaskSpec) (s : RunState)
      → IsLooping s.phases
      → Returns (Collects wave s) (run_and_collect config env wave s)
  unfolding run_and_collect collect_wave
  run_and_collect-Collects wave s looping =
      let (ready, e, dispatched) = ensure_dispatch_ready-dispatching s.phases looping in
      let ((executed, output, timed_out), f, (executing', plan, follow_ups, counted, statuses)) =
        Returns-inv (WaveIssued wave (record s { phases = ready })) _
          (execute_wave-WaveIssued wave (record s { phases = ready }) dispatched) in
      let g = transition-collecting executed.phases executing' in
      rw (e, f, g)
        (record {
          collecting_phase = refl;
          same_plan = plan;
          same_follow_ups = follow_ups;
          counted = counted;
          collected = collected_of output timed_out executed.issued_assignments;
          before = executed.ledger;
          number = executed.wave_seq;
          running = statuses;
          collection = refl;
        })

  pub run_and_collect-IsCollected :
      (wave : List TaskSpec) (s : RunState)
      → IsLooping s.phases
      → (s' : RunState) × (failures : List (String × AgentFailure)) × (run_and_collect config env
            wave s
          ≡ ok (s', failures))
        × IsCollected wave s s' failures
  run_and_collect-IsCollected wave s looping =
      let ((s', failures), e, h) =
        Returns-inv (Collects wave s) _ (run_and_collect-Collects wave s looping) in
      (s', failures, e, h)
