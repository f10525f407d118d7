-- ===== src/Runtime/WaveEngine/Ended.antt =====
-- What the status of a wave says of its tasks.
use smorx.Prelude.{
  ◌≡◌, refl, sym, ◌∙◌, subst, String, inl, inr, ℕ, Bool, true, false, Option, none, some, List, [],
  ◌∷◌, map, arith, is_empty, filterb, Bool-cases, Option-cases, All, lookup, insert, lookup-insert,
  ◌==◌, string_eq, ==-refl, ==-cases, contains, or-false_inv, Result, ok, err,
}
use smorx.Runtime.Agents.{AgentResult, AgentFailure}
use smorx.Runtime.Telemetry.{WaveTelemetry}
use smorx.Runtime.WaveEngine.{
  completed, Ending, WaveResult, WaveRunRequest, Cancellation, Completion, WaveState, empty_state,
  derive_status, ending_of, run_task, run_tasks, WaveError, compose_result, interrupts, is_at_start,
  run_wave, is_missing, is_absent, task_timeout,
}
use smorx.Runtime.Graph.{TaskSpec}

abbrev pub HasResult : List (String × AgentResult) → String → Type 0
HasResult results id = (r : AgentResult) × (lookup id results ≡ some r)

HasResult-insert :
    (id other : String) (r : AgentResult) (results : List (String × AgentResult))
    → HasResult results id
    → HasResult (insert other r results) id
HasResult-insert id other r results (s, e) = elim (Bool-cases (other == id)) [
  | inl same ↦ (r, lookup-insert other id r results ∙ rw same refl)
  | inr differs ↦ (s, lookup-insert other id r results ∙ rw differs e)
]

run_task-keeps :
    (request : WaveRunRequest) (s : WaveState) (c : Completion) (o : Option Ending) (id : String)
    → HasResult s.results id
    → HasResult (run_task request s c o).results id
unfolding run_task
run_task-keeps request s c none id h = h
run_task-keeps request s c (some (Ending.returned r)) id h =
    HasResult-insert id c.task_id r s.results h
run_task-keeps request s c (some Ending.timed_out) id h = h
run_task-keeps request s c (some (Ending.raised m)) id h = h

is_empty-insert :
    (id : String) (f : AgentFailure) (fs : List (String × AgentFailure))
    → is_empty (insert id f fs) ≡ false
unfolding insert
is_empty-insert id f [] = refl
is_empty-insert id f ((j, g) ∷ fs) = ground arith

-- A failure stays, and a run that ends without one leaves a result.
run_task-failures :
    (request : WaveRunRequest) (s : WaveState) (c : Completion) (o : Option Ending)
    → is_empty (run_task request s c o).failures ≡ true
    → is_empty s.failures ≡ true
unfolding run_task
run_task-failures request s c none h = h
run_task-failures request s c (some (Ending.returned r)) h = h
run_task-failures request s c (some Ending.timed_out) h =
    cc (h, is_empty-insert c.task_id _ s.failures)
run_task-failures request s c (some (Ending.raised m)) h =
    cc (h, is_empty-insert c.task_id _ s.failures)

run_task-HasResult :
    (request : WaveRunRequest) (s : WaveState) (c : Completion) (ending : Ending)
    → is_empty (run_task request s c (some ending)).failures ≡ true
    → HasResult (run_task request s c (some ending)).results c.task_id
unfolding run_task
run_task-HasResult request s c (Ending.returned r) h =
    (r, lookup-insert c.task_id c.task_id r s.results ∙ rw (==-refl c.task_id) refl)
run_task-HasResult request s c Ending.timed_out h = cc (h, is_empty-insert c.task_id _ s.failures)
run_task-HasResult request s c (Ending.raised m) h = cc (h, is_empty-insert c.task_id _ s.failures)

-- The task has an assignment and an executor.
abbrev Ready : WaveRunRequest → String → Type 0
Ready request id =
    (is_absent (lookup id request.assignments) ≡ false)
    × (is_absent (lookup id request.executors) ≡ false)

module _ (wave_timeout : Option ℕ) (request : WaveRunRequest) where
  ending_of-Ready :
      (c : Completion)
      → Ready request c.task_id
      → (ending : Ending) × (ending_of wave_timeout request false c ≡ some ending)
  unfolding ending_of
  ending_of-Ready c (h, k) = elim (Option-cases (lookup c.task_id request.assignments)) [
    | inl absent ↦ cc (rw absent at h)
    | inr (assignment, e) ↦ elim (Option-cases (lookup c.task_id request.executors)) [
      | inl absent ↦ cc (rw absent at k)
      | inr (executor, f) ↦
          (executor assignment (task_timeout wave_timeout assignment), rw (e, f) refl)
    ]
  ]

  run_tasks-keeps :
      (stopped : Bool) (s : WaveState) (cs : List Completion) (id : String)
      → HasResult s.results id
      → HasResult (run_tasks wave_timeout request stopped s cs).results id
  unfolding run_tasks
  run_tasks-keeps stopped s [] id h = h
  run_tasks-keeps stopped s (c ∷ cs) id h =
      let o = ending_of wave_timeout request stopped c in
      run_tasks-keeps stopped (run_task request s c o) cs id (run_task-keeps request s c o id h)

  run_tasks-failures :
      (stopped : Bool) (s : WaveState) (cs : List Completion)
      → is_empty (run_tasks wave_timeout request stopped s cs).failures ≡ true
      → is_empty s.failures ≡ true
  unfolding run_tasks
  run_tasks-failures stopped s [] h = h
  run_tasks-failures stopped s (c ∷ cs) h =
      let o = ending_of wave_timeout request stopped c in
      run_task-failures request s c o (run_tasks-failures stopped (run_task request s c o) cs h)

  run_tasks-HasResult :
      (s : WaveState) (cs : List Completion) (id : String)
      → is_empty (run_tasks wave_timeout request false s cs).failures ≡ true
      → Ready request id
      → contains (map (λ c. c.task_id) cs) id ≡ true
      → HasResult (run_tasks wave_timeout request false s cs).results id
  unfolding run_tasks contains
  run_tasks-HasResult s [] id clean ready member = cc
  run_tasks-HasResult s (c ∷ cs) id clean ready member =
      let o = ending_of wave_timeout request false c in
      let s' = run_task request s c o in
      elim (==-cases c.task_id id) [
        | inr (differs, _) ↦ run_tasks-HasResult s' cs id clean ready (rw differs at member)
        | inl (_, same) ↦
            let (ending, e) = ending_of-Ready c (subst (Ready request) (sym same) ready) in
            let clean' = run_tasks-failures false s' cs clean in
            let own : HasResult s'.results c.task_id =
              rw e (run_task-HasResult request s c ending (rw e at clean')) in
            run_tasks-keeps false s' cs id (subst (HasResult s'.results) same own)
      ]

no_missing-Ready :
    (request : WaveRunRequest) (tasks : List TaskSpec)
    → is_empty (map (λ t. t.id) (filterb (is_missing request) tasks)) ≡ true
    → All (λ t. Ready request t.id) tasks
no_missing-Ready request [] h = tt
no_missing-Ready request (t ∷ ts) h = elim (Bool-cases (is_missing request t)) [
  | inl lacks ↦ cc (rw lacks at h)
  | inr has ↦ (or-false_inv _ _ has, no_missing-Ready request ts (rw has at h))
]

All-map2 :
    {P Q R : TaskSpec → Type 0} (f : (t : TaskSpec) → P t → Q t → R t) (ts : List TaskSpec)
    → All P ts
    → All Q ts
    → All R ts
All-map2 f [] h k = tt
All-map2 f (t ∷ ts) h k = (f t h.0 k.0, All-map2 f ts h.1 k.1)

derive_status-completed :
    (results : List (String × AgentResult)) (failures : List (String × AgentFailure))
    (stopped : Bool)
    → derive_status results failures stopped ≡ completed
    → (stopped ≡ false) × (is_empty failures ≡ true)
unfolding derive_status
derive_status-completed results failures stopped h = ground arith

abbrev Told : WaveRunRequest → Result WaveError (WaveResult × WaveTelemetry) → Type 0
Told request (err e) = Unit
Told request (ok (result, telemetry)) =
    result.status ≡ completed → All (λ t. HasResult result.task_results t.id) request.tasks

run_wave-Told :
    (wave_timeout : Option ℕ) (request : WaveRunRequest) (cancel : Cancellation)
    (completions : List Completion) (started finished : ℕ)
    → All (λ t. contains (map (λ c. c.task_id) completions) t.id ≡ true) request.tasks
    → Told request (run_wave wave_timeout request cancel completions started finished)
unfolding run_wave compose_result
run_wave-Told wave_timeout request cancel completions started finished all =
    let lacking = map (λ t. t.id) (filterb (is_missing request) request.tasks) in
    let s = run_tasks wave_timeout request (interrupts cancel) empty_state completions in
    elim (Bool-cases (is_empty request.tasks)) [
      | inl none_there ↦ rw none_there tt
      | inr tasks ↦ elim (Bool-cases (is_empty lacking)) [
        | inr lacks ↦ rw (tasks, lacks) tt
        | inl complete ↦ elim (Bool-cases (is_at_start cancel)) [
          | inl early ↦ rw (tasks, complete, early) (λ h. cc)
          | inr later ↦
              rw (tasks, complete, later)
                (λ h.
                  let (runs, clean) =
                    derive_status-completed s.results s.failures (interrupts cancel) h in
                  All-map2 {P = λ t. Ready request t.id}
                    (λ t ready member.
                      subst
                        (λ b.
                          is_empty
                              (run_tasks wave_timeout request b empty_state completions).failures
                            ≡ true
                          → HasResult
                              (run_tasks wave_timeout request b empty_state completions).results
                              t.id)
                        (sym runs)
                        (λ empty.
                          run_tasks-HasResult wave_timeout request empty_state completions t.id
                            empty ready member)
                        clean)
                    request.tasks (no_missing-Ready request request.tasks complete) all)
        ]
      ]
    ]

-- If every task of the wave completes and the wave is COMPLETED, every task has its result.
pub run_wave-HasResult :
    (wave_timeout : Option ℕ) (request : WaveRunRequest) (cancel : Cancellation)
    (completions : List Completion) (started finished : ℕ) (result : WaveResult)
    (telemetry : WaveTelemetry)
    → All (λ t. contains (map (λ c. c.task_id) completions) t.id ≡ true) request.tasks
    → run_wave wave_timeout request cancel completions started finished ≡ ok (result, telemetry)
    → result.status ≡ completed
    → All (λ t. HasResult result.task_results t.id) request.tasks
run_wave-HasResult wave_timeout request cancel completions started finished result telemetry all e
      h =
    subst (Told request) e
      (run_wave-Told wave_timeout request cancel completions started finished all) h
