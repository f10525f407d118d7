-- ===== src/Runtime/Orchestrator/Rounds/Finished.antt =====
-- The loop of `run` ends within its fuel, with a report.
use mathlib.Core.List.Perm
use mathlib.Core.List.{Perm, foldr}
use mathlib.Core.Bool.{Bool-set}
use smorx.Prelude.{
  ==-cases, ◌≡◌, refl, sym, ◌∙◌, ap, subst, ℕ, zero, suc, ◌+◌, ◌≤◌, ◌<◌, String, Bool, true, false,
  ◌⊎◌, inl, inr, Option, none, some, List, [], ◌∷◌, concat, arith, Bool-cases, ==-cases, List-cases,
  ◌==◌, length, contains, contains-cons_self, contains-cons_of_contains, ◌||◌, string_eq, All,
  All-imp, All-concat, ok, err, Returns-inv,
}
use smorx.Runtime.Graph.{TaskSpec, TaskGraph, none_ready}
use smorx.Runtime.Graph.Waves.{ids, is_bad, remaining}
use smorx.Runtime.Graph.Waves.Unique.{IsUnique}
use smorx.Runtime.Graph.Waves.Plan.{waves-IsPlan}
use smorx.Runtime.Graph.Waves.Answers.{IsStuck, waves-Answers}
use smorx.Runtime.Telemetry.{WaveTelemetry}
use smorx.Runtime.Orchestrator.{WorkflowPhase}
use smorx.Runtime.Orchestrator.Run.{OrchestratorConfig, Surroundings, RunState}
use smorx.Runtime.Orchestrator.Rounds.{
  ReportStatus, Report, Step, again, stop, next_wave, round, rounds, start_state, queue_all,
  enough_rounds, run_plan, run, not_planned, empty_ledger,
}
use smorx.Runtime.Orchestrator.Rounds.Phasing.{IsLooping}
use smorx.Runtime.Orchestrator.Rounds.Budget.{total_at_start, Known}
use smorx.Runtime.Orchestrator.Rounds.Settling.{IsDone}
use smorx.Runtime.Orchestrator.Rounds.Staging.{contains-ids_append}
use smorx.Runtime.Orchestrator.Rounds.Concluding.{Verdict, Awaits, IsReady}
use smorx.Runtime.Orchestrator.Rounds.Progress.{
  Due, measure, Progress, IsDone-of_due, round-Progress,
}

module _ (config : OrchestratorConfig) (env : Surroundings) (planned : List String) where
  -- The next wave is of the plan, and what was due still is.
  record IsNext (s : RunState) (wave : List TaskSpec) (s' : RunState) : Type 0 where
    is_next : next_wave s ≡ some (wave, s')
    looping : IsLooping s'.phases
    known_plan : All (Known planned) s'.plan
    known_follow_ups : Known planned s'.follow_ups
    known : Known planned wave
    due : All (Due wave s') planned
    less : measure config env planned s' + 1 ≡ measure config env planned s

  IsNext-of_follow_up :
      (s : RunState) (task : TaskSpec) (rest : List TaskSpec)
      → s.follow_ups ≡ task ∷ rest
      → IsReady planned s
      → IsNext s (task ∷ []) (record s { follow_ups = rest })
  unfolding next_wave contains
  IsNext-of_follow_up s task rest e ready =
      let known = subst (Known planned) e ready.known_follow_ups in
      record {
        is_next = ground (arith, e);
        looping = ready.looping;
        known_plan = ready.known_plan;
        known_follow_ups = known.1;
        known = (known.0, tt);
        due =
            All-imp (Awaits s) _
              (λ id h. elim h [
                | inl done ↦ inl done
                | inr (inr later) ↦ inr (inr (inr later))
                | inr (inl follows) ↦
                    let split = subst (λ f. contains (ids f) id ≡ true) e follows in
                    elim (Bool-cases (task.id == id)) [
                      | inl same ↦ inr (inl (rw same refl))
                      | inr differs ↦ inr (inr (inl (rw differs at split)))
                    ]
              ])
              planned ready.awaits;
        less = omega (arith, ap length e);
      }

  IsNext-of_plan :
      (s : RunState) (wave : List TaskSpec) (rest : List (List TaskSpec))
      → s.follow_ups ≡ []
      → s.plan ≡ wave ∷ rest
      → IsReady planned s
      → IsNext s wave (record s { plan = rest })
  unfolding next_wave contains
  IsNext-of_plan s wave rest none_follow e ready =
      let known = subst (All (Known planned)) e ready.known_plan in
      record {
        is_next = ground (arith, e, none_follow);
        looping = ready.looping;
        known_plan = known.1;
        known_follow_ups = ready.known_follow_ups;
        known = known.0;
        due =
            All-imp (Awaits s) _
              (λ id h. elim h [
                | inl done ↦ inl done
                | inr (inl follows) ↦ inr (inr (inl follows))
                | inr (inr later) ↦
                    let here = subst (λ p. contains (ids (concat p)) id ≡ true) e later in
                    let split = contains-ids_append wave (concat rest) id in
                    elim (Bool-cases (contains (ids wave) id)) [
                      | inl now ↦ inr (inl now)
                      | inr not_now ↦ inr (inr (inr (ground (arith, split, here, not_now))))
                    ]
              ])
              planned ready.awaits;
        less = omega (arith, ap length e);
      }

  IsNext-cases :
      (s : RunState)
      → IsReady planned s
      → ((next_wave s ≡ none) × (s.follow_ups ≡ []) × (s.plan ≡ []))
        ⊎ ((wave : List TaskSpec) × (s' : RunState) × IsNext s wave s')
  unfolding next_wave
  IsNext-cases s ready = elim (List-cases s.follow_ups) [
    | inr (task, rest, e) ↦ inr (_, _, IsNext-of_follow_up s task rest e ready)
    | inl none_follow ↦ elim (List-cases s.plan) [
      | inr (wave, rest, e) ↦ inr (_, _, IsNext-of_plan s wave rest none_follow e ready)
      | inl no_plan ↦ inl (ground (arith, none_follow, no_plan), none_follow, no_plan)
    ]
  ]

  step_Verdict :
      (fuel : ℕ) (s : RunState) (wave : List TaskSpec) (s' : RunState) (step : Step)
      → next_wave s ≡ some (wave, s')
      → round config env wave s' ≡ ok step
      → Progress config env planned s' step
      → ((s'' : RunState)
          → IsReady planned s''
          → measure config env planned s'' ≤ measure config env planned s'
          → (report : Report) × (rounds config env fuel s'' ≡ some (ok report))
            × Verdict planned report)
      → (report : Report) × (rounds config env (suc fuel) s ≡ some (ok report))
        × Verdict planned report
  unfolding rounds
  step_Verdict fuel s wave s' (again s'') e f (ready, le) rest =
      let (report, g, verdict) = rest s'' ready le in (report, rw (e, f, rounds) g, verdict)
  step_Verdict fuel s wave s' (stop report) e f verdict rest =
      (report, rw (e, f, rounds) refl, verdict)

  rounds-Verdict :
      (fuel : ℕ) (s : RunState)
      → IsReady planned s
      → measure config env planned s < fuel
      → (report : Report) × (rounds config env fuel s ≡ some (ok report)) × Verdict planned report
  unfolding rounds
  rounds-Verdict zero s ready enough = absurd (omega (arith, enough))
  rounds-Verdict (suc fuel) s ready enough = elim (IsNext-cases s ready) [
    | inl (e, none_follow, no_plan) ↦ (
      record { status = ReportStatus.completed; state = s },
      rw (e, rounds) refl,
      inl (
        refl,
        All-imp (Awaits s) _ (IsDone-of_due config env planned s no_plan none_follow) planned
            ready.awaits,
      ),
    )
    | inr (wave, s', n) ↦
        let (step, e, progress) =
          Returns-inv (Progress config env planned s') (round config env wave s') (
            round-Progress config env planned wave s' n.looping n.known_plan n.known_follow_ups
              n.known n.due) in
        step_Verdict fuel s wave s' step n.is_next e progress
          (λ s'' ready' le. rounds-Verdict fuel s'' ready' (omega (arith, le, n.less, enough)))
  ]

-- The state that the loop starts in.
abbrev first_state : List (List TaskSpec) → Option WaveTelemetry → RunState
unfolding queue_all
first_state plan last = record {
  phases = record {
    phase = WorkflowPhase.dispatching;
    phase_history =
        WorkflowPhase.inspecting ∷ WorkflowPhase.planning ∷ WorkflowPhase.dispatching ∷ [];
  };
  ledger = queue_all (concat plan) empty_ledger;
  tasks = [];
  wave_seq = 0;
  active_wave_id = "";
  active_agents = [];
  issued_assignments = [];
  last_wave = last;
  telemetry = [];
  wave_summaries = [];
  plan = plan;
  follow_ups = [];
  next_transition = "";
}

start_state-first :
    (plan : List (List TaskSpec)) (last : Option WaveTelemetry)
    → start_state plan last ≡ ok (first_state plan last)
unfolding start_state first_state
start_state-first plan last = refl

Known-ids : (wave : List TaskSpec) → Known (ids wave) wave
Known-ids [] = tt
Known-ids (t ∷ ts) = (
  contains-cons_self t.id (ids ts),
  All-imp (λ u. contains (ids ts) u.id ≡ true) (λ u. contains (t.id ∷ ids ts) u.id ≡ true)
      (λ u h. contains-cons_of_contains t.id (ids ts) u.id h) ts (Known-ids ts),
)

All-ids {κ} : (P : String → Type κ) (ts : List TaskSpec) → All (λ t. P t.id) ts → All P (ids ts)
All-ids P [] h = tt
All-ids P (t ∷ ts) h = (h.0, All-ids P ts h.1)

first-IsReady :
    (plan : List (List TaskSpec)) (last : Option WaveTelemetry)
    → IsReady (ids (concat plan)) (first_state plan last)
unfolding first_state
first-IsReady plan last =
    let known = Known-ids (concat plan) in
    record {
      looping = inl refl;
      known_plan = All-concat (λ t. contains (ids (concat plan)) t.id ≡ true) plan known;
      known_follow_ups = tt;
      awaits = All-ids (Awaits (first_state plan last)) (concat plan) (
          All-imp (λ t. contains (ids (concat plan)) t.id ≡ true) _ (λ t h. inr (inr h))
            (concat plan) known);
    }

length-ids : (ts : List TaskSpec) → length (ids ts) ≡ length ts
length-ids [] = refl
length-ids (t ∷ ts) = rw (length-ids ts) refl

pub run_plan-Verdict :
    (config : OrchestratorConfig) (env : Surroundings) (plan : List (List TaskSpec))
    (last : Option WaveTelemetry)
    → (report : Report) × (run_plan config env plan last ≡ some (ok report))
      × Verdict (ids (concat plan)) report
unfolding run_plan first_state
run_plan-Verdict config env plan last =
    let all = total_at_start config.retry.max_retries_per_task (ids (concat plan)) in
    let (report, e, verdict) =
      rounds-Verdict config env (ids (concat plan)) (enough_rounds config plan)
        (first_state plan last) (first-IsReady plan last)
        (rw (all, length-ids (concat plan)) (omega arith)) in
    (report, e, verdict)

contains-foldr :
    (ts : List TaskSpec) (id : String)
    → contains (ids ts) id ≡ foldr (λ t b. t.id == id || b) false ts
unfolding contains
contains-foldr [] id = refl
contains-foldr (t ∷ ts) id = rw (contains-foldr ts id) refl

or_left_comm : (a b c : Bool) → (a || (b || c)) ≡ (b || (a || c))
or_left_comm a b c = ground arith

-- The tasks of a plan are those of the graph.
contains-perm :
    {xs ys : List TaskSpec}
    → Perm xs ys
    → (id : String) → contains (ids xs) id ≡ contains (ids ys) id
contains-perm {xs} {ys} p id =
    contains-foldr xs id
    ∙ Perm.foldr-eq Bool-set (λ (t : TaskSpec) b. t.id == id || b)
        (λ a b x. or_left_comm (a.id == id) (b.id == id) x) p false
    ∙ sym (contains-foldr ys id)

All-planned :
    (P : String → Type 0) (planned : List String) (id : String)
    → All P planned
    → contains planned id ≡ true
    → P id
unfolding contains
All-planned P [] id h member = cc
All-planned P (p ∷ planned) id h member = elim (==-cases p id) [
  | inl (_, eq) ↦ subst P eq h.0
  | inr (differs, _) ↦ All-planned P planned id h.1 (rw differs at member)
]

remaining-nothing : (g : TaskGraph) → remaining [] g ≡ g
unfolding remaining contains
remaining-nothing [] = refl
remaining-nothing (t ∷ g) = rw (remaining-nothing g) refl

All-Perm :
    (P : String → Type 0) {xs ys : List TaskSpec} → Perm xs ys → All P (ids xs) → All P (ids ys)
All-Perm P {xs} {ys} p h = All-ids P ys (
    All-imp (λ t. contains (ids ys) t.id ≡ true) _
      (λ t member. All-planned P (ids xs) t.id h (contains-perm p t.id ∙ member)) ys (Known-ids ys))

Verdict-map :
    (xs ys : List String) (report : Report)
    → (All (IsDone report.state.ledger.task_statuses) xs
        → All (IsDone report.state.ledger.task_statuses) ys)
    → Verdict xs report
    → Verdict ys report
Verdict-map xs ys report f (inl (ended, h)) = inl (ended, f h)
Verdict-map xs ys report f (inr h) = inr h

-- With a bound of one at least and no two tasks of one id, `run` ends: either the planner finds no
-- task ready although tasks are left, or there is a report, and no transition of the phases was
-- invalid. A report says COMPLETED where every task of the graph SUCCEEDED or was CANCELLED, or it
-- says BLOCKED, in that phase, with HUMAN_REVIEW or BLOCKED to come.
pub run-Verdict :
    (config : OrchestratorConfig) (env : Surroundings) (g : TaskGraph) (last : Option WaveTelemetry)
    → 1 ≤ config.max_parallelism
    → IsUnique g
    → ((report : Report) × (run config env g last ≡ some (ok report)) × Verdict (ids g) report)
      ⊎ (run config env g last ≡ some (err (not_planned none_ready))) × IsStuck [] g
unfolding run
run-Verdict config env g last bound unique =
    let good : is_bad (some config.max_parallelism) ≡ false = ground (arith, bound) in
    elim (waves-Answers [] (some config.max_parallelism) g good unique) [
      | inr (stuck, h) ↦ inr (rw (stuck, run) refl, h)
      | inl (plan, e) ↦
          let (report, f, verdict) = run_plan-Verdict config env plan last in
          let p = waves-IsPlan [] (some config.max_parallelism) g plan unique e in
          inl (
            report,
            rw (e, f, run) refl,
            Verdict-map (ids (concat plan)) (ids g) report
                (λ h. All-Perm _ (subst (Perm (concat plan)) (remaining-nothing g) p.complete) h)
                verdict,
          )
    ]
