-- ===== src/Runtime/Orchestrator/Rounds/Progress.antt =====
-- A round leaves less to do, and no planned task is lost.
use smorx.Prelude.{
  ◌≡◌, sym, ◌∙◌, ap, subst, ℕ, ◌+◌, ◌≤◌, String, true, false, ◌⊎◌, inl, inr, none, List, [], ◌++◌,
  map, concat, arith, Bool-cases, length, length-append, contains, string_eq, lookup, All,
  All-append, All-imp, Returns, Returns-inv,
}
use smorx.Runtime.Graph.{TaskSpec}
use smorx.Runtime.Graph.Waves.{ids}
use smorx.Runtime.Agents.{AgentFailure}
use smorx.Runtime.Orchestrator.{Reactions, react_all, Failure}
use smorx.Runtime.Orchestrator.Run.{OrchestratorConfig, Surroundings, RunState, failure_of}
use smorx.Runtime.Orchestrator.Rounds.{Step, again, stop, conclude, round}
use smorx.Runtime.Orchestrator.Rounds.Phasing.{IsLooping, IsCollected, run_and_collect-IsCollected}
use smorx.Runtime.Orchestrator.Rounds.Budget.{total, retriable, Known, total-start_all}
use smorx.Runtime.Orchestrator.Rounds.Reacting.{react_all-Spent, react_all-Known}
use smorx.Runtime.Orchestrator.Rounds.Settling.{
  IsDone, IsEnded, run_all-running, run_all-other, collect_tasks-IsEnded, collect_tasks-other,
}
use smorx.Runtime.Orchestrator.Rounds.Staging.{
  contains-ids_append, lookup-map_values, react_all-staged,
}
use smorx.Runtime.Orchestrator.Rounds.Concluding.{
  Verdict, Awaits, IsReady, Concluded, conclude-Concluded,
}

-- A task before a round: done, of the round's wave, or still to run.
abbrev pub Due : List TaskSpec → RunState → String → Type 0
Due wave s id =
    IsDone s.ledger.task_statuses id
    ⊎ (contains (ids wave) id ≡ true)
    ⊎ (contains (ids s.follow_ups) id ≡ true)
    ⊎ (contains (ids (concat s.plan)) id ≡ true)

module _ (config : OrchestratorConfig) (env : Surroundings) (planned : List String) where
  abbrev pub measure : RunState → ℕ
  measure s =
      length s.plan + length s.follow_ups + total config.retry.max_retries_per_task planned s.tasks

  abbrev reactions : List TaskSpec → RunState → List (String × AgentFailure) → Reactions
  reactions wave s failures =
      react_all config.retry (map (λ f. (f.0, failure_of config f.1)) failures) wave s.tasks []

  module _ (wave : List TaskSpec) (s s' : RunState) (failures : List (String × AgentFailure))
      (c : IsCollected config env wave s s' failures) where
    -- What the collection makes of a task.
    collected_IsEnded :
        (id : String) → contains (ids wave) id ≡ true → IsEnded (s'.ledger, failures) id
    collected_IsEnded id member =
        subst (λ r. IsEnded r id) c.collection
          (collect_tasks-IsEnded (env.fresh_id c.number) (env.now c.number) c.collected (ids wave)
            c.before [] id
            (inl (ap (lookup id) c.running ∙ run_all-running wave _ id member, member)))

    collected-other :
        (id : String)
        → contains (ids wave) id ≡ false
        → lookup id s'.ledger.task_statuses ≡ lookup id s.ledger.task_statuses
    collected-other id absent =
        ap (λ r. lookup id r.0.task_statuses) (sym c.collection)
        ∙ collect_tasks-other (env.fresh_id c.number) (env.now c.number) c.collected (ids wave)
            c.before [] id absent
        ∙ ap (lookup id) c.running
        ∙ run_all-other wave _ id absent

    -- A task that is due is due again, or done.
    still-Awaits :
        (reactions wave s' failures).block ≡ none
        → (id : String) → Due wave s id
        → Awaits
            (record s' {
              tasks = (reactions wave s' failures).tasks;
              follow_ups = s'.follow_ups ++ (reactions wave s' failures).staged;
            })
            id
    still-Awaits open_ id due =
        let r = reactions wave s' failures in
        let split = contains-ids_append s'.follow_ups r.staged id in
        elim (Bool-cases (contains (ids wave) id)) [
          | inl member ↦ elim (collected_IsEnded id member) [
            | inl done ↦ inl done
            | inr has ↦
                let again_ =
                  react_all-staged config.retry (map (λ f. (f.0, failure_of config f.1)) failures)
                    wave s'.tasks [] id
                    (inr (member, lookup-map_values (failure_of config) failures id has)) open_ in
                inr (inl (ground (arith, split, again_)))
          ]
          | inr absent ↦
              let same = collected-other id absent in
              elim due [
                | inl (inl done) ↦ inl (inl (same ∙ done))
                | inl (inr done) ↦ inl (inr (same ∙ done))
                | inr (inl member) ↦ cc
                | inr (inr (inl follows)) ↦
                    let kept : contains (ids s'.follow_ups) id ≡ true =
                      ap (λ f. contains (ids f) id) c.same_follow_ups ∙ follows in
                    inr (inl (ground (arith, split, kept)))
                | inr (inr (inr planned_)) ↦
                    inr (inr (ap (λ p. contains (ids (concat p)) id) c.same_plan ∙ planned_))
              ]
        ]

  -- What a round leaves: a state to go on from with less to do, or the verdict.
  abbrev pub Progress : RunState → Step → Type 0
  Progress s (again s') = IsReady planned s' × (measure s' ≤ measure s)
  Progress s (stop report) = Verdict planned report

  -- Nothing is left to do.
  pub IsDone-of_due :
      (s : RunState)
      → s.plan ≡ []
      → s.follow_ups ≡ []
      → (id : String) → Awaits s id
      → IsDone s.ledger.task_statuses id
  unfolding contains
  IsDone-of_due s no_plan none_follow id (inl done) = done
  IsDone-of_due s no_plan none_follow id (inr (inl h)) =
      cc (subst (λ f. contains (ids f) id ≡ true) none_follow h)
  IsDone-of_due s no_plan none_follow id (inr (inr h)) =
      cc (subst (λ p. contains (ids (concat p)) id ≡ true) no_plan h)

  module _ (wave : List TaskSpec) (s s' : RunState) (failures : List (String × AgentFailure))
      (c : IsCollected config env wave s s' failures) (known_plan : All (Known planned) s.plan)
      (known_follow_ups : Known planned s.follow_ups) (known : Known planned wave)
      (due : All (Due wave s) planned) where
    -- A round that goes on has used up a wave of the plan, or a run of a task.
    measure-le :
        (reactions wave s' failures).block ≡ none
        → measure (record s' {
          tasks = (reactions wave s' failures).tasks;
          follow_ups = s'.follow_ups ++ (reactions wave s' failures).staged;
        })
          ≤ measure s
    measure-le open_ =
        let fs : List (String × Failure) = map (λ f. (f.0, failure_of config f.1)) failures in
        let r = reactions wave s' failures in
        let max_retries = config.retry.max_retries_per_task in
        let issued =
          subst
            (λ t.
              retriable max_retries wave t + total max_retries planned t
              ≤ total max_retries planned s.tasks)
            (sym c.counted) (total-start_all max_retries planned wave s.tasks known) in
        let spent =
          react_all-Spent config.retry planned fs wave s'.tasks []
            (total max_retries planned s.tasks) known (omega (arith, issued)) open_ in
        omega (
          arith,
          spent,
          length-append s'.follow_ups r.staged,
          ap length c.same_plan,
          ap length c.same_follow_ups,
        )

    Concluded-Progress :
        (step : Step) → Concluded planned s' (reactions wave s' failures) step → Progress s step
    Concluded-Progress (again s'') (open_, e) =
        let fs : List (String × Failure) = map (λ f. (f.0, failure_of config f.1)) failures in
        let known_staged = react_all-Known config.retry planned fs wave s'.tasks [] known tt in
        subst (Progress s) (sym (ap again e)) (
          record {
            looping = inr c.collecting_phase;
            known_plan = subst (All (Known planned)) (sym c.same_plan) known_plan;
            known_follow_ups =
                All-append (λ t. contains planned t.id ≡ true) s'.follow_ups _
                  (subst (Known planned) (sym c.same_follow_ups) known_follow_ups) known_staged;
            awaits = All-imp (Due wave s) _ (still-Awaits wave s s' failures c open_) planned due;
          },
          measure-le open_,
        )
    Concluded-Progress (stop report) (inr blocked_) = inr blocked_
    Concluded-Progress (stop report) (inl (open_, none_staged, none_follow, no_plan, ended, same)) =
        let nothing = ap (λ x. s'.follow_ups ++ x) none_staged ∙ ap (λ x. x ++ []) none_follow in
        let done : All (IsDone s'.ledger.task_statuses) planned =
          All-imp (Due wave s) _
            (λ id h.
              IsDone-of_due
                (record s' {
                  tasks = (reactions wave s' failures).tasks;
                  follow_ups = s'.follow_ups ++ (reactions wave s' failures).staged;
                })
                no_plan nothing id (still-Awaits wave s s' failures c open_ id h))
            planned due in
        inl (ended, subst (λ l. All (IsDone l.task_statuses) planned) (sym same) done)

  pub round-Progress :
      (wave : List TaskSpec) (s : RunState)
      → IsLooping s.phases
      → All (Known planned) s.plan
      → Known planned s.follow_ups
      → Known planned wave
      → All (Due wave s) planned
      → Returns (Progress s) (round config env wave s)
  unfolding round
  round-Progress wave s looping known_plan known_follow_ups known due =
      let (s', failures, e, c) = run_and_collect-IsCollected config env wave s looping in
      let r = reactions wave s' failures in
      let (step, f, concluded) =
        Returns-inv (Concluded planned s' r) (conclude s' r)
          (conclude-Concluded planned s' r c.collecting_phase) in
      rw (e, f)
        (Concluded-Progress wave s s' failures c known_plan known_follow_ups known due step
          concluded)
