-- ===== src/Runtime/Orchestrator/Rounds/Concluding.antt =====
-- How a round ends, and what the run promises.
use smorx.Prelude.{
  ◌≡◌, refl, String, Bool, true, false, ◌⊎◌, inl, inr, none, List, [], ◌∷◌, ◌++◌, concat,
  Bool-cases, Option-cases, is_empty, nil_of_is_empty, contains, ◌&&◌, and-true_inv, string_eq, All,
  ok, Returns,
}
use smorx.Runtime.Graph.Waves.{ids}
use smorx.Runtime.Orchestrator.{
  WorkflowPhase, collecting, Phases, transition, Reactions, next_after_block,
}
use smorx.Runtime.Orchestrator.Run.{RunState}
use smorx.Runtime.Orchestrator.Rounds.{ReportStatus, Report, Step, again, stop, conclude}
use smorx.Runtime.Orchestrator.Rounds.Phasing.{IsLooping}
use smorx.Runtime.Orchestrator.Rounds.Budget.{Known}
use smorx.Runtime.Orchestrator.Rounds.Settling.{IsDone}

-- COMPLETED, with every task SUCCEEDED or CANCELLED; or BLOCKED, with the transition to come.
abbrev pub Verdict : List String → Report → Type 0
Verdict planned report =
    (report.status ≡ ReportStatus.completed)
      × All (IsDone report.state.ledger.task_statuses) planned
    ⊎ (report.status ≡ ReportStatus.blocked)
      × (report.state.phases.phase ≡ WorkflowPhase.blocked)
      × ((report.state.next_transition ≡ "HUMAN_REVIEW")
          ⊎ (report.state.next_transition ≡ "BLOCKED"))

-- A task is done, or it is still to run.
abbrev pub Awaits : RunState → String → Type 0
Awaits s id =
    IsDone s.ledger.task_statuses id
    ⊎ (contains (ids s.follow_ups) id ≡ true)
    ⊎ (contains (ids (concat s.plan)) id ≡ true)

module _ (planned : List String) where
  pub record IsReady (s : RunState) : Type 0 where
    pub looping : IsLooping s.phases
    pub known_plan : All (Known planned) s.plan
    pub known_follow_ups : Known planned s.follow_ups
    pub awaits : All (Awaits s) planned

  -- What a round ends in, where the collection left `s` and the reactions `r`.
  abbrev pub Concluded : RunState → Reactions → Step → Type 0
  Concluded s r (again s') =
      (r.block ≡ none) × (s' ≡ record s { tasks = r.tasks; follow_ups = s.follow_ups ++ r.staged })
  Concluded s r (stop report) =
      ((r.block ≡ none)
        × (r.staged ≡ [])
        × (s.follow_ups ≡ [])
        × (s.plan ≡ [])
        × (report.status ≡ ReportStatus.completed)
        × (report.state.ledger ≡ s.ledger))
      ⊎ (report.status ≡ ReportStatus.blocked)
        × (report.state.phases.phase ≡ WorkflowPhase.blocked)
        × ((report.state.next_transition ≡ "HUMAN_REVIEW")
            ⊎ (report.state.next_transition ≡ "BLOCKED"))

transition-ends :
    (p : Phases)
    → p.phase ≡ collecting
    → (transition WorkflowPhase.blocked p
        ≡ ok (record {
          phase = WorkflowPhase.blocked;
          phase_history = p.phase_history ++ WorkflowPhase.blocked ∷ [];
        }))
      × (transition WorkflowPhase.completed p
          ≡ ok (record {
            phase = WorkflowPhase.completed;
            phase_history = p.phase_history ++ WorkflowPhase.completed ∷ [];
          }))
unfolding transition
transition-ends p h = (rw (h, transition) refl, rw (h, transition) refl)

next_after_block_cases :
    (mismatch : Bool)
    → (next_after_block mismatch ≡ "HUMAN_REVIEW") ⊎ (next_after_block mismatch ≡ "BLOCKED")
next_after_block_cases true = inl refl
next_after_block_cases false = inr refl

pub conclude-Concluded :
    (planned : List String) (s : RunState) (r : Reactions)
    → s.phases.phase ≡ collecting
    → Returns (Concluded planned s r) (conclude s r)
unfolding conclude
conclude-Concluded planned s r h =
    let (to_blocked, to_completed) = transition-ends s.phases h in
    elim (Option-cases r.block) [
      | inr ((kind, mismatch), e) ↦
          rw (e, to_blocked) (inr (refl, refl, next_after_block_cases mismatch))
      | inl open_ ↦
          elim (Bool-cases (is_empty r.staged && is_empty s.plan && is_empty s.follow_ups)) [
            | inr more ↦ rw (open_, more) (refl, refl)
            | inl nothing ↦
                let (first, last) = and-true_inv _ _ nothing in
                let (no_staged, no_plan) = and-true_inv _ _ first in
                rw (open_, nothing, to_completed)
                  (inl (
                    refl,
                    nil_of_is_empty _ no_staged,
                    nil_of_is_empty _ last,
                    nil_of_is_empty _ no_plan,
                    refl,
                    refl,
                  ))
          ]
    ]
