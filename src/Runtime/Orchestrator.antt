-- ===== src/Runtime/Orchestrator.antt =====
-- packages/agent-runtime/src/smorx_runtime/orchestrator.py: the phases of a run, and what it does with
-- the tasks of a wave that failed. The dicts by task id of the run counts, the replacements and the
-- signatures are one dict of a record; a signature is the text that the policy makes of a failure.
pub mod Bounded
pub mod Collecting
pub mod Rounds
pub mod Run
mod Samples
use smorx.Prelude.{
  ℕ, ◌+◌, String, Bool, true, false, not, ◌&&◌, ◌||◌, Option, none, some, List, [], ◌∷◌, ◌++◌,
  if◌then◌else◌, leb, nat_beq, anyb, ◌==◌, string_eq, lookup, insert, Result, ok, err,
}
use smorx.Runtime.Graph.{TaskSpec}

pub data WorkflowPhase : Type 0 where
  idle inspecting planning dispatching executing collecting reconciling completed blocked :
      WorkflowPhase

-- WORKFLOW_TRANSITIONS
abbrev pub next_phases : WorkflowPhase → List WorkflowPhase
next_phases idle = inspecting ∷ []
next_phases inspecting = planning ∷ []
next_phases planning = dispatching ∷ []
next_phases dispatching = executing ∷ []
next_phases executing = collecting ∷ []
next_phases collecting = reconciling ∷ completed ∷ blocked ∷ []
next_phases reconciling = dispatching ∷ completed ∷ blocked ∷ []
next_phases completed = []
next_phases blocked = []

-- The position of a phase in the enum, which stands for its identity.
abbrev pub phase_ordinal : WorkflowPhase → ℕ
phase_ordinal idle = 0
phase_ordinal inspecting = 1
phase_ordinal planning = 2
phase_ordinal dispatching = 3
phase_ordinal executing = 4
phase_ordinal collecting = 5
phase_ordinal reconciling = 6
phase_ordinal completed = 7
phase_ordinal blocked = 8

abbrev pub is_phase : WorkflowPhase → WorkflowPhase → Bool
is_phase a b = nat_beq (phase_ordinal a) (phase_ordinal b)

pub record Phases : Type 0 where
  pub phase : WorkflowPhase
  pub phase_history : List WorkflowPhase

-- The InvalidWorkflowTransition, with the current phase and the attempted one.
pub data PhaseError : Type 0 where
  invalid_transition : WorkflowPhase → WorkflowPhase → PhaseError

unfoldable pub transition : WorkflowPhase → Phases → Result PhaseError Phases
transition target p =
    if not (anyb (is_phase target) (next_phases p.phase))
    then err (invalid_transition p.phase target)
    else ok (record { phase = target; phase_history = p.phase_history ++ target ∷ [] })

-- The transitions of `_ensure_dispatch_ready`.
unfoldable pub ensure_dispatch_ready : Phases → Result PhaseError Phases
unfolding transition
ensure_dispatch_ready p = elim p.phase [
  | collecting ↦ elim (transition reconciling p) [
    | err e ↦ err e
    | ok p' ↦ transition dispatching p'
  ]
  | reconciling ↦ transition dispatching p
  | _ ↦ ok p
]

pub record RetryPolicy : Type 0 where
  pub max_retries_per_task : ℕ
  pub allow_replacement : Bool
  pub no_progress_threshold : ℕ

-- What the run keeps of one task.
pub record TaskRuns : Type 0 where
  pub runs : ℕ
  pub replaced : Bool
  pub last_signature : Option String
  pub consecutive : ℕ

abbrev pub no_runs : TaskRuns
no_runs = record { runs = 0; replaced = false; last_signature = none; consecutive = 0 }

pub record Failure : Type 0 where
  pub signature : String
  pub is_mismatch : Bool

pub data BlockKind : Type 0 where
  no_progress_block human_review_block exhausted : BlockKind

pub data Reaction : Type 0 where
  retry : ℕ → Reaction
  replace_agent : Reaction
  blocks : BlockKind → Bool → Reaction

-- self._run_counts[task.id] = run_no + 1
unfoldable pub start_run : TaskRuns → TaskRuns
start_run t = record t { runs = t.runs + 1 }

abbrev pub is_same : Option String → String → Bool
is_same none signature = false
is_same (some last) signature = last == signature

unfoldable pub count_signature : String → TaskRuns → TaskRuns
count_signature signature t = record t {
  last_signature = some signature;
  consecutive = if is_same t.last_signature signature then t.consecutive + 1 else 1;
}

-- One round of the loop over the tasks that failed.
unfoldable pub react : RetryPolicy → Failure → TaskRuns → Reaction × TaskRuns
unfolding count_signature
react policy f t =
    let counted = count_signature f.signature t in
    if leb policy.no_progress_threshold counted.consecutive
    then (blocks no_progress_block f.is_mismatch, counted)
    else if leb counted.runs policy.max_retries_per_task
    then (retry (counted.runs + 1), counted)
    else if policy.allow_replacement && not counted.replaced
    then (replace_agent, record counted { replaced = true })
    else (blocks (if f.is_mismatch then human_review_block else exhausted) f.is_mismatch, counted)

abbrev pub runs_of : String → List (String × TaskRuns) → TaskRuns
runs_of id tasks = elim (lookup id tasks) [ none ↦ no_runs | some t ↦ t ]

-- Where the loop ends: the tasks to run again, or the block.
pub record Reactions : Type 0 where
  pub tasks : List (String × TaskRuns)
  pub staged : List TaskSpec
  pub block : Option (BlockKind × Bool)

-- The loop: a task without a failure is passed over, and a block ends it.
unfoldable pub react_all :
    RetryPolicy
    → List (String × Failure)
    → List TaskSpec
    → List (String × TaskRuns)
    → List TaskSpec
    → Reactions
unfolding react
react_all policy failures [] tasks staged = record { tasks = tasks; staged = staged; block = none }
react_all policy failures (task ∷ wave) tasks staged = elim (lookup task.id failures) [
  | none ↦ react_all policy failures wave tasks staged
  | some f ↦
      let (reaction, t) = react policy f (runs_of task.id tasks) in
      let tasks' = insert task.id t tasks in
      let again = react_all policy failures wave tasks' (staged ++ task ∷ []) in
      elim reaction [
        | blocks kind mismatch ↦ record {
          tasks = tasks';
          staged = staged;
          block = some (kind, mismatch);
        }
        | _ ↦ again
      ]
]

-- self._state.next_transition at the block.
abbrev pub next_after_block : Bool → String
next_after_block mismatch = if mismatch then "HUMAN_REVIEW" else "BLOCKED"

-- The runs of one task that fails every time: the block, if it comes.
unfoldable pub fail_all : RetryPolicy → TaskRuns → List Failure → Option (BlockKind × Bool)
unfolding start_run react
fail_all policy t [] = none
fail_all policy t (f ∷ fs) =
    let (reaction, t') = react policy f (start_run t) in
    let rest = fail_all policy t' fs in
    elim reaction [ blocks kind mismatch ↦ some (kind, mismatch) | _ ↦ rest ]
