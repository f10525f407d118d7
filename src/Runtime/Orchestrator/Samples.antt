-- ===== src/Runtime/Orchestrator/Samples.antt =====
-- Tasks that fail, and the witness of the bound.
use smorx.Prelude.{
  ◌≡◌, refl, String, true, false, none, some, List, [], ◌∷◌, arith, lookup, insert, ok, err,
}
use smorx.Runtime.Graph.{TaskSpec, independent, coding}
use smorx.Runtime.Orchestrator.{
  WorkflowPhase, idle, completed, PhaseError, transition, ensure_dispatch_ready, RetryPolicy,
  no_runs, Failure, no_progress_block, exhausted, react_all, fail_all,
}
use smorx.Runtime.Orchestrator.Bounded.{IsBlocked, fail_all-IsBlocked}

abbrev policy : RetryPolicy
policy = record { max_retries_per_task = 1; allow_replacement = true; no_progress_threshold = 2 }

abbrev failing : String → Failure
failing signature = record { signature = signature; is_mismatch = false }

abbrev failures : List Failure
failures = failing "a" ∷ failing "b" ∷ failing "c" ∷ []

-- A retry, a replacement and then the block; the same signature twice blocks at once.
fail_all_tests :
    (fail_all policy no_runs failures ≡ some (exhausted, false))
    × (fail_all policy no_runs (failing "a" ∷ failing "b" ∷ []) ≡ none)
    × (fail_all policy no_runs (failing "a" ∷ failing "a" ∷ []) ≡ some (no_progress_block, false))
unfolding fail_all
fail_all_tests = (refl, refl, refl)

transition_tests :
    (transition completed (record { phase = idle; phase_history = [] })
      ≡ err (PhaseError.invalid_transition idle completed))
    × (ensure_dispatch_ready (record { phase = WorkflowPhase.collecting; phase_history = [] })
        ≡ ok (record {
          phase = WorkflowPhase.dispatching;
          phase_history = WorkflowPhase.reconciling ∷ WorkflowPhase.dispatching ∷ [];
        }))
unfolding transition ensure_dispatch_ready
transition_tests = (refl, refl)

abbrev task : String → TaskSpec
task id = record {
  id = id;
  capability = coding;
  kind = independent;
  description = "";
  depends_on = [];
}

-- A task without a failure is passed over.
react_all_tests :
    ((react_all policy
        (("x", failing "a") ∷ ("z", failing "a") ∷ [])
        (task "x" ∷ task "y" ∷ task "z" ∷ [])
        []
        []).staged
      ≡ task "x" ∷ task "z" ∷ [])
unfolding react_all lookup insert
react_all_tests = refl

fail_all-IsBlocked_example : IsBlocked (fail_all policy no_runs failures)
fail_all-IsBlocked_example = fail_all-IsBlocked policy failures (omega arith)
