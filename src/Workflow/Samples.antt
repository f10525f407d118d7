-- ===== src/Workflow/Samples.antt =====
-- A task with two runs: what is recorded, replayed, resumed and reset.
use smorx.Prelude.{
  ℕ, ◌≡◌, refl, inl, inr, ==-cases, String, Bool, true, false, Option, none, some, List, [], ◌∷◌,
  ◌++◌, contains, lookup, string_eq, Result, ok, err,
}
use smorx.Workflow.Events.{text, Run, Store, Codec, Draft, next_sequence}
use smorx.Workflow.Replay.{replay_from_evidence_graph, ReplayResult}
use smorx.Workflow.Reliability.{
  validate_run_scoped_chain, resume_point, idempotency_guard, cleanup_stale_sandboxes,
  reset_workflow, decide_resume, ResumeDecision,
}
use smorx.Workflow.Chains.{
  Operation, records, resets, empty_store, IsFilled, run_operations, validate-run_operations,
}
use smorx.Workflow.Resetting.{Reset, reset_workflow-Reset}
use smorx.Workflow.Resuming.{Resumes, resume_point-IsFirstMissing}

abbrev codec : Codec
codec = record { sha256 = λ x. String.◌∷◌ "#" x; dumps = λ p. "{}" }

codec-IsFilled : IsFilled codec
codec-IsFilled x = elim (==-cases (codec.sha256 x) "") [
  | inl (_, eq) ↦ cc
  | inr (differs, _) ↦ differs
]

abbrev draft : ℕ → String → String → Draft
draft id run phase = record {
  id = id;
  entity_type = "Task";
  entity_id = "t";
  event_type = "ACTION_EXECUTED";
  occurred_at = id;
  actor = "workflow";
  payload = ("phase", text phase) ∷ [];
  task_id = "t";
  run_id = some run;
}

abbrev run_a : Run
run_a = record {
  id = "a";
  task_id = "t";
  status = "FAILED";
  finished_at = some 5;
  environment = [];
}

abbrev operations : List Operation
operations =
    records (draft 1 "a" "discover")
    ∷ records (draft 2 "b" "discover")
    ∷ records (draft 3 "a" "govern")
    ∷ []

abbrev two_runs : Store
two_runs = record (run_operations codec operations empty_store) {
  runs = run_a ∷ [];
  executions = record { id = 1; run_id = "a"; sandbox_id = some "box" } ∷ [];
}

abbrev summary : Result String ReplayResult → Option (Bool × Option String × List String)
summary (ok r) = some (r.replayable, r.first_mismatch, r.replayed_phases)
summary (err e) = none

-- The run replays. Its task does not: both runs have an event of sequence 1.
replay_tests :
    (summary (replay_from_evidence_graph codec (some run_a) none none two_runs)
      ≡ some (true, none, "discover" ∷ "govern" ∷ []))
    × (summary (replay_from_evidence_graph codec none (some "t") none two_runs)
        ≡ some (
          false,
          some "sequence ordering violated at sequence 1",
          "discover" ∷ "discover" ∷ "govern" ∷ [],
        ))
unfolding run_operations replay_from_evidence_graph lookup contains
replay_tests = (refl, refl)

resume_tests :
    (resume_point "a" two_runs ≡ ok (some "define"))
    × (idempotency_guard "t" "govern" two_runs ≡ ok true)
    × (idempotency_guard "t" "merge" two_runs ≡ ok false)
    × (idempotency_guard "t" "deploy" two_runs ≡ err "unknown phase: deploy")
    × (decide_resume codec run_a "OPEN" (some ("merge" ∷ [])) two_runs
        ≡ ok (ResumeDecision.outside_segment "define"))
    × (decide_resume codec run_a "MERGED" none two_runs ≡ ok ResumeDecision.already_recorded)
    × (next_sequence none none two_runs ≡ err "exactly one of run_id or task_id must be provided")
unfolding run_operations resume_point idempotency_guard decide_resume next_sequence lookup contains
resume_tests = (refl, refl, refl, refl, refl, refl, refl)

cleanup_tests :
    ((cleanup_stale_sandboxes 30 24 true "t" two_runs).0 ≡ two_runs)
    × ((cleanup_stale_sandboxes 30 24 true "t" two_runs).1.cleaned
        ≡ ("stale_runs", 1) ∷ ("stale_sandbox_markers", 1) ∷ [])
    × ((cleanup_stale_sandboxes 30 24 false "t" two_runs).0.executions ≡ [])
    × ((cleanup_stale_sandboxes 28 24 true "t" two_runs).1.cleaned
        ≡ ("stale_runs", 0) ∷ ("stale_sandbox_markers", 0) ∷ [])
unfolding run_operations cleanup_stale_sandboxes contains
cleanup_tests = (refl, refl, refl, refl)

validate-run_operations_example :
    validate_run_scoped_chain codec "a"
      (run_operations codec (operations ++ resets run_a true true 4 9 ∷ []) empty_store)
    ≡ none
validate-run_operations_example =
    validate-run_operations codec (operations ++ resets run_a true true 4 9 ∷ []) "a" codec-IsFilled

abbrev value_of : Result String ReplayResult → ReplayResult
value_of (ok r) = r
value_of (err e) = record {
  task_id = "";
  stages = [];
  evidence_count = 0;
  event_count = 0;
  replayable = false;
  hash_chain_valid = false;
  first_mismatch = none;
  replayed_phases = [];
  evidence_hashes = [];
  blocked_events = [];
  blocked_reason = none;
}

abbrev replayed : ReplayResult
unfolding replay_from_evidence_graph
replayed = value_of (replay_from_evidence_graph codec (some run_a) none none two_runs)

reset_workflow-Reset_example :
    Reset run_a "b" true 4 two_runs (reset_workflow codec run_a true true 4 9 two_runs)
reset_workflow-Reset_example = reset_workflow-Reset codec run_a "b" true true 4 9 two_runs refl

resume_point-IsFirstMissing_example : Resumes "a" two_runs (resume_point "a" two_runs)
resume_point-IsFirstMissing_example = resume_point-IsFirstMissing "a" two_runs
