-- ===== src/Workflow/Reliability.antt =====
-- packages/workflow/src/smorx_workflow/reliability.py: the recorded events, the validation of a run's
-- chain, the point to resume from, the guard against repeated phases, the cleanup of sandboxes and
-- the reset of a run. The clock's reading and the fresh ids are arguments. Of `resume_workflow` the
-- decision before the workflow runs again is modelled.
use smorx.Prelude.{
  ℕ, ◌-◌, String, Bool, true, false, not, ◌&&◌, ◌||◌, Option, none, some, List, [], ◌∷◌, map,
  if◌then◌else◌, leb, filterb, anyb, length, contains, ◌==◌, string_eq, lookup, insert, Result, ok,
  err, ◌>>=◌, ◌<>◌, str,
}
use smorx.Workflow.Events.{
  Value, flag, text, Event, Run, Execution, Bound, Store, Codec, is_id, of_run, of_task,
  event_digest, next_sequence, Draft, row_of, add_event,
}
use smorx.Workflow.Replay.{
  default_phases, ordered_events, is_chained, ChainIssue, check_chain, phase_of, is_blocked,
}

-- The scope of a new event: its run, or else its task.
abbrev pub sequence_of : Draft → Store → Result String ℕ
unfolding next_sequence
sequence_of d s = elim d.run_id [
  | some run_id ↦ next_sequence (some run_id) none s
  | none ↦ next_sequence none (some d.task_id) s
]

module _ (codec : Codec) where
  unfoldable pub record_event : Draft → Store → Result String Store
  unfolding sequence_of event_digest
  record_event d s = do
    sequence ← sequence_of d s
    let event = row_of d sequence
    ok (add_event (record event { hash = some (event_digest codec event) }) s)

  unfoldable pub validate_run_scoped_chain : String → Store → Option ChainIssue
  unfolding ordered_events check_chain
  validate_run_scoped_chain run_id s =
      check_chain codec none (filterb is_chained (ordered_events run_id s))

abbrev pub with_recorded : Option String → List String → List String
with_recorded none phases = phases
with_recorded (some p) phases = p ∷ phases

-- The phases that the events of the run record.
unfoldable pub completed_phases : List Event → Result String (List String)
unfolding phase_of
completed_phases [] = ok []
completed_phases (e ∷ es) = do
  phase ← phase_of e.payload
  phases ← completed_phases es
  ok (with_recorded phase phases)

unfoldable pub first_missing : List String → List String → Option String
unfolding contains
first_missing completed [] = none
first_missing completed (phase ∷ phases) =
    let rest = first_missing completed phases in
    if not (contains completed phase) then some phase else rest

unfoldable pub resume_point : String → Store → Result String (Option String)
unfolding completed_phases ordered_events first_missing
resume_point run_id s = do
  completed ← completed_phases (ordered_events run_id s)
  ok (first_missing completed default_phases)

-- str(payload.get("phase")) == phase, for a phase that is known.
abbrev pub names_phase : String → Option Value → Bool
names_phase phase (some (text t)) = t == phase
names_phase phase _ = false

abbrev pub records_phase : String → Event → Bool
unfolding lookup is_blocked
records_phase phase e =
    e.event_type == "MERGE"
    || names_phase phase (lookup "phase" e.payload) && not (is_blocked e.payload)

unfoldable pub idempotency_guard : String → String → Store → Result String Bool
unfolding contains records_phase
idempotency_guard task_id phase s =
    if not (contains default_phases phase)
    then err ("unknown phase: " <> phase)
    else ok (anyb (records_phase phase) (filterb (of_task task_id) s.events))

-- What of a ReliabilityReport the operations fill in.
pub record ReliabilityReport : Type 0 where
  pub task_id : String
  pub operation : String
  pub applied : Bool
  pub detail : String
  pub removed_event_ids : List ℕ
  pub cleaned : List (String × ℕ)

unfoldable pub find_run : String → List Run → Option Run
find_run id [] = none
find_run id (r ∷ rs) = if r.id == id then some r else find_run id rs

-- A terminal status, and an end before the cutoff.
unfoldable pub is_stale_run : ℕ → Run → Bool
unfolding contains
is_stale_run cutoff r =
    contains ("BLOCKED" ∷ "FAILED" ∷ "COMPLETED" ∷ []) r.status
    && elim r.finished_at [ none ↦ false | some t ↦ leb t cutoff ]

-- The markers: executions with a sandbox, joined with their run.
unfoldable pub is_stale_execution : ℕ → Store → Execution → Bool
unfolding find_run is_stale_run
is_stale_execution cutoff s ex =
    elim (find_run ex.run_id s.runs) [ none ↦ false | some r ↦ is_stale_run cutoff r ]
    && elim ex.sandbox_id [ none ↦ false | some sandbox ↦ true ]

unfoldable pub distinct : List String → List String
unfolding contains
distinct [] = []
distinct (x ∷ xs) = let rest = distinct xs in if contains rest x then rest else x ∷ rest

-- The task of the report is that of the least stale run, which is an argument.
unfoldable pub cleanup_stale_sandboxes : ℕ → ℕ → Bool → String → Store → Store × ReliabilityReport
unfolding is_stale_execution distinct str
cleanup_stale_sandboxes now staleness dry_run task_id s =
    let cutoff = now - staleness in
    let stale = filterb (is_stale_execution cutoff s) s.executions in
    let stale_runs = length (distinct (map (λ (ex : Execution). ex.run_id) stale)) in
    let cleaned = ("stale_runs", stale_runs) ∷ ("stale_sandbox_markers", length stale) ∷ [] in
    if dry_run
    then (
      s,
      record {
        task_id = task_id;
        operation = "cleanup_stale_sandboxes";
        applied = false;
        detail =
            "dry run: " <> str (length stale) <> " stale sandbox markers flagged, none removed";
        removed_event_ids = [];
        cleaned = cleaned;
      },
    )
    else (
      record s { executions = filterb (λ ex. not (is_stale_execution cutoff s ex)) s.executions },
      record {
        task_id = task_id;
        operation = "cleanup_stale_sandboxes";
        applied = true;
        detail =
            "removed "
            <> str (length stale)
            <> " stale sandbox markers from "
            <> str stale_runs
            <> " stale runs";
        removed_event_ids = [];
        cleaned = cleaned;
      },
    )

abbrev pub bound_to : String → Bound → Bool
bound_to run_id row = is_id run_id row.run_id

abbrev pub executes : String → Execution → Bool
executes run_id ex = ex.run_id == run_id

-- The rows of the run in the four tables are deleted.
unfoldable pub delete_run_rows : String → Store → Store
delete_run_rows run_id s = record s {
  events = filterb (λ e. not (of_run run_id e)) s.events;
  failures = filterb (λ row. not (bound_to run_id row)) s.failures;
  evidence = filterb (λ row. not (bound_to run_id row)) s.evidence;
  executions = filterb (λ ex. not (executes run_id ex)) s.executions;
}

unfoldable pub requeue : Run → Run
unfolding insert
requeue r = record r {
  status = "QUEUED";
  finished_at = none;
  environment = insert "demo_reset" (flag true) r.environment;
}

unfoldable pub set_run : Run → List Run → List Run
set_run r [] = []
set_run r (x ∷ xs) = if x.id == r.id then r ∷ xs else x ∷ set_run r xs

abbrev pub refused : Run → String → ReliabilityReport
refused run reason = record {
  task_id = run.task_id;
  operation = "reset";
  applied = false;
  detail = reason;
  removed_event_ids = [];
  cleaned = [];
}

-- The observation of the reset belongs to the task, and to no run.
abbrev pub reset_draft : Run → ℕ → ℕ → Draft
reset_draft run id now = record {
  id = id;
  entity_type = "Task";
  entity_id = run.task_id;
  event_type = "BLOCKED";
  occurred_at = now;
  actor = "reliability";
  payload =
      ("operation", text "reset") ∷ ("detail", text "run-scoped state reset for re-execution") ∷ [];
  task_id = run.task_id;
  run_id = none;
}

unfoldable pub reset_workflow :
    Codec → Run → Bool → Bool → ℕ → ℕ → Store → Result String (Store × ReliabilityReport)
unfolding delete_run_rows requeue set_run record_event
reset_workflow codec run allow_destructive demo_only id now s =
    if not allow_destructive
    then ok (s, refused run "reset blocked: allow_destructive must be True")
    else if not demo_only
    then ok (s, refused run "reset blocked: only demo-scoped resets are supported (demo_only=True)")
    else (let removed = filterb (of_run run.id) s.events in
        let cleaned =
          ("events", length removed)
          ∷ ("evidence", length (filterb (bound_to run.id) s.evidence))
          ∷ ("failures", length (filterb (bound_to run.id) s.failures))
          ∷ ("executions", length (filterb (executes run.id) s.executions))
          ∷ [] in
        let emptied = delete_run_rows run.id s in
        let queued = record emptied { runs = set_run (requeue run) emptied.runs } in
        record_event codec (reset_draft run id now) queued >>= λ s'. ok (
          s',
          record {
            task_id = run.task_id;
            operation = "reset";
            applied = true;
            detail = "removed run-scoped state; historical rows preserved";
            removed_event_ids = map (λ (e : Event). e.id) removed;
            cleaned = cleaned;
          },
        ))

-- What `resume_workflow` decides before it runs the phases again.
pub data ResumeDecision : Type 0 where
  already_recorded : ResumeDecision
  chain_broken : ChainIssue → ResumeDecision
  outside_segment : String → ResumeDecision
  proceeds : Option String → ResumeDecision

abbrev pub is_outside : Option (List String) → String → Bool
unfolding contains
is_outside none phase = false
is_outside (some phases) phase = not (contains phases phase)

unfoldable pub decide_resume :
    Codec → Run → String → Option (List String) → Store → Result String ResumeDecision
unfolding validate_run_scoped_chain resume_point is_outside
decide_resume codec run task_status phases s =
    if run.status == "COMPLETED" || task_status == "MERGED"
    then ok already_recorded
    else elim (validate_run_scoped_chain codec run.id s) [
      | some issue ↦ ok (chain_broken issue)
      | none ↦ elim (resume_point run.id s) [
        | err e ↦ err e
        | ok none ↦ ok (proceeds none)
        | ok (some phase) ↦
            if is_outside phases phase
            then ok (outside_segment phase)
            else ok (proceeds (some phase))
      ]
    ]
