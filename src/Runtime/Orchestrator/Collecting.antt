-- ===== src/Runtime/Orchestrator/Collecting.antt =====
-- packages/agent-runtime/src/smorx_runtime/orchestrator.py: `_collect_wave`. The fresh ids and the
-- clock's reading are arguments; a conflict holds what its statement is made of. The conflicts
-- between the claims of two results are left out.
pub mod Earned
mod Samples
use smorx.Prelude.{
  ℕ, String, Bool, true, false, not, ◌&&◌, ◌||◌, Option, none, some, List, [], ◌∷◌, ◌++◌,
  if◌then◌else◌, is_empty, ◌==◌, string_eq, lookup, insert, ◌<>◌,
}
use smorx.Runtime.Agents.{
  AgentAssignment, AgentEvidence, AgentFailure, AgentResult, ResultStatus, Issue, issue_text,
  validate_result,
}
use smorx.Runtime.WaveEngine.{WaveResult}

pub data TaskStatus : Type 0 where
  queued running succeeded failed cancelled : TaskStatus

-- The mismatches that the collection finds: a stale result, with the ids it carried, and the first
-- issue of a result.
pub data Conflict : Type 0 where
  stale_result : String → String → String → Conflict
  validation : String → Issue → Conflict

-- What of the OrchestratorState the collection reads and changes.
pub record Ledger : Type 0 where
  pub pending_tasks : List String
  pub completed_tasks : List String
  pub task_statuses : List (String × TaskStatus)
  pub completed_agents : List String
  pub agent_results : List (String × AgentResult)
  pub evidence : List AgentEvidence
  pub failures : List AgentFailure
  pub conflicts : List Conflict

-- list.remove: the first one.
unfoldable pub remove : String → List String → List String
remove id [] = []
remove id (x ∷ xs) = let rest = remove id xs in if x == id then xs else x ∷ rest

abbrev pub is_open : Option TaskStatus → Bool
is_open (some queued) = true
is_open (some running) = true
is_open _ = false

abbrev pub has_succeeded : ResultStatus → Bool
has_succeeded ResultStatus.succeeded = true
has_succeeded _ = false

-- What is made of a task of the wave.
pub data Judgement : Type 0 where
  settled : Judgement
  fails : AgentFailure → Judgement
  stale : Conflict → Judgement
  invalid : Conflict → AgentFailure → Judgement
  succeeds : AgentResult → Judgement

unfoldable pub make_failure : String → ℕ → String → String → AgentFailure
make_failure id now classification summary = record {
  failure_id = id;
  classification = classification;
  summary = summary;
  observed_at = now;
}

-- The wave as the collection sees it.
pub record Collected : Type 0 where
  pub timed_out : Bool
  pub obtained : List (String × AgentResult)
  pub engine_failures : List (String × AgentFailure)
  pub issued : List (String × AgentAssignment)

-- The output of the wave, which is None after a timeout or an error.
unfoldable pub collected_of : Option WaveResult → Bool → List (String × AgentAssignment) → Collected
collected_of none timed_out issued = record {
  timed_out = timed_out;
  obtained = [];
  engine_failures = [];
  issued = issued;
}
collected_of (some output) timed_out issued = record {
  timed_out = timed_out;
  obtained = output.task_results;
  engine_failures = output.task_failures;
  issued = issued;
}

abbrev pub is_stale : Collected → String → AgentResult → Bool
is_stale c id result = elim (lookup id c.issued) [
  | none ↦ true
  | some issued ↦ not (result.task_id == id) || not (result.assignment_id == issued.id)
]

module _ (fresh_id : String → String) (now : ℕ) where
  -- A result that is there and not stale.
  unfoldable pub judge_result : String → AgentResult → Judgement
  unfolding make_failure validate_result
  judge_result id result =
      if not (has_succeeded result.status)
      then elim result.failures [
        | [] ↦ fails (make_failure (fresh_id id) now "failed" result.summary)
        | f ∷ fs ↦ fails f
      ]
      else elim (validate_result result) [
        | [] ↦ succeeds result
        | issue ∷ issues ↦ invalid (validation id issue) (
            make_failure (fresh_id id) now "mismatch"
              ("result validation failed: " <> issue_text issue))
      ]

  unfoldable pub judge : Collected → String → Option TaskStatus → Judgement
  unfolding judge_result make_failure
  judge c id status =
      if not (is_open status)
      then settled
      else if c.timed_out
      then fails (make_failure (fresh_id id) now "timeout" "wave exceeded per-agent timeout budget")
      else elim (lookup id c.obtained) [
        | none ↦ elim (lookup id c.engine_failures) [
          | some f ↦ fails f
          | none ↦ fails (make_failure (fresh_id id) now "no_result" "no result produced for task")
        ]
        | some result ↦
            if is_stale c id result
            then stale (stale_result id result.task_id result.assignment_id)
            else judge_result id result
      ]

  unfoldable pub evidence_from : String → AgentResult → AgentEvidence
  evidence_from id result = record {
    evidence_id = fresh_id id;
    source = "task:" <> result.task_id;
    timestamp = now;
  }

  abbrev pub agents_of : Collected → String → List String
  agents_of c id = elim (lookup id c.issued) [ none ↦ [] | some issued ↦ issued.agent_id ∷ [] ]

  unfoldable pub mark_succeeded : Collected → String → AgentResult → Ledger → Ledger
  unfolding evidence_from
  mark_succeeded c id result l = record l {
    completed_tasks = l.completed_tasks ++ id ∷ [];
    task_statuses = insert id succeeded l.task_statuses;
    completed_agents = l.completed_agents ++ agents_of c id;
    agent_results = insert id result l.agent_results;
    evidence =
        l.evidence
        ++ (if is_empty result.evidence then evidence_from id result ∷ [] else result.evidence);
  }

  unfoldable pub mark_failed : String → AgentFailure → Ledger → Ledger
  mark_failed id f l = record l {
    task_statuses = insert id failed l.task_statuses;
    failures = l.failures ++ f ∷ [];
  }

  abbrev pub Collection : Type 0
  Collection = Ledger × List (String × AgentFailure)

  unfoldable pub settle : Collected → String → Judgement → Collection → Collection
  unfolding mark_succeeded mark_failed
  settle c id settled (l, failures) = (l, failures)
  settle c id (fails f) (l, failures) = (mark_failed id f l, insert id f failures)
  settle c id (stale conflict) (l, failures) = (
    record l {
      task_statuses = insert id cancelled l.task_statuses;
      conflicts = l.conflicts ++ conflict ∷ [];
    },
    failures,
  )
  settle c id (invalid conflict f) (l, failures) = (
    mark_failed id f (record l { conflicts = l.conflicts ++ conflict ∷ [] }),
    insert id f failures,
  )
  settle c id (succeeds result) (l, failures) = (mark_succeeded c id result l, failures)

  -- The loop over the tasks of the wave.
  unfoldable pub collect_tasks : Collected → List String → Collection → Collection
  unfolding remove judge settle
  collect_tasks c [] s = s
  collect_tasks c (id ∷ ids) (l, failures) =
      let l' = record l { pending_tasks = remove id l.pending_tasks } in
      collect_tasks c ids (settle c id (judge c id (lookup id l'.task_statuses)) (l', failures))

  unfoldable pub collect_wave :
      Option WaveResult → Bool → List (String × AgentAssignment) → List String → Ledger → Collection
  unfolding collected_of collect_tasks
  collect_wave output timed_out issued ids l =
      collect_tasks (collected_of output timed_out issued) ids (l, [])
