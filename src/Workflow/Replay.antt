-- ===== src/Workflow/Replay.antt =====
-- packages/workflow/src/smorx_workflow/replay.py. An id stands by its place in the order of ids. The
-- labels of the blocked stages, which only a reader looks at, are left out. The
-- test for a known phase raises on a list or a dict under "phase".
use smorx.Prelude.{
  ℕ, suc, String, Bool, true, false, not, ◌&&◌, ◌||◌, Option, none, some, List, [], ◌∷◌, ◌++◌,
  if◌then◌else◌, ltb, leb, nat_beq, filterb, length, is_empty, last?, contains, ◌==◌, string_eq,
  lookup, sort, ◌<>◌, str, Result, ok, err, ◌>>=◌,
}
use smorx.Workflow.Events.{
  Value, flag, text, compound, Payload, Event, Run, Bound, Store, Codec, is_id, of_run, of_task,
  event_digest,
}

abbrev pub default_phases : List String
default_phases =
    "discover" ∷ "govern" ∷ "define" ∷ "analyze" ∷ "lock" ∷ "develop" ∷ "verify" ∷ "decide"
    ∷ "reverify" ∷ "certify" ∷ "merge" ∷ "memory" ∷ []

-- _STAGE_ORDER
abbrev pub stage_order : List String
stage_order =
    "TASK_RECEIVED" ∷ "REPOSITORY_INSPECTED" ∷ "PLAN_GENERATED" ∷ "SANDBOX_CREATED"
    ∷ "ACTION_EXECUTED" ∷ "FAILURE_CLASSIFIED" ∷ "PATCH_GENERATED" ∷ "EVIDENCE_RECORDED"
    ∷ "REVERIFICATION" ∷ "VERIFICATION_RUN" ∷ "BEHAVIORAL_DELTA" ∷ "INTENT_ALIGNMENT" ∷ "REPAIR"
    ∷ "CERTIFICATION" ∷ "MERGE" ∷ "MEMORY_UPDATE" ∷ "BLOCKED" ∷ []

-- xs.index(x), or the length
unfoldable pub position : String → List String → ℕ
position x [] = 0
position x (y ∷ ys) = let rest = position x ys in if y == x then 0 else suc rest

-- The nulls last.
abbrev pub time_lt : Option ℕ → Option ℕ → Bool
time_lt (some a) (some b) = ltb a b
time_lt (some a) none = true
time_lt none _ = false

abbrev pub time_eq : Option ℕ → Option ℕ → Bool
time_eq (some a) (some b) = nat_beq a b
time_eq none none = true
time_eq _ _ = false

-- ORDER BY sequence, occurred_at NULLS LAST, id
unfoldable pub by_sequence : Event → Event → Bool
by_sequence a b =
    ltb a.sequence b.sequence
    || nat_beq a.sequence b.sequence
      && (time_lt a.occurred_at b.occurred_at
          || time_eq a.occurred_at b.occurred_at && leb a.id b.id)

-- ORDER BY occurred_at NULLS LAST, sequence, id
unfoldable pub by_time : Event → Event → Bool
by_time a b =
    time_lt a.occurred_at b.occurred_at
    || time_eq a.occurred_at b.occurred_at
      && (ltb a.sequence b.sequence || nat_beq a.sequence b.sequence && leb a.id b.id)

unfoldable pub insert_event : (Event → Event → Bool) → Event → List Event → List Event
insert_event le e [] = e ∷ []
insert_event le e (x ∷ xs) = if le e x then e ∷ x ∷ xs else x ∷ insert_event le e xs

unfoldable pub order_by : (Event → Event → Bool) → List Event → List Event
unfolding insert_event
order_by le [] = []
order_by le (e ∷ es) = insert_event le e (order_by le es)

unfoldable pub ordered_events : String → Store → List Event
unfolding order_by by_sequence
ordered_events run_id s = order_by by_sequence (filterb (of_run run_id) s.events)

unfoldable pub task_events : String → Store → List Event
unfolding order_by by_time
task_events task_id s = order_by by_time (filterb (of_task task_id) s.events)

-- Where a chain breaks.
pub data ChainIssue : Type 0 where
  missing_hash : ChainIssue
  hash_mismatch ordering_violated : ℕ → ChainIssue

abbrev pub issue_text : ChainIssue → String
issue_text missing_hash = "missing stored hash"
issue_text (hash_mismatch n) = "stored/recomputed mismatch at sequence " <> str n
issue_text (ordering_violated n) = "sequence ordering violated at sequence " <> str n

-- prev_seq is not None and event.sequence <= prev_seq
abbrev pub is_out_of_order : Option ℕ → ℕ → Bool
is_out_of_order none n = false
is_out_of_order (some prev) n = leb n prev

-- A hash that is there and not empty.
abbrev pub stored_hash : Option String → Option String
stored_hash none = none
stored_hash (some h) = if h == "" then none else some h

abbrev pub is_chained : Event → Bool
is_chained e = ltb 0 e.sequence

-- The TypeError of a list or a dict that is looked up in a set.
abbrev pub unhashable : String
unhashable = "unhashable type"

-- payload.get("phase"), where it is a phase.
unfoldable pub phase_of : Payload → Result String (Option String)
unfolding lookup contains
phase_of payload = elim (lookup "phase" payload) [
  | some (text t) ↦ ok (if contains default_phases t then some t else none)
  | some (compound c) ↦ err unhashable
  | _ ↦ ok none
]

-- payload.get("blocked") is True
unfoldable pub is_blocked : Payload → Bool
unfolding lookup
is_blocked payload = elim (lookup "blocked" payload) [ some (flag b) ↦ b | _ ↦ false ]

unfoldable pub insert_phase : String → List String → List String
unfolding position
insert_phase p [] = p ∷ []
insert_phase p (q ∷ qs) =
    if leb (position p default_phases) (position q default_phases)
    then p ∷ q ∷ qs
    else q ∷ insert_phase p qs

abbrev pub with_phase : Option String → List String → List String
unfolding insert_phase
with_phase none phases = phases
with_phase (some p) phases = insert_phase p phases

-- The phases of the events, by their places.
unfoldable pub replayed_phases : List Event → Result String (List String)
unfolding phase_of with_phase
replayed_phases [] = ok []
replayed_phases (e ∷ es) = do
  phase ← phase_of e.payload
  phases ← replayed_phases es
  ok (with_phase phase phases)

pub record ReplayStage : Type 0 where
  pub stage : String
  pub events : List Event

unfoldable pub insert_stage : ReplayStage → List ReplayStage → List ReplayStage
unfolding position
insert_stage s [] = s ∷ []
insert_stage s (t ∷ ts) =
    if leb (position s.stage stage_order) (position t.stage stage_order)
    then s ∷ t ∷ ts
    else t ∷ insert_stage s ts

unfoldable pub sort_stages : List ReplayStage → List ReplayStage
unfolding insert_stage
sort_stages [] = []
sort_stages (s ∷ ss) = insert_stage s (sort_stages ss)

-- stages_by_type, in the order in which the types are met.
unfoldable pub append_event : Event → List ReplayStage → List ReplayStage
append_event e [] = record { stage = e.event_type; events = e ∷ [] } ∷ []
append_event e (s ∷ ss) =
    if s.stage == e.event_type
    then record s { events = s.events ++ e ∷ [] } ∷ ss
    else s ∷ append_event e ss

unfoldable pub group_events : List ReplayStage → List Event → List ReplayStage
unfolding append_event
group_events stages [] = stages
group_events stages (e ∷ es) = group_events (append_event e stages) es

abbrev pub is_blocked_event : Event → Bool
is_blocked_event e = is_blocked e.payload || e.event_type == "BLOCKED"

pub record ReplayResult : Type 0 where
  pub task_id : String
  pub stages : List ReplayStage
  pub evidence_count : ℕ
  pub event_count : ℕ
  pub replayable : Bool
  pub hash_chain_valid : Bool
  pub first_mismatch : Option String
  pub replayed_phases : List String
  pub evidence_hashes : List String
  pub blocked_events : List Event
  pub blocked_reason : Option Value

-- sorted({ev.hash for ev in rows if ev.hash})
unfoldable pub hashes_of : List Bound → List String
unfolding contains
hashes_of [] = []
hashes_of (row ∷ rows) =
    let rest = hashes_of rows in
    elim (stored_hash row.hash) [
      | none ↦ rest
      | some h ↦ if contains rest h then rest else h ∷ rest
    ]

unfoldable pub evidence_hashes : List Bound → List String
unfolding hashes_of sort
evidence_hashes rows = sort (hashes_of rows)

unfoldable pub same_texts : List String → List String → Bool
same_texts [] [] = true
same_texts (x ∷ xs) (y ∷ ys) = x == y && same_texts xs ys
same_texts _ _ = false

abbrev pub meets : Option (List String) → List String → Bool
meets none hashes = true
meets (some expected) hashes = same_texts expected hashes

abbrev pub is_valid : Option ChainIssue → Bool
is_valid none = true
is_valid (some issue) = false

module _ (codec : Codec) where
  -- The loop over the chained events, from the sequence before.
  unfoldable pub check_chain : Option ℕ → List Event → Option ChainIssue
  unfolding event_digest
  check_chain prev [] = none
  check_chain prev (e ∷ es) =
      let rest = check_chain (some e.sequence) es in
      elim (stored_hash e.hash) [
        | none ↦ some missing_hash
        | some h ↦
            if not (event_digest codec e == h)
            then some (hash_mismatch e.sequence)
            else if is_out_of_order prev e.sequence
            then some (ordering_violated e.sequence)
            else rest
      ]

  unfoldable pub first_mismatch : Bool → Bool → Option ChainIssue → Option String
  unfolding str
  first_mismatch no_events met (some issue) = some (issue_text issue)
  first_mismatch true met none = some "no chained events"
  first_mismatch false false none = some "evidence digest mismatch"
  first_mismatch false true none = none

  abbrev reason_of : Option Event → Option Value
  reason_of none = none
  reason_of (some e) = lookup "reason" e.payload

  unfoldable pub replay_events :
      String → List Event → Option (List String) → Store → Result String ReplayResult
  unfolding check_chain first_mismatch replayed_phases group_events sort_stages evidence_hashes
      is_blocked lookup
  replay_events task_id shown expected s =
      let rows = filterb (λ (row : Bound). is_id task_id row.task_id) s.evidence in
      let chain = filterb is_chained shown in
      let issue = check_chain none chain in
      let hashes = evidence_hashes rows in
      let met = meets expected hashes in
      let blocked = filterb is_blocked_event chain in
      replayed_phases chain >>= λ phases. ok (record {
        task_id = task_id;
        stages = sort_stages (group_events [] shown);
        evidence_count = length rows;
        event_count = length shown;
        replayable = is_valid issue && met && not (is_empty chain);
        hash_chain_valid = is_valid issue;
        first_mismatch = first_mismatch (is_empty chain) met issue;
        replayed_phases = phases;
        evidence_hashes = hashes;
        blocked_events = blocked;
        blocked_reason = reason_of (last? blocked);
      })

  -- With a run its events, else those of the task; the ValueError without either.
  unfoldable pub replay_from_evidence_graph :
      Option Run → Option String → Option (List String) → Store → Result String ReplayResult
  unfolding replay_events ordered_events task_events
  replay_from_evidence_graph (some run) task_id expected s =
      replay_events run.task_id (ordered_events run.id s) expected s
  replay_from_evidence_graph none (some task_id) expected s =
      replay_events task_id (task_events task_id s) expected s
  replay_from_evidence_graph none none expected s = err "at least one of run or task_id is required"
