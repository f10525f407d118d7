-- ===== src/Workflow/Events.antt =====
-- packages/workflow/src/smorx_workflow/chaining.py, over the tables of
-- packages/behavior/src/smorx_behavior/models/entities.py by the columns that the workflow uses, and
-- `digest` of packages/behavior/src/smorx_behavior/repo/base.py. SHA-256 and `json.dumps` are
-- parameters. Of the values of a payload, lists and dicts, which nothing looks into, are one kind.
use smorx.Prelude.{
  ℕ, ◌+◌, String, Bool, false, Option, none, some, List, [], ◌∷◌, ◌++◌, filterb, length, ◌==◌,
  string_eq, Result, ok, err, joined, str,
}

pub data Value : Type 0 where
  null : Value
  flag : Bool → Value
  num : ℕ → Value
  text : String → Value
  compound : String → Value

abbrev pub Payload : Type 0
Payload = List (String × Value)

pub record Event : Type 0 where
  pub id : ℕ
  pub entity_type : String
  pub entity_id : Option String
  pub event_type : String
  pub occurred_at : Option ℕ
  pub actor : Option String
  pub payload : Payload
  pub provenance : Option String
  pub task_id : Option String
  pub run_id : Option String
  pub sequence : ℕ
  pub hash : Option String

pub record Run : Type 0 where
  pub id : String
  pub task_id : String
  pub status : String
  pub finished_at : Option ℕ
  pub environment : Payload

pub record Execution : Type 0 where
  pub id : ℕ
  pub run_id : String
  pub sandbox_id : Option String

-- A row of another table that belongs to a run and a task.
pub record Bound : Type 0 where
  pub id : ℕ
  pub run_id : Option String
  pub task_id : Option String
  pub hash : Option String

pub record Store : Type 0 where
  pub events : List Event
  pub runs : List Run
  pub evidence : List Bound
  pub failures : List Bound
  pub executions : List Execution

-- What the code takes from the outside.
pub record Codec : Type 0 where
  pub sha256 : String → String
  pub dumps : Payload → String

-- column == value, where the column may be null
abbrev pub is_id : String → Option String → Bool
is_id id none = false
is_id id (some x) = x == id

abbrev pub of_run : String → Event → Bool
of_run run_id e = is_id run_id e.run_id

abbrev pub of_task : String → Event → Bool
of_task task_id e = is_id task_id e.task_id

module _ (codec : Codec) where
  unfoldable pub digest : List String → String
  unfolding joined
  digest parts = codec.sha256 (joined "|" parts)

  unfoldable pub canonical_payload : Payload → String
  canonical_payload payload = codec.dumps payload

  abbrev entity_text : Option String → String
  entity_text none = ""
  entity_text (some id) = id

  unfoldable pub event_digest : Event → String
  unfolding digest canonical_payload str
  event_digest e = digest (
      e.entity_type
      ∷ entity_text e.entity_id
      ∷ e.event_type
      ∷ str e.sequence
      ∷ canonical_payload e.payload
      ∷ [])

-- The number of rows and one more; the ValueError unless there is exactly one scope.
unfoldable pub next_sequence : Option String → Option String → Store → Result String ℕ
next_sequence (some run_id) none s = ok (length (filterb (of_run run_id) s.events) + 1)
next_sequence none (some task_id) s = ok (length (filterb (of_task task_id) s.events) + 1)
next_sequence _ _ s = err "exactly one of run_id or task_id must be provided"

-- The event as its caller gives it.
pub record Draft : Type 0 where
  pub id : ℕ
  pub entity_type : String
  pub entity_id : String
  pub event_type : String
  pub occurred_at : ℕ
  pub actor : String
  pub payload : Payload
  pub task_id : String
  pub run_id : Option String

abbrev pub row_of : Draft → ℕ → Event
row_of d sequence = record {
  id = d.id;
  entity_type = d.entity_type;
  entity_id = some d.entity_id;
  event_type = d.event_type;
  occurred_at = some d.occurred_at;
  actor = some d.actor;
  payload = d.payload;
  provenance = none;
  task_id = some d.task_id;
  run_id = d.run_id;
  sequence = sequence;
  hash = none;
}

abbrev pub add_event : Event → Store → Store
add_event e s = record s { events = s.events ++ e ∷ [] }
