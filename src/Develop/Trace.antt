-- ===== src/Develop/Trace.antt =====
-- packages/develop/src/smorx_develop/trace.py. SHA-256 and `json.dumps` with sorted keys are
-- parameters, and so is the type of payloads: the dicts that `build_trace` makes of a decision, a
-- mutation, an execution, the run and the candidate are given with the run.
pub mod Chain
mod Samples
use smorx.Prelude.{
  ℕ, zero, suc, ◌+◌, String, Bool, true, false, not, Option, none, some, List, [], ◌∷◌, ◌++◌, map,
  if◌then◌else◌, length, ◌==◌, string_eq, ◌<>◌, str,
}

pub data EntryKind : Type 0 where
  task decision tool_invocation execution_result mutation : EntryKind

pub record TraceEntry (Payload : Type 0) : Type 0 where
  pub sequence : ℕ
  pub kind : EntryKind
  pub at : String
  pub payload : Payload
  pub previous_hash : String
  pub entry_hash : String

pub record ExecutionTrace (Payload : Type 0) : Type 0 where
  pub trace_id : String
  pub task_id : String
  pub loop_id : String
  pub entries : List (TraceEntry Payload)

-- What the trace is built from: the payloads in the order of their lists.
pub record LoopRun (Payload : Type 0) : Type 0 where
  pub trace_id : String
  pub task_id : String
  pub loop_id : String
  pub task_payload : Payload
  pub decisions : List Payload
  pub mutations : List Payload
  pub executions : List Payload
  pub summary : Payload
  pub candidate : Option Payload

-- `verify_trace_integrity`: the number of entries, or the sequence where the chain breaks.
pub data Integrity : Type 0 where
  intact : ℕ → Integrity
  mismatch reordered : ℕ → Integrity

abbrev pub is_intact : Integrity → Bool
is_intact (intact n) = true
is_intact _ = false

module _ {Payload : Type 0} where
  abbrev pub candidate_events : Option Payload → List (EntryKind × Payload)
  candidate_events none = []
  candidate_events (some payload) = (tool_invocation, payload) ∷ []

  abbrev pub events_of : LoopRun Payload → List (EntryKind × Payload)
  events_of r =
      (task, r.task_payload)
      ∷ (map (λ p. (decision, p)) r.decisions
          ++ (map (λ p. (mutation, p)) r.mutations
              ++ (map (λ p. (execution_result, p)) r.executions
                  ++ (tool_invocation, r.summary) ∷ candidate_events r.candidate)))

module _ {Payload : Type 0} (sha256 : String → String) (canonical : Payload → String) where
  unfoldable pub hash_payload : ℕ → String → Payload → String
  unfolding str
  hash_payload sequence previous payload =
      sha256 (str sequence <> "|" <> previous <> "|" <> canonical payload)

  unfoldable pub entry : ℕ → String → EntryKind → String → Payload → TraceEntry Payload
  unfolding hash_payload
  entry sequence previous kind at payload = record {
    sequence = sequence;
    kind = kind;
    at = at;
    payload = payload;
    previous_hash = previous;
    entry_hash = hash_payload sequence previous payload;
  }

  -- `_append` for each event, with `sequence` and `previous` as they are before the first one.
  unfoldable pub append_all : ℕ → String → List (EntryKind × Payload) → List (TraceEntry Payload)
  unfolding entry
  append_all sequence previous [] = []
  append_all sequence previous ((kind, payload) ∷ events) =
      let e = entry (sequence + 1) previous kind "" payload in
      e ∷ append_all (sequence + 1) e.entry_hash events

  unfoldable pub build_trace : LoopRun Payload → ExecutionTrace Payload
  unfolding append_all
  build_trace r = record {
    trace_id = r.trace_id;
    task_id = r.task_id;
    loop_id = r.loop_id;
    entries = append_all 0 "GENESIS" (events_of r);
  }

  -- The loop over the entries; `total` is the number that the last message names.
  unfoldable pub verify_from : ℕ → String → List (TraceEntry Payload) → Integrity
  unfolding hash_payload
  verify_from total previous [] = intact total
  verify_from total previous (e ∷ es) =
      let rest = verify_from total e.entry_hash es in
      if not (e.entry_hash == hash_payload e.sequence previous e.payload)
      then mismatch e.sequence
      else if not (e.previous_hash == previous)
      then reordered e.sequence
      else rest

  unfoldable pub verify_trace_integrity : ExecutionTrace Payload → Integrity
  unfolding verify_from
  verify_trace_integrity t = verify_from (length t.entries) "GENESIS" t.entries
